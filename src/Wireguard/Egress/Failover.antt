-- ===== src/Wireguard/Egress/Failover.antt =====
-- One round of the failover for a range.
use mathlib.Core.Path.{subst}
use netclient.Prelude.{
  ◌≡◌, ◌⊎◌, refl, List, [], ◌∷◌, ◌++◌, Bool, true, false, ◌&&◌, none, some, arith, All, Bool-cases,
  Option-cases, inl, inr, keep, ◌∙◌, sym,
}
use netclient.Text.{Text, text_eq, text_eq_iff, text_eq_refl}
use netclient.Assoc.{
  lookup, remove, has_key, lookup-insert, lookup-remove, has_key-eq_lookup, has_key-remove,
}
use netclient.Wireguard.Types.{Peer}
use netclient.Wireguard.Egress.{
  EgressPeer, Round, HaState, HaCache, find_active, activate, deactivate, remove_others, failover,
  has_ip,
}

-- The peers that are on the device and answer.
abbrev pub usable_peer : Round → EgressPeer → Bool
usable_peer r p = has_key p.peer_key r.device_peer_map && r.connected p

abbrev pub key_of : List EgressPeer → Text
key_of [] = []
key_of (p ∷ peers) = p.peer_key

-- GetPeer and the map of the device's peers give peers under their own keys.
pub record IsKeyed (r : Round) : Type 0 where
  pub device : (k : Text) (d : Peer) → lookup k r.device_peer_map ≡ some d → d.public_key ≡ k
  pub got : (k : Text) (d : Peer) → r.get_peer k ≡ some d → d.public_key ≡ k

-- UniqueIPNetList keeps every network that it is given, and adds none.
abbrev pub KeepsNetworks : (List Text → List Text) → Type 0
KeepsNetworks unique = (n : Text) (l : List Text) → has_ip n (unique l) ≡ has_ip n l

has_ip_snoc : (n : Text) (l : List Text) → has_ip n (l ++ n ∷ []) ≡ true
unfolding has_ip
has_ip_snoc n [] = ground (arith, text_eq_refl n)
has_ip_snoc n (m ∷ l) = ground (arith, has_ip_snoc n l)

module _ (unique : List Text → List Text) (r : Round) (keyed : IsKeyed r) where
  find_active-first :
      (peers : List EgressPeer) (s : HaState)
      → (find_active unique r peers s).0 ≡ key_of (keep (usable_peer r) peers)
  unfolding find_active
  find_active-first [] s = refl
  find_active-first (p ∷ peers) s = elim (Option-cases (lookup p.peer_key r.device_peer_map)) [
    | inl absent ↦
        ground (arith, find_active-first peers s, has_key-eq_lookup p.peer_key r.device_peer_map)
    | inr (d, found) ↦ ground (
      arith,
      find_active-first peers s,
      has_key-eq_lookup p.peer_key r.device_peer_map,
      keyed.device p.peer_key d found,
    )
  ]

  deactivate-cache :
      (p : EgressPeer) (s : HaState) → (deactivate unique r p s).cache ≡ remove p.peer_key s.cache
  unfolding deactivate
  deactivate-cache p s = ground arith

  -- What the second loop leaves of an entry of the cache.
  remove_others-lookup :
      (active : Text) (peers : List EgressPeer) (s : HaState)
      → lookup active (remove_others unique r active peers s).cache ≡ lookup active s.cache
  unfolding remove_others
  remove_others-lookup active [] s = refl
  remove_others-lookup active (p ∷ peers) s = elim (Bool-cases (text_eq p.peer_key active)) [
    | inl same ↦ ground (arith, remove_others-lookup active peers s)
    | inr other ↦ ground (
      arith,
      remove_others-lookup active peers (deactivate unique r p s),
      deactivate-cache p s,
      lookup-remove p.peer_key active s.cache,
    )
  ]

  stays_gone :
      (active k : Text) (peers : List EgressPeer) (s : HaState)
      → has_key k s.cache ≡ false
      → has_key k (remove_others unique r active peers s).cache ≡ false
  unfolding remove_others
  stays_gone active k [] s h = h
  stays_gone active k (p ∷ peers) s h = ground (
    arith,
    stays_gone active k peers s h,
    stays_gone active k peers (deactivate unique r p s),
    deactivate-cache p s,
    has_key-remove p.peer_key k s.cache,
  )

  gone : (p : EgressPeer) (s : HaState) → has_key p.peer_key (deactivate unique r p s).cache ≡ false
  gone p s = ground (
    arith,
    deactivate-cache p s,
    has_key-remove p.peer_key p.peer_key s.cache,
    text_eq_refl p.peer_key,
  )

  abbrev pub IsActiveOnly : Text → HaCache → EgressPeer → Type 0
  IsActiveOnly active cache p = (p.peer_key ≡ active) ⊎ (has_key p.peer_key cache ≡ false)

  remove_others-active :
      (active : Text) (peers : List EgressPeer) (s : HaState)
      → All (IsActiveOnly active (remove_others unique r active peers s).cache) peers
  unfolding remove_others
  remove_others-active active [] s = tt
  remove_others-active active (p ∷ peers) s = elim (Bool-cases (text_eq p.peer_key active)) [
    | inl same ↦
        let step : remove_others unique r active (p ∷ peers) s
            ≡ remove_others unique r active peers s =
          ground arith in
        subst (λ (c : HaState). All (IsActiveOnly active c.cache) (p ∷ peers)) (sym step)
          (inl ((text_eq_iff p.peer_key active).0 same), remove_others-active active peers s)
    | inr other ↦
        let t = deactivate unique r p s in
        let step : remove_others unique r active (p ∷ peers) s
            ≡ remove_others unique r active peers t =
          ground arith in
        subst (λ (c : HaState). All (IsActiveOnly active c.cache) (p ∷ peers)) (sym step)
          (
            inr (stays_gone active p.peer_key peers t (gone p s)),
            remove_others-active active peers t,
          )
  ]

  -- The entry of the active peer holds the network, where GetPeer still finds the peer.
  abbrev pub HoldsRange : Text → HaCache → Type 0
  HoldsRange active cache =
      (r.get_peer active ≡ none)
      ⊎ ((ips : List Text) × (lookup active cache ≡ some ips) × (has_ip r.ipnet ips ≡ true))

  activate-HoldsRange :
      KeepsNetworks unique
      → (d : Peer) (s : HaState) → HoldsRange d.public_key (activate unique r d s).cache
  unfolding activate
  activate-HoldsRange keeps d s = elim (Bool-cases (has_ip r.ipnet d.allowed_ips)) [
    | inl held ↦ inr (
      d.allowed_ips,
      ground (
        arith,
        lookup-insert d.public_key d.public_key d.allowed_ips s.cache,
        text_eq_refl d.public_key,
      ),
      held,
    )
    | inr lacking ↦ elim (Option-cases (r.get_peer d.public_key)) [
      | inl gone ↦ inl gone
      | inr (p, got) ↦
          let ips = unique (p.allowed_ips ++ r.ipnet ∷ []) in
          inr (
            ips,
            ground (
              arith,
              keyed.got d.public_key p got,
              lookup-insert p.public_key d.public_key ips s.cache,
              text_eq_refl d.public_key,
            ),
            ground (
              arith,
              keeps r.ipnet (p.allowed_ips ++ r.ipnet ∷ []),
              has_ip_snoc r.ipnet p.allowed_ips,
            ),
          )
    ]
  ]

  -- The active peer, if there is one, holds the network after the first loop.
  find_active-HoldsRange :
      KeepsNetworks unique
      → (peers : List EgressPeer) (s : HaState)
      → (keep (usable_peer r) peers ≡ [])
        ⊎ HoldsRange (find_active unique r peers s).0 (find_active unique r peers s).1.cache
  unfolding find_active
  find_active-HoldsRange keeps [] s = inl refl
  find_active-HoldsRange keeps (p ∷ peers) s =
      let key = has_key-eq_lookup p.peer_key r.device_peer_map in
      elim (Option-cases (lookup p.peer_key r.device_peer_map)) [
        | inl absent ↦
            let step : find_active unique r (p ∷ peers) s ≡ find_active unique r peers s =
              ground arith in
            let skip : keep (usable_peer r) (p ∷ peers) ≡ keep (usable_peer r) peers =
              ground (arith, key) in
            rw (step, skip) (find_active-HoldsRange keeps peers s)
        | inr (d, there) ↦ elim (Bool-cases (r.connected p)) [
          | inr down ↦
              let step : find_active unique r (p ∷ peers) s ≡ find_active unique r peers s =
                ground arith in
              let skip : keep (usable_peer r) (p ∷ peers) ≡ keep (usable_peer r) peers =
                ground arith in
              rw (step, skip) (find_active-HoldsRange keeps peers s)
          | inl up ↦
              let step : find_active unique r (p ∷ peers) s
                  ≡ (d.public_key, activate unique r d s) =
                ground arith in
              rw step (inr (activate-HoldsRange keeps d s))
        ]
      ]

  -- After a round the only gateway of the range in the cache is the first that is on the device and
  -- answers; if there is such a one, its entry holds the range's network unless GetPeer has lost
  -- it. GetPeer and the device's peers go by their keys, and UniqueIPNetList keeps the networks.
  pub failover-active :
      KeepsNetworks unique
      → (peers : List EgressPeer) (s : HaState)
      → let active = key_of (keep (usable_peer r) peers) in
        All (IsActiveOnly active (failover unique r peers s).cache) peers
        × ((keep (usable_peer r) peers ≡ []) ⊎ HoldsRange active (failover unique r peers s).cache)
  unfolding failover
  failover-active keeps peers s =
      let found = find_active unique r peers s in
      let first : found.0 ≡ key_of (keep (usable_peer r) peers) = find_active-first peers s in
      let kept = remove_others-lookup found.0 peers found.1 in
      rw (← first) (
        remove_others-active found.0 peers found.1,
        elim (find_active-HoldsRange keeps peers s) [
          | inl e ↦ inl e
          | inr h ↦ inr (elim h [ inl lost ↦ inl lost | inr (ips, e, f) ↦ inr (ips, kept ∙ e, f) ])
        ],
      )
