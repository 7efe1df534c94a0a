-- ===== src/Wireguard/Peers/Kept.antt =====
-- What SetPeers keeps of the peers.
use netclient.Prelude.{
  ℕ, ◌≡◌, refl, List, [], ◌∷◌, ◌++◌, true, false, ◌||◌, if◌then◌else◌, Option, none, some, is_empty,
  arith, map, Bool-cases, Option-cases, inl, inr,
}
use netclient.Text.{Text}
use netclient.Assoc.{lookup}
use netclient.Wireguard.Types.{PeerConfig}
use netclient.Wireguard.Egress.{HaData, HaCache, has_ip, check_if_egress_ha_peer, key_in_ha_data}
use netclient.Wireguard.Egress.Failover.{KeepsNetworks}
use netclient.Wireguard.Peers.{
  Endpoint, drop_nil_endpoint, check_for_better_endpoint, set_peer, set_all, apply_extra, set_peers,
}

has_ip-append : (n : Text) (l r : List Text) → has_ip n (l ++ r) ≡ (has_ip n l || has_ip n r)
unfolding has_ip
has_ip-append n [] r = refl
has_ip-append n (x ∷ l) r = ground (arith, has_ip-append n l r)

-- The peer keeps its key, whether it is removed, and every network; if it is removed, it gets no
-- network either.
pub record IsKept (p q : PeerConfig) : Type 0 where
  pub same_key : q.public_key ≡ p.public_key
  pub removal : q.remove ≡ p.remove
  pub frozen : (if p.remove then q.allowed_ips else []) ≡ (if p.remove then p.allowed_ips else [])
  pub networks :
      (n : Text) → (has_ip n p.allowed_ips || has_ip n q.allowed_ips) ≡ has_ip n q.allowed_ips

-- The peers of two lists are kept, one by one.
abbrev pub AllKept : List PeerConfig → List PeerConfig → Type 0
AllKept [] [] = Unit
AllKept (p ∷ ps) (q ∷ qs) = IsKept p q × AllKept ps qs
AllKept _ _ = ⊥

module _ (unique : List Text → List Text) (better : Text → Option (Option Endpoint))
    (keeps : KeepsNetworks unique) where
  set_peer-IsKept :
      (p : PeerConfig) (data_ : HaData) (cache : HaCache)
      → IsKept p (set_peer unique better p data_ cache).0
  unfolding set_peer drop_nil_endpoint check_for_better_endpoint check_if_egress_ha_peer
  set_peer-IsKept p data_ cache = record {
    same_key = ground arith;
    removal = ground arith;
    frozen = ground arith;
    networks = λ n. elim (Option-cases (lookup p.public_key cache)) [
      | inl absent ↦ ground arith
      | inr (l, there) ↦
          ground (arith, keeps n (p.allowed_ips ++ l), has_ip-append n p.allowed_ips l)
    ];
  }

  apply_extra-IsKept :
      (extra : List (Text × List Text)) (p q : PeerConfig)
      → IsKept p q
      → IsKept p (apply_extra unique better extra q)
  unfolding apply_extra
  apply_extra-IsKept extra p q k = record {
    same_key = ground (arith, k.same_key);
    removal = ground (arith, k.removal);
    frozen = ground (arith, k.frozen, k.removal);
    networks = λ n. elim (Option-cases (lookup q.public_key extra)) [
      | inl absent ↦ ground (arith, k.networks n)
      | inr (l, there) ↦
          ground
            (arith, k.networks n, keeps n (q.allowed_ips ++ l), has_ip-append n q.allowed_ips l)
    ];
  }

  set_all-AllKept :
      (peers : List PeerConfig) (data_ : HaData) (cache : HaCache)
      → AllKept peers (set_all unique better peers data_ cache).0
  unfolding set_all
  set_all-AllKept [] data_ cache = tt
  set_all-AllKept (p ∷ peers) data_ cache = (
    set_peer-IsKept p data_ cache,
    set_all-AllKept peers data_ (set_peer unique better p data_ cache).1,
  )

  map_extra-AllKept :
      (extra : List (Text × List Text)) (ps qs : List PeerConfig)
      → AllKept ps qs
      → AllKept ps (map (apply_extra unique better extra) qs)
  map_extra-AllKept extra [] [] k = tt
  map_extra-AllKept extra (p ∷ ps) (q ∷ qs) k =
      (apply_extra-IsKept extra p q k.0, map_extra-AllKept extra ps qs k.1)
  map_extra-AllKept extra [] (q ∷ qs) k = absurd k
  map_extra-AllKept extra (p ∷ ps) [] k = absurd k

  -- SetPeers sets one peer for each peer of the host, in order, under its key: it keeps whether the
  -- peer is removed and every network that it had, and gives networks only to peers that are not
  -- removed. UniqueIPNetList keeps the networks.
  pub set_peers-AllKept :
      (extra : List (Text × List Text)) (peers : List PeerConfig) (data_ : HaData) (cache : HaCache)
      → AllKept peers (set_peers unique better extra peers data_ cache).0
  unfolding set_peers
  set_peers-AllKept extra peers data_ cache = elim (Bool-cases (is_empty extra)) [
    | inl e ↦ rw e (set_all-AllKept peers data_ cache)
    | inr e ↦ rw e (
        map_extra-AllKept extra peers (set_all unique better peers data_ cache).0
          (set_all-AllKept peers data_ cache))
  ]

  -- The endpoint that SetPeers takes off a peer because its IP is nil comes back when the peer serves
  -- an egress range and no better endpoint is known: the copy that replaces it was taken before.
  pub set_peer_endpoint_back :
      (p : PeerConfig) (data_ : HaData) (cache : HaCache) (ips : List Text) (port : ℕ)
      → p.endpoint ≡ some ([], port)
      → p.remove ≡ false
      → better p.public_key ≡ none
      → lookup p.public_key cache ≡ some ips
      → key_in_ha_data p.public_key data_ ≡ true
      → ((set_peer unique better p data_ cache).0.endpoint ≡ some ([], port))
        × ((drop_nil_endpoint p).endpoint ≡ none)
  unfolding set_peer drop_nil_endpoint check_for_better_endpoint check_if_egress_ha_peer
  set_peer_endpoint_back p data_ cache ips port e r b c h = (ground arith, ground arith)
