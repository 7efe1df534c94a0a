-- ===== src/AutoRelay/Gateway.antt =====
-- functions/auto_relay.go: the requests of checkAssignGw.
use netclient.Prelude.{
  ◌≡◌, ◌⊎◌, refl, List, [], ◌∷◌, true, false, if◌then◌else◌, is_empty, none, some, arith, inl, inr,
  In, All, Option-cases, Bool-cases,
}
use mathlib.Core.Path.{subst}
use netclient.Text.{Text, text_eq}
use netclient.AutoRelay.{
  Node, Probe, RelayRequest, put, put_relay, find_nearest_node, reached, find_node, switch_gw,
  check_assign_gw,
}
use netclient.AutoRelay.Lowest.{IsLowest, find_nearest_node-IsLowest}

-- The gateway of the node is not among the nodes.
abbrev pub IsUnlisted : Node → List Node → Type 0
IsUnlisted node gw_nodes = All (λ gw. text_eq gw.id node.relayed_by ≡ false) gw_nodes

-- Why a node leaves its gateway: the gateway is among the nodes and does not answer, or it is not
-- among them and no gateway is near.
abbrev pub IsLeft : Node → List Node → List Node → Probe → Type 0
IsLeft node gw_nodes finished probe =
    ((gw : Node) × In gw gw_nodes × (text_eq gw.id node.relayed_by ≡ true) × ((probe gw).0 ≡ false))
    ⊎ (IsUnlisted node gw_nodes × IsLowest (reached probe) 999 finished none)

-- What a request of the gateway check says: it leaves the current gateway for a reason, or, for a
-- node without a gateway or with one that is gone, it takes the nearest of those that answered.
abbrev pub IsSensible : Node → List Node → List Node → Probe → RelayRequest → Type 0
IsSensible node gw_nodes finished probe r =
    (r.method ≡ put)
    × (r.node_id ≡ node.id)
    × (((r.relay_id ≡ [])
          × (is_empty node.relayed_by ≡ false)
          × IsLeft node gw_nodes finished probe)
        ⊎ ((n : Node) × (r.relay_id ≡ n.id)
            × (text_eq node.relayed_by n.id ≡ false)
            × ((is_empty node.relayed_by ≡ true) ⊎ IsUnlisted node gw_nodes)
            × IsLowest (reached probe) 999 finished (some n)))

find_node-listed :
    (i : Text) (nodes : List Node) (gw : Node)
    → find_node i nodes ≡ some gw
    → In gw nodes × (text_eq gw.id i ≡ true)
unfolding find_node
find_node-listed i [] gw h = ground (arith, h)
find_node-listed i (n ∷ nodes) gw h = elim (Bool-cases (text_eq n.id i)) [
  | inl e ↦
      let same : n ≡ gw = ground (arith, h, e) in
      subst (λ g. In g (n ∷ nodes) × (text_eq g.id i ≡ true)) same (inl refl, e)
  | inr e ↦ let found = find_node-listed i nodes gw (ground (arith, h, e)) in (inr found.0, found.1)
]

find_node-unlisted :
    (i : Text) (nodes : List Node)
    → find_node i nodes ≡ none
    → All (λ gw. text_eq gw.id i ≡ false) nodes
unfolding find_node
find_node-unlisted i [] h = tt
find_node-unlisted i (n ∷ nodes) h = elim (Bool-cases (text_eq n.id i)) [
  | inl e ↦ ground (arith, h, e)
  | inr e ↦ (e, find_node-unlisted i nodes (ground (arith, h, e)))
]

switch_gw-IsSensible :
    (node : Node) (probe : Probe) (gw_nodes finished : List Node) (r : RelayRequest)
    → (is_empty node.relayed_by ≡ true) ⊎ IsUnlisted node gw_nodes
    → switch_gw node probe finished ≡ some r
    → IsSensible node gw_nodes finished probe r
unfolding switch_gw
switch_gw-IsSensible node probe gw_nodes finished r why h =
    elim (Option-cases (find_nearest_node probe finished)) [
      | inl e ↦ left e (rw (e, switch_gw) at h)
      | inr (n, e) ↦ taken n e (rw (e, switch_gw) at h)
    ]
  where
    left :
        find_nearest_node probe finished ≡ none
        → (if is_empty node.relayed_by then none else some (put_relay node [])) ≡ some r
        → IsSensible node gw_nodes finished probe r
    left e q = elim (Bool-cases (is_empty node.relayed_by)) [
      | inl b ↦ ground (arith, q, b)
      | inr b ↦
          let same : put_relay node [] ≡ r = ground (arith, q, b) in
          let far =
            subst (IsLowest (reached probe) 999 finished) e
              (find_nearest_node-IsLowest probe finished) in
          let gone : IsUnlisted node gw_nodes = elim why [
            | inl a ↦ ground (arith, a, b)
            | inr u ↦ u
          ] in
          subst (IsSensible node gw_nodes finished probe) same
            (refl, refl, inl (refl, b, inr (gone, far)))
    ]

    taken :
        (n : Node)
        → find_nearest_node probe finished ≡ some n
        → (if text_eq node.relayed_by n.id then none else some (put_relay node n.id)) ≡ some r
        → IsSensible node gw_nodes finished probe r
    taken n e q = elim (Bool-cases (text_eq node.relayed_by n.id)) [
      | inl b ↦ ground (arith, q, b)
      | inr b ↦
          let same : put_relay node n.id ≡ r = ground (arith, q, b) in
          let lowest = find_nearest_node-IsLowest probe finished in
          subst (IsSensible node gw_nodes finished probe) same (
            refl,
            refl,
            inr (n, refl, b, why, subst (IsLowest (reached probe) 999 finished) e lowest),
          )
    ]

-- A request of checkAssignGw is made for a node that has its gateway assigned. It leaves the node's
-- gateway only if that one is a known gateway and does not answer, or if it is not known and no
-- gateway answered in less than 999 milliseconds; or it takes another gateway, the one that answered
-- with the lowest latency, only if the node has none or its own is not known.
pub check_assign_gw-IsSensible :
    (node : Node) (gw_nodes finished : List Node) (probe : Probe) (r : RelayRequest)
    → check_assign_gw node gw_nodes finished probe ≡ some r
    → (node.auto_assign_gateway ≡ true) × IsSensible node gw_nodes finished probe r
unfolding check_assign_gw
check_assign_gw-IsSensible node gw_nodes finished probe r h =
    elim (Bool-cases node.auto_assign_gateway) [
      | inr a ↦ ground (arith, h, a)
      | inl a ↦ elim (Bool-cases (is_empty gw_nodes)) [
        | inl g ↦ ground (arith, h, a, g)
        | inr g ↦ (
          a,
          elim (Bool-cases (is_empty node.relayed_by)) [
            | inl b ↦
                switch_gw-IsSensible node probe gw_nodes finished r (inl b)
                  (ground (arith, h, a, g, b))
            | inr b ↦ elim (Option-cases (find_node node.relayed_by gw_nodes)) [
              | inl e ↦
                  switch_gw-IsSensible node probe gw_nodes finished r
                    (inr (find_node-unlisted node.relayed_by gw_nodes e))
                    (ground (arith, h, a, g, b, e))
              | inr (gw, e) ↦
                  let (i, named) = find_node-listed node.relayed_by gw_nodes gw e in
                  elim (Bool-cases (probe gw).0) [
                    | inl up ↦ ground (arith, h, a, g, b, e, up)
                    | inr down ↦
                        let same : put_relay node [] ≡ r = ground (arith, h, a, g, b, e, down) in
                        subst (IsSensible node gw_nodes finished probe) same
                          (refl, refl, inl (refl, b, inl (gw, i, named, down)))
                  ]
            ]
          ],
        )
      ]
    ]
