-- ===== src/Firewall/Routing/Stale.antt =====
-- firewall/egress.go: which entries the last loop of processEgressFwRules takes for stale.
use netclient.Prelude.{
  ◌≡◌, refl, List, [], ◌∷◌, true, false, ◌==◌, arith, inl, inr, Bool-cases, All, ap, ◌∙◌,
}
use mathlib.Core.Path.{subst}
use netclient.Text.{Text, codes, text_eq, text_eq_iff, text_eq_refl, contains, has_prefix, split}
use netclient.Assoc.{has_key}
use netclient.Firewall.Egress.{EgressInfo, egress_acl_id, is_stale, second}
use netclient.Firewall.Egress.Tables.{is_entry_of}

-- Every gateway of the update stands under its own ID.
abbrev pub IsKeyed : List (Text × EgressInfo) → Type 0
IsKeyed [] = Unit
IsKeyed ((i, info) ∷ gateways) = (i ≡ info.egress_id) × IsKeyed gateways

-- No `#` is in the text.
abbrev pub IsHashless : Text → Type 0
IsHashless i = All (λ c. (c == b'#') ≡ false) i

split_hashless : (i : Text) → IsHashless i → split b'#' i ≡ i ∷ []
unfolding split
split_hashless [] h = refl
split_hashless (c ∷ i) h = rw (split_hashless i h.1, split) (rw h.0 refl)

split-egress_acl_id :
    (i : Text) → IsHashless i → split b'#' (egress_acl_id i) ≡ codes "acl" ∷ i ∷ []
unfolding split egress_acl_id
split-egress_acl_id i h = rw (split_hashless i h) refl

has_prefix_hashless : (i : Text) → IsHashless i → has_prefix i (codes "acl#") ≡ false
unfolding has_prefix
has_prefix_hashless [] h = refl
has_prefix_hashless (a ∷ []) h = ground arith
has_prefix_hashless (a ∷ b ∷ []) h = ground arith
has_prefix_hashless (a ∷ b ∷ c ∷ []) h = ground arith
has_prefix_hashless (a ∷ b ∷ c ∷ d ∷ i) h = ground (arith, h.1.1.1.0)

contains_hashless : (i : Text) → IsHashless i → contains i (codes "acl#") ≡ false
unfolding contains
contains_hashless [] h = has_prefix_hashless [] h
contains_hashless (c ∷ i) h = ground (arith, has_prefix_hashless (c ∷ i) h, contains_hashless i h.1)

IsHashless-at :
    (j : Text) (gateways : List (Text × EgressInfo))
    → All (λ g. IsHashless g.0) gateways
    → has_key j gateways ≡ true
    → IsHashless j
unfolding has_key
IsHashless-at j [] plain e = absurd (ground (arith, e))
IsHashless-at j ((i, info) ∷ gateways) plain e = elim (Bool-cases (text_eq i j)) [
  | inl q ↦ subst IsHashless ((text_eq_iff i j).0 q) plain.0
  | inr q ↦ IsHashless-at j gateways plain.1 (ground (arith, e, q))
]

-- The gateway whose policies stand under the key.
gateway_of :
    (j : Text) (gateways : List (Text × EgressInfo))
    → IsKeyed gateways
    → is_entry_of j gateways ≡ true
    → (i : Text) × (egress_acl_id i ≡ j) × (has_key i gateways ≡ true)
unfolding has_key
gateway_of j [] q e = absurd (ground (arith, e))
gateway_of j ((i, info) ∷ gateways) q e =
    elim (Bool-cases (text_eq (egress_acl_id info.egress_id) j)) [
      | inl t ↦ (
        i,
        ap egress_acl_id q.0 ∙ (text_eq_iff (egress_acl_id info.egress_id) j).0 t,
        ground (arith, text_eq_refl i),
      )
      | inr t ↦
          let (k, same, found) = gateway_of j gateways q.1 (ground (arith, e, t)) in
          (k, same, ground (arith, found))
    ]

-- The entry of the policies of a gateway of the update is not stale.
pub is_stale-entry :
    (j : Text) (gateways : List (Text × EgressInfo))
    → IsKeyed gateways
    → All (λ g. IsHashless g.0) gateways
    → is_entry_of j gateways ≡ true
    → is_stale gateways j ≡ false
is_stale-entry j gateways q plain e =
    let (i, same, found) = gateway_of j gateways q e in
    let parts = split-egress_acl_id i (IsHashless-at i gateways plain found) in
    subst (λ t. is_stale gateways t ≡ false) same
      (ground (arith, found, ap (λ l. has_key (second l) gateways) parts))

-- Nor is that of a gateway itself.
pub is_stale-gateway :
    (j : Text) (gateways : List (Text × EgressInfo))
    → All (λ g. IsHashless g.0) gateways
    → has_key j gateways ≡ true
    → is_stale gateways j ≡ false
is_stale-gateway j gateways plain e =
    rw (contains_hashless j (IsHashless-at j gateways plain e)) refl
