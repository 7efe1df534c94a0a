-- ===== src/Text/Affixes.antt =====
-- What the tests for a prefix and a suffix decide.
use netclient.Prelude.{
  ◌≡◌, refl, ap, true, [], ◌∷◌, ◌++◌, arith, length, take, drop, Bool-cases, inl, inr,
}
use netclient.Text.Basic.{Text, text_eq, has_prefix, has_suffix}
use netclient.Text.Laws.{text_eq_iff, text_eq_refl}

pub has_prefix_append : (p r : Text) → has_prefix (p ++ r) p ≡ true
unfolding has_prefix
has_prefix_append [] r = refl
has_prefix_append (x ∷ p) r = ground (arith, has_prefix_append p r)

-- A text that begins with `p` is `p` and a rest.
pub prefix_rest : (s p : Text) → has_prefix s p ≡ true → s ≡ p ++ drop (length p) s
unfolding has_prefix
prefix_rest s [] h = refl
prefix_rest [] (c ∷ p) h = cc
prefix_rest (x ∷ s) (c ∷ p) h = ground (arith, prefix_rest s p)

pub has_suffix_self : (s : Text) → has_suffix s s ≡ true
unfolding has_suffix
has_suffix_self [] = text_eq_refl []
has_suffix_self (x ∷ s) = ground (arith, text_eq_refl (x ∷ s))

pub has_suffix_append : (q p : Text) → has_suffix (q ++ p) p ≡ true
unfolding has_suffix
has_suffix_append [] p = has_suffix_self p
has_suffix_append (x ∷ q) p = ground (arith, has_suffix_append q p)

-- A text that ends with `p` is a front and `p`.
pub suffix_front : (s p : Text) → has_suffix s p ≡ true → (q : Text) × (s ≡ q ++ p)
unfolding has_suffix
suffix_front [] p h = ([], (text_eq_iff [] p).0 h)
suffix_front (x ∷ s) p h = elim (Bool-cases (text_eq (x ∷ s) p)) [
  | inl e ↦ ([], (text_eq_iff (x ∷ s) p).0 e)
  | inr e ↦ let (q, f) = suffix_front s p (ground arith) in (x ∷ q, ap (◌∷◌ x) f)
]

pub take-length : (q p : Text) → take (length q) (q ++ p) ≡ q
take-length [] p = refl
take-length (x ∷ q) p = ap (◌∷◌ x) (take-length q p)

pub drop-length : (q p : Text) → drop (length q) (q ++ p) ≡ p
drop-length [] p = refl
drop-length (x ∷ q) p = drop-length q p
