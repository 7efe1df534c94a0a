-- ===== src/Sets.antt =====
-- Membership in a list of texts, as the `seen` sets of the program test it.
use netclient.Prelude.{
  ℕ, zero, suc, take, Bool-cases, inl, inr, ◌≡◌, refl, Bool, true, false, ◌||◌, List, [], ◌∷◌, ◌++◌,
  arith, if◌then◌else◌,
}
use netclient.Text.{Text, text_eq, text_eq_iff, text_eq_refl}

unfoldable pub mem : Text → List Text → Bool
mem k [] = false
mem k (j ∷ l) = if text_eq j k then true else mem k l

-- No text stands in the list twice.
abbrev pub IsDistinct : List Text → Type 0
IsDistinct [] = Unit
IsDistinct (k ∷ l) = (mem k l ≡ false) × IsDistinct l

pub mem_self : (k : Text) (l : List Text) → mem k (k ∷ l) ≡ true
unfolding mem
mem_self k l = ground (arith, text_eq_refl k)

pub mem-append : (k : Text) (l r : List Text) → mem k (l ++ r) ≡ (mem k l || mem k r)
unfolding mem
mem-append k [] r = refl
mem-append k (j ∷ l) r = ground (arith, mem-append k l r)

pub mem_snoc : (k j : Text) (l : List Text) → mem k (l ++ j ∷ []) ≡ mem k (j ∷ l)
unfolding mem
mem_snoc k j [] = refl
mem_snoc k j (i ∷ l) = ground (arith, mem_snoc k j l)

pub IsDistinct-snoc :
    (k : Text) (l : List Text) → IsDistinct l → mem k l ≡ false → IsDistinct (l ++ k ∷ [])
unfolding mem
IsDistinct-snoc k [] d h = (refl, tt)
IsDistinct-snoc k (j ∷ l) d h = (
  ground (arith, mem_snoc j k l, text_eq_iff k j, text_eq_iff j k),
  IsDistinct-snoc k l d.1 (ground arith),
)

-- Two lists with the same members.
abbrev pub SameMembers : List Text → List Text → Type 0
SameMembers l r = (k : Text) → mem k l ≡ mem k r

pub SameMembers-add :
    (j : Text) (l r : List Text) → SameMembers l r → SameMembers (j ∷ l) (r ++ j ∷ [])
unfolding mem
SameMembers-add j l r h k = ground (arith, mem_snoc k j r, h k)

-- The first occurrence of each text that is not in `seen`, in order.
unfoldable pub nub_from : List Text → List Text → List Text
unfolding mem
nub_from seen [] = []
nub_from seen (k ∷ l) =
    let skipped = nub_from seen l in
    let taken = k ∷ nub_from (k ∷ seen) l in if mem k seen then skipped else taken

pub mem-nub_from :
    (j : Text) (l seen : List Text)
    → (mem j (nub_from seen l) || mem j seen) ≡ (mem j l || mem j seen)
unfolding nub_from mem
mem-nub_from j [] seen = refl
mem-nub_from j (k ∷ l) seen =
    ground (arith, mem-nub_from j l seen, mem-nub_from j l (k ∷ seen), text_eq_iff k j)

pub nub_from_new :
    (j : Text) (l seen : List Text) → mem j seen ≡ true → mem j (nub_from seen l) ≡ false
unfolding nub_from mem
nub_from_new j [] seen h = refl
nub_from_new j (k ∷ l) seen h =
    ground (arith, nub_from_new j l seen, nub_from_new j l (k ∷ seen), text_eq_iff k j)

pub nub_from-IsDistinct : (l seen : List Text) → IsDistinct (nub_from seen l)
unfolding nub_from
nub_from-IsDistinct [] seen = tt
nub_from-IsDistinct (k ∷ l) seen = elim (Bool-cases (mem k seen)) [
  | inl old ↦ rw old (nub_from-IsDistinct l seen)
  | inr new ↦
      rw new (nub_from_new k l (k ∷ seen) (mem_self k seen), nub_from-IsDistinct l (k ∷ seen))
]

mem-take : (k : Text) (n : ℕ) (l : List Text) → mem k l ≡ false → mem k (take n l) ≡ false
unfolding mem
mem-take k zero l h = refl
mem-take k (suc n) [] h = refl
mem-take k (suc n) (j ∷ l) h = ground (arith, mem-take k n l)

pub IsDistinct-take : (n : ℕ) (l : List Text) → IsDistinct l → IsDistinct (take n l)
unfolding mem
IsDistinct-take zero l d = tt
IsDistinct-take (suc n) [] d = tt
IsDistinct-take (suc n) (k ∷ l) d = (mem-take k n l d.0, IsDistinct-take n l d.1)
