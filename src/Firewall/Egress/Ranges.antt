-- ===== src/Firewall/Egress/Ranges.antt =====
-- firewall/egress.go: isEgressRangeEqual. A range is the text that the function `key` makes of it.
use netclient.Prelude.{
  ℕ, suc, ◌+◌, ◌-◌, ◌≡◌, ◌<◌, ◌≤◌, refl, List, [], ◌∷◌, ◌++◌, ◌==◌, Bool, true, false, not,
  if◌then◌else◌, is_empty, length, arith, ap, inl, inr, Bool-cases, ◌↔◌,
}
use netclient.Firewall.Types.{EgressRange}
use netclient.Text.{Text, codes, text_eq, text_eq_iff, text_eq_refl}

-- key
unfoldable pub range_key : EgressRange → Text
range_key e =
    let virtual = if is_empty e.virtual_network then codes "direct" else e.virtual_network in
    e.network ++ b'|' ∷ codes (if e.nat then "true" else "false") ++ b'|' ∷ e.mode ++ b'|' ∷ virtual

-- The counts of the keys, as the loops change them.
abbrev pub Counts : Type 0
Counts = Text → ℕ

unfoldable pub add_one : Text → Counts → Counts
add_one k counts j = (if text_eq k j then 1 else 0) + counts j

unfoldable pub count_all : List EgressRange → Counts → Counts
count_all [] counts = counts
count_all (e ∷ l) counts = count_all l (add_one (range_key e) counts)

unfoldable pub take_one : Text → Counts → Counts
take_one k counts j = counts j - (if text_eq k j then 1 else 0)

unfoldable pub take_all : List EgressRange → Counts → Bool
take_all [] counts = true
take_all (e ∷ l) counts =
    let rest = take_all l (take_one (range_key e) counts) in
    if counts (range_key e) == 0 then false else rest

-- isEgressRangeEqual
unfoldable pub is_egress_range_equal : List EgressRange → List EgressRange → Bool
is_egress_range_equal a b =
    if not (length a == length b) then false else take_all b (count_all a (λ k. 0))

-- How many ranges have the key.
abbrev pub occurrences : Text → List EgressRange → ℕ
occurrences k [] = 0
occurrences k (e ∷ l) = (if text_eq (range_key e) k then 1 else 0) + occurrences k l

count_all_lem :
    (l : List EgressRange) (counts : Counts) (k : Text)
    → count_all l counts k ≡ occurrences k l + counts k
unfolding count_all add_one
count_all_lem [] counts k = omega arith
count_all_lem (e ∷ l) counts k = omega (arith, count_all_lem l (add_one (range_key e) counts) k)

-- Every key that the loop takes was counted often enough.
take_all→le :
    (l : List EgressRange) (counts : Counts) (k : Text)
    → take_all l counts ≡ true
    → occurrences k l ≤ counts k
unfolding take_all take_one
take_all→le [] counts k h = omega arith
take_all→le (e ∷ l) counts k h = elim (Bool-cases (text_eq (range_key e) k)) [
  | inl q ↦ ground (
    arith,
    h,
    q,
    take_all→le l (take_one (range_key e) counts) k,
    ap counts ((text_eq_iff (range_key e) k).0 q),
  )
  | inr q ↦ ground (arith, h, q, take_all→le l (take_one (range_key e) counts) k)
]

le→take_all :
    (l : List EgressRange) (counts : Counts)
    → ((k : Text) → occurrences k l ≤ counts k)
    → take_all l counts ≡ true
unfolding take_all take_one
le→take_all [] counts h = refl
le→take_all (e ∷ l) counts h =
    let rest : take_all l (take_one (range_key e) counts) ≡ true =
      le→take_all l (take_one (range_key e) counts) (λ k. ground (arith, h k)) in
    ground (arith, rest, h (range_key e), text_eq_refl (range_key e))

-- The ranges without the first one of the key.
unfoldable without : Text → List EgressRange → List EgressRange
without k [] = []
without k (e ∷ l) = if text_eq (range_key e) k then l else e ∷ without k l

occurrences-without :
    (k j : Text) (l : List EgressRange)
    → 0 < occurrences k l
    → occurrences j l ≡ occurrences j (without k l) + (if text_eq k j then 1 else 0)
unfolding without
occurrences-without k j [] h = omega (arith, h)
occurrences-without k j (e ∷ l) h = elim (Bool-cases (text_eq (range_key e) k)) [
  | inl q ↦ rw q (ground (arith, ap (λ x. text_eq x j) ((text_eq_iff (range_key e) k).0 q)))
  | inr q ↦ rw q (ground (arith, h, q, occurrences-without k j l))
]

length-without :
    (k : Text) (l : List EgressRange) → 0 < occurrences k l → length l ≡ suc (length (without k l))
unfolding without
length-without k [] h = omega (arith, h)
length-without k (e ∷ l) h = ground (arith, h, length-without k l)

-- Lists of one length, of which one has no key more often than the other, have each as often.
eq_of_le :
    (b a : List EgressRange)
    → length a ≡ length b
    → ((k : Text) → occurrences k b ≤ occurrences k a)
    → (k : Text) → occurrences k a ≡ occurrences k b
eq_of_le [] [] h f k = refl
eq_of_le [] (e ∷ a) h f k = ground (arith, h)
eq_of_le (e ∷ b) a h f k =
    let i = range_key e in
    let some_ : 0 < occurrences i a = ground (arith, f i, text_eq_refl i) in
    let rest =
      eq_of_le b (without i a) (omega (arith, h, length-without i a some_))
        (λ j. omega (arith, f j, occurrences-without i j a some_)) k in
    omega (arith, rest, occurrences-without i k a some_)

length_of_eq :
    (b a : List EgressRange)
    → ((k : Text) → occurrences k a ≡ occurrences k b)
    → length a ≡ length b
length_of_eq [] [] f = refl
length_of_eq [] (e ∷ a) f = ground (arith, f (range_key e), text_eq_refl (range_key e))
length_of_eq (e ∷ b) a f =
    let i = range_key e in
    let some_ : 0 < occurrences i a = ground (arith, f i, text_eq_refl i) in
    let rest =
      length_of_eq b (without i a) (λ j. omega (arith, f j, occurrences-without i j a some_)) in
    omega (arith, rest, length-without i a some_)

-- isEgressRangeEqual tells whether every key stands as often in the one list of ranges as in the
-- other, in whatever order.
pub is_egress_range_equal_iff :
    (a b : List EgressRange)
    → (is_egress_range_equal a b ≡ true) ↔ ((k : Text) → occurrences k a ≡ occurrences k b)
unfolding is_egress_range_equal
is_egress_range_equal_iff a b = (to, from)
  where
    to : is_egress_range_equal a b ≡ true → (k : Text) → occurrences k a ≡ occurrences k b
    to h =
        eq_of_le b a (ground (arith, h)) (λ k.
          ground (arith, h, take_all→le b (count_all a (λ x. 0)) k, count_all_lem a (λ x. 0) k))

    from : ((k : Text) → occurrences k a ≡ occurrences k b) → is_egress_range_equal a b ≡ true
    from f =
        let taken =
          le→take_all b (count_all a (λ x. 0))
            (λ k. omega (arith, f k, count_all_lem a (λ x. 0) k)) in
        ground (arith, taken, length_of_eq b a f)
