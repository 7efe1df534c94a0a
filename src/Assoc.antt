-- ===== src/Assoc.antt =====
-- Go's maps with text keys, as association lists. Reading takes the first entry of the key;
-- writing replaces it where it stands, or adds one at the end; `delete` drops every entry of the
-- key. The order of the list stands for the order in which `range` visits the map, which Go leaves
-- open: no theorem fixes it.
use netclient.Prelude.{
  All, refl, ap, ◌||◌, ◌≡◌, refl, Bool, true, false, Option, none, some, List, [], ◌∷◌, arith,
  if◌then◌else◌, Bool-cases, inl, inr,
}
use netclient.Text.{Text, text_eq, text_eq_iff, text_eq_refl}

module _ {ℓ} {V : Type ℓ} where
  unfoldable pub lookup : Text → List (Text × V) → Option V
  lookup k [] = none
  lookup k ((j, v) ∷ m) = if text_eq j k then some v else lookup k m

  unfoldable pub insert : Text → V → List (Text × V) → List (Text × V)
  insert k v [] = (k, v) ∷ []
  insert k v ((j, w) ∷ m) = if text_eq j k then (k, v) ∷ m else (j, w) ∷ insert k v m

  unfoldable pub remove : Text → List (Text × V) → List (Text × V)
  remove k [] = []
  remove k ((j, v) ∷ m) = if text_eq j k then remove k m else (j, v) ∷ remove k m

  unfoldable pub has_key : Text → List (Text × V) → Bool
  has_key k [] = false
  has_key k ((j, v) ∷ m) = if text_eq j k then true else has_key k m

  abbrev pub keys : List (Text × V) → List Text
  keys [] = []
  keys ((k, v) ∷ m) = k ∷ keys m

  -- No key stands in the list twice, as in a Go map.
  abbrev pub HasDistinctKeys : List (Text × V) → Type ℓ
  HasDistinctKeys [] = Unit
  HasDistinctKeys ((k, v) ∷ m) = (has_key k m ≡ false) × HasDistinctKeys m

  pub lookup-insert :
      (k j : Text) (v : V) (m : List (Text × V))
      → lookup j (insert k v m) ≡ (if text_eq k j then some v else lookup j m)
  unfolding lookup insert
  lookup-insert k j v [] = refl
  lookup-insert k j v ((i, w) ∷ m) =
      ground (arith, text_eq_iff k j, text_eq_iff i k, text_eq_iff i j, lookup-insert k j v m)

  pub lookup-remove :
      (k j : Text) (m : List (Text × V))
      → lookup j (remove k m) ≡ (if text_eq k j then none else lookup j m)
  unfolding lookup remove
  lookup-remove k j [] = ground arith
  lookup-remove k j ((i, w) ∷ m) =
      ground (arith, text_eq_iff k j, text_eq_iff i k, text_eq_iff i j, lookup-remove k j m)

  pub has_key-eq_lookup :
      (k : Text) (m : List (Text × V))
      → has_key k m ≡ elim (lookup k m) [ none ↦ false | some _ ↦ true ]
  unfolding lookup has_key
  has_key-eq_lookup k [] = refl
  has_key-eq_lookup k ((j, v) ∷ m) = ground (arith, has_key-eq_lookup k m)

  pub has_key-insert :
      (k j : Text) (v : V) (m : List (Text × V))
      → has_key j (insert k v m) ≡ (if text_eq k j then true else has_key j m)
  unfolding has_key insert
  has_key-insert k j v [] = refl
  has_key-insert k j v ((i, w) ∷ m) =
      ground (arith, text_eq_iff k j, text_eq_iff i k, text_eq_iff i j, has_key-insert k j v m)

  pub has_key-remove :
      (k j : Text) (m : List (Text × V))
      → has_key j (remove k m) ≡ (if text_eq k j then false else has_key j m)
  unfolding has_key remove
  has_key-remove k j [] = ground arith
  has_key-remove k j ((i, w) ∷ m) =
      ground (arith, text_eq_iff k j, text_eq_iff i k, text_eq_iff i j, has_key-remove k j m)

  pub HasDistinctKeys-insert :
      (k : Text) (v : V) (m : List (Text × V)) → HasDistinctKeys m → HasDistinctKeys (insert k v m)
  unfolding insert has_key
  HasDistinctKeys-insert k v [] h = (refl, tt)
  HasDistinctKeys-insert k v ((i, w) ∷ m) h = elim (Bool-cases (text_eq i k)) [
    | inl e ↦ let q : i ≡ k = (text_eq_iff i k).0 e in rw e (rw q at h.0, h.1)
    | inr e ↦ rw e (
      ground (arith, has_key-insert k i v m, text_eq_iff k i, text_eq_iff i k),
      HasDistinctKeys-insert k v m h.1,
    )
  ]

  pub HasDistinctKeys-remove :
      (k : Text) (m : List (Text × V)) → HasDistinctKeys m → HasDistinctKeys (remove k m)
  unfolding remove
  HasDistinctKeys-remove k [] h = tt
  HasDistinctKeys-remove k ((i, w) ∷ m) h = elim (Bool-cases (text_eq i k)) [
    | inl e ↦ rw e (HasDistinctKeys-remove k m h.1)
    | inr e ↦ rw e (ground (arith, has_key-remove k i m), HasDistinctKeys-remove k m h.1)
  ]

  -- Where a key stands, a test for it changes nothing.
  pub has_key_at :
      (i j : Text) (m : List (Text × V))
      → has_key i m ≡ true
      → has_key j m ≡ text_eq i j || has_key j m
  has_key_at i j m h = elim (Bool-cases (text_eq i j)) [
    | inl e ↦ ground (arith, e, h, ap (λ x. has_key x m) ((text_eq_iff i j).0 e))
    | inr e ↦ ground (arith, e)
  ]

  more_keys :
      (i : Text) (v : V) (all l : List (Text × V))
      → All (λ g. has_key g.0 all ≡ true) l
      → All (λ g. has_key g.0 ((i, v) ∷ all) ≡ true) l
  unfolding has_key
  more_keys i v all [] h = tt
  more_keys i v all ((j, w) ∷ l) h = (ground (arith, h.0), more_keys i v all l h.1)

  -- Every key of a list stands in it.
  pub own_keys : (l : List (Text × V)) → All (λ g. has_key g.0 l ≡ true) l
  unfolding has_key
  own_keys [] = tt
  own_keys ((i, v) ∷ l) = (rw (text_eq_refl i) refl, more_keys i v l l (own_keys l))
