-- ===== src/Text/Basic.antt =====
-- Texts and the functions of package strings, by recursion on the characters.
use Prim.Native.Char.{code}
use Prim.Native.String.{String}
use netclient.Prelude.{
  ℕ, ◌+◌, ◌-◌, Bool, true, false, ◌&&◌, ◌||◌, Option, none, some, List, [], ◌∷◌, map, leb, ◌==◌,
  if◌then◌else◌, length, take, drop,
}

abbrev pub Text : Type 0
Text = List ℕ

abbrev pub codes : String → Text
codes String.[] = []
codes (String.◌∷◌ c s) = code c ∷ codes s

unfoldable pub text_eq : Text → Text → Bool
text_eq [] [] = true
text_eq (x ∷ s) (y ∷ t) = x == y && text_eq s t
text_eq _ _ = false

-- strings.HasPrefix(s, p)
unfoldable pub has_prefix : Text → Text → Bool
has_prefix s [] = true
has_prefix [] (c ∷ p) = false
has_prefix (x ∷ s) (c ∷ p) = x == c && has_prefix s p

-- strings.HasSuffix(s, p)
unfoldable pub has_suffix : Text → Text → Bool
unfolding text_eq
has_suffix [] p = text_eq [] p
has_suffix (x ∷ s) p = text_eq (x ∷ s) p || has_suffix s p

-- strings.Contains(s, p)
unfoldable pub contains : Text → Text → Bool
unfolding has_prefix
contains [] p = has_prefix [] p
contains (x ∷ s) p = has_prefix (x ∷ s) p || contains s p

-- strings.Count(s, p) for a text p of one character
unfoldable pub count_char : ℕ → Text → ℕ
count_char c [] = 0
count_char c (x ∷ s) = (if x == c then 1 else 0) + count_char c s

-- strings.TrimPrefix(s, p)
unfoldable pub trim_prefix : Text → Text → Text
unfolding has_prefix
trim_prefix s p = if has_prefix s p then drop (length p) s else s

-- strings.TrimSuffix(s, p)
unfoldable pub trim_suffix : Text → Text → Text
unfolding has_suffix
trim_suffix s p = if has_suffix s p then take (length s - length p) s else s

-- The characters without those in front that pass the test.
unfoldable pub drop_while : (ℕ → Bool) → Text → Text
drop_while p [] = []
drop_while p (x ∷ s) = if p x then drop_while p s else x ∷ s

-- The characters without those at the end that pass the test.
unfoldable pub drop_end_while : (ℕ → Bool) → Text → Text
drop_end_while p [] = []
drop_end_while p (x ∷ s) = elim (drop_end_while p s) [
  | [] ↦ if p x then [] else x ∷ []
  | y ∷ t ↦ x ∷ y ∷ t
]

-- space, \t, \n, \v, \f and \r
abbrev pub is_space : ℕ → Bool
is_space c = c == 32 || leb 9 c && leb c 13

-- strings.TrimSpace(s)
unfoldable pub trim_space : Text → Text
unfolding drop_while drop_end_while
trim_space s = drop_end_while is_space (drop_while is_space s)

-- strings.Trim(s, c) for a cut set of one character
unfoldable pub trim_char : ℕ → Text → Text
unfolding drop_while drop_end_while
trim_char c s = drop_end_while (λ x. x == c) (drop_while (λ x. x == c) s)

unfoldable pub lower : ℕ → ℕ
lower c = if leb b'A' c && leb c b'Z' then c + 32 else c

unfoldable pub upper : ℕ → ℕ
upper c = if leb b'a' c && leb c b'z' then c - 32 else c

-- strings.ToLower(s) for a text of ASCII letters, as names in DNS are
unfoldable pub to_lower : Text → Text
unfolding lower
to_lower = map lower

-- strings.ToUpper(s)
unfoldable pub to_upper : Text → Text
unfolding upper
to_upper = map upper

-- strings.LastIndex(s, c) for a text c of one character: the text before the last `c`, and the
-- text behind it.
unfoldable pub cut_last : ℕ → Text → Option (Text × Text)
cut_last c [] = none
cut_last c (x ∷ s) = elim (cut_last c s) [
  | some (a, b) ↦ some (x ∷ a, b)
  | none ↦ if x == c then some ([], s) else none
]

-- strings.Split(s, c) for a separator of one character
unfoldable pub split : ℕ → Text → List Text
split c [] = [] ∷ []
split c (x ∷ s) = elim (split c s) [
  | [] ↦ [] ∷ []
  | p ∷ ps ↦ if x == c then [] ∷ p ∷ ps else (x ∷ p) ∷ ps
]
