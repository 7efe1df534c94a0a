-- ===== src/Text/Decimal.antt =====
-- The verb %d of package fmt on a number, and reading it back.
use netclient.Prelude.{
  ℕ, zero, suc, ◌+◌, ◌-◌, ◌*◌, ◌/◌, ◌%◌, ◌<◌, ◌≡◌, ◌≢◌, refl, ap, sym, ◌∙◌, [], ◌∷◌, ◌++◌,
  if◌then◌else◌, ltb, arith, All, All-append, Bool-cases, inl, inr, none, some,
}
use netclient.Text.Basic.{Text, cut_last}

-- The digits of a number; the fuel exceeds the number, which every division by ten lowers.
unfoldable pub digits : ℕ → ℕ → Text
digits zero n = []
digits (suc fuel) n =
    let more = digits fuel (n / 10) in
    if ltb n 10 then (48 + n) ∷ [] else more ++ (48 + n % 10) ∷ []

unfoldable pub decimal : ℕ → Text
unfolding digits
decimal n = digits (suc n) n

read_from : ℕ → Text → ℕ
read_from acc [] = acc
read_from acc (c ∷ s) = read_from (acc * 10 + (c - 48)) s

read_from-append :
    (acc c : ℕ) (s : Text) → read_from acc (s ++ c ∷ []) ≡ read_from acc s * 10 + (c - 48)
unfolding read_from
read_from-append acc c [] = refl
read_from-append acc c (x ∷ s) = read_from-append (acc * 10 + (x - 48)) c s

read-digits : (fuel n : ℕ) → n < fuel → read_from 0 (digits fuel n) ≡ n
unfolding digits
read-digits zero n h = elim h [ ]
read-digits (suc fuel) n h = elim (Bool-cases (ltb n 10)) [
  | inl e ↦ rw e (unfold read_from in omega arith)
  | inr e ↦ rw e (
      rw (read_from-append 0 (48 + n % 10) (digits fuel (n / 10)))
        (rw (read-digits fuel (n / 10) (ground arith)) (omega arith)))
]

-- Different numbers are printed differently.
pub decimal_injective : (m n : ℕ) → decimal m ≡ decimal n → m ≡ n
unfolding decimal
decimal_injective m n e =
    sym (read-digits (suc m) m (omega arith))
    ∙ (ap (read_from 0) e ∙ read-digits (suc n) n (omega arith))

abbrev pub Lacks : ℕ → Text → Type 0
Lacks c = All (λ x. x ≢ c)

digits-Lacks : (fuel n : ℕ) → Lacks b'.' (digits fuel n)
unfolding digits
digits-Lacks zero n = tt
digits-Lacks (suc fuel) n = elim (Bool-cases (ltb n 10)) [
  | inl e ↦ rw e (omega arith, tt)
  | inr e ↦ rw e (
      All-append (λ x. x ≢ b'.') (digits fuel (n / 10)) ((48 + n % 10) ∷ [])
        (digits-Lacks fuel (n / 10)) (omega arith, tt))
]

pub decimal-Lacks : (n : ℕ) → Lacks b'.' (decimal n)
unfolding decimal
decimal-Lacks n = digits-Lacks (suc n) n

cut_last-none : (c : ℕ) (s : Text) → Lacks c s → cut_last c s ≡ none
unfolding cut_last
cut_last-none c [] h = refl
cut_last-none c (x ∷ s) h = rw (cut_last-none c s h.1, cut_last) (ground arith)

-- The text before the last `c`, and the text behind it.
pub cut_last_append : (c : ℕ) (s t : Text) → Lacks c t → cut_last c (s ++ c ∷ t) ≡ some (s, t)
unfolding cut_last
cut_last_append c [] t h = rw (cut_last-none c t h, cut_last) (ground arith)
cut_last_append c (x ∷ s) t h = rw (cut_last_append c s t h, cut_last) refl
