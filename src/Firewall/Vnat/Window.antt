-- ===== src/Firewall/Vnat/Window.antt =====
-- firewall/utils.go: the window that getRealRangeWindow cuts out of a range.
use native.Mathlib.Nat.{
  pow-succ', one-le-pow, pow-le-pow_right, div-mul-le_self, lt-div-mul-add, mul-div_cancel,
  mul_assoc, one-mul, zero-add,
}
use netclient.Prelude.{
  ℕ, zero, suc, ◌+◌, ◌-◌, ◌*◌, ◌/◌, ◌^◌, ◌≤◌, ◌<◌, ◌≡◌, refl, sym, ap, ◌∙◌, Bool, true, false, some,
  ◌⊎◌, arith, inl, inr, Bool-cases,
}
use netclient.Firewall.Vnat.{IpNet, masked, get_real_range_window}

pow_add : (n m : ℕ) → 2 ^ (n + m) ≡ 2 ^ n * 2 ^ m
pow_add zero m = ground (arith, zero-add m, one-mul (2 ^ m))
pow_add (suc n) m =
    let e : suc n + m ≡ suc (n + m) = omega arith in rw e (simp (pow-succ', pow_add n m, mul_assoc))

abbrev pub bits : Bool → ℕ
bits true = 32
bits false = 128

-- How many addresses a network with the prefix has.
abbrev pub size : Bool → ℕ → ℕ
size v4 prefix = 2 ^ (bits v4 - prefix)

masked_bounds :
    (n prefix ip : ℕ) → (masked n prefix ip ≤ ip) × (ip < masked n prefix ip + 2 ^ (n - prefix))
unfolding masked
masked_bounds n prefix ip = (
  div-mul-le_self ip (2 ^ (n - prefix)),
  lt-div-mul-add (one-le-pow (n - prefix) 2 (omega arith)),
)

masked-block : (n prefix ip : ℕ) → (b : ℕ) × (masked n prefix ip ≡ b * 2 ^ (n - prefix))
unfolding masked
masked-block n prefix ip = (ip / 2 ^ (n - prefix), refl)

-- A block at least as short as the one that the address begins begins there too.
masked-aligned :
    (n prefix shorter a ip : ℕ)
    → shorter ≤ prefix
    → prefix ≤ n
    → ip ≡ a * 2 ^ (n - shorter)
    → masked n prefix ip ≡ ip
unfolding masked
masked-aligned n prefix shorter a ip h g e =
    let s = 2 ^ (n - prefix) in
    let sum : n - shorter ≡ (prefix - shorter) + (n - prefix) = omega arith in
    let whole : ip ≡ a * 2 ^ (prefix - shorter) * s =
      e
      ∙ ap (λ t. a * 2 ^ t) sum
      ∙ ap (λ t. a * t) (pow_add (prefix - shorter) (n - prefix))
      ∙ sym (mul_assoc a (2 ^ (prefix - shorter)) s) in
    rw whole (
      ap (λ t. t * s)
        (mul-div_cancel (a * 2 ^ (prefix - shorter)) (one-le-pow (n - prefix) 2 (omega arith))))

-- For a virtual range of the family of the real one, the window is a block of the length of the
-- virtual range, which begins at a multiple of its size and holds the address of the real range. If
-- the virtual range is no larger than the real one, the window begins where the real range does and has no more addresses: it lies in
-- the real range.
pub get_real_range_window_lem :
    (real virtual : IpNet) (a : ℕ)
    → virtual.is_v4 ≡ real.is_v4
    → virtual.prefix ≤ bits real.is_v4
    → real.ip ≡ a * size real.is_v4 real.prefix
    → (w : IpNet) × (get_real_range_window real virtual ≡ some w)
      × (w.prefix ≡ virtual.prefix)
      × ((b : ℕ) × (w.ip ≡ b * size real.is_v4 virtual.prefix))
      × (w.ip ≤ real.ip)
      × (real.ip < w.ip + size real.is_v4 virtual.prefix)
      × (real.prefix ≤ virtual.prefix
          → (w.ip ≡ real.ip) × (size real.is_v4 virtual.prefix ≤ size real.is_v4 real.prefix))
unfolding get_real_range_window
get_real_range_window_lem real virtual a family short aligned =
    let n = bits real.is_v4 in
    let (low, high) = masked_bounds n virtual.prefix real.ip in
    (
      record real { ip = masked n virtual.prefix real.ip; prefix = virtual.prefix },
      by_family (Bool-cases real.is_v4),
      refl,
      masked-block n virtual.prefix real.ip,
      low,
      high,
      λ h. (
        masked-aligned n virtual.prefix real.prefix a real.ip h short aligned,
        pow-le-pow_right (omega arith) (omega arith),
      ),
    )
  where
    by_family :
        (real.is_v4 ≡ true) ⊎ (real.is_v4 ≡ false)
        → get_real_range_window real virtual
          ≡ some (record real {
            ip = masked (bits real.is_v4) virtual.prefix real.ip;
            prefix = virtual.prefix;
          })
    by_family (inl e) = ground arith
    by_family (inr e) = ground arith
