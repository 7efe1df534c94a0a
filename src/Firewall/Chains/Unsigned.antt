-- ===== src/Firewall/Chains/Unsigned.antt =====
-- firewall/iptables_linux.go: what removeJumpRules leaves in the chains.

use netclient.Prelude.{
  map, ◌≢◌, keep, keep-append, append_assoc, not, ◌≡◌, refl, sym, ap, ◌∙◌, List, [], ◌∷◌, ◌++◌,
  Bool, true, false, ◌&&◌, some, inl, inr, Bool-cases, All,
}
use netclient.Text.{Text, text_eq}
use netclient.Firewall.Types.{default_ip_table}
use netclient.Firewall.Kernel.{ChainClient, or_same}
use netclient.Firewall.Chains.{
  default_nat_table, iptable_fwd_chain, iptable_in_chain, nattable_prt_chain, contains_comment,
}
use netclient.Firewall.Chains.Flush.{listed_rule, delete_listed, remove_jumps_of}

-- A chain of a table, for one family.
abbrev pub Place : Type 0
Place = Bool × Text × Text

abbrev pub same_family : Bool → Bool → Bool
same_family true v = v
same_family false v = not v

unfoldable pub same_place : Place → Place → Bool
same_place (v, t, c) (v', t', c') = same_family v v' && text_eq t t' && text_eq c c'

-- The chains that removeJumpRules goes over.
abbrev pub jump_places : List Place
jump_places =
    (true, default_ip_table, iptable_fwd_chain)
    ∷ (false, default_ip_table, iptable_fwd_chain)
    ∷ (true, default_ip_table, iptable_in_chain)
    ∷ (false, default_ip_table, iptable_in_chain)
    ∷ (true, default_nat_table, nattable_prt_chain)
    ∷ (false, default_nat_table, nattable_prt_chain)
    ∷ []

abbrev AreApart : List Place → Type 0
AreApart [] = Unit
AreApart (p ∷ ps) = All (λ q. (same_place q p ≡ false) × (same_place p q ≡ false)) ps × AreApart ps

-- What go-iptables promises of the rules `W` of a chain, where `print` gives the line of a rule: List
-- gives the lines, and Delete of what a line says takes the first such rule out and leaves the
-- other chains alone.
pub record ListLaws {K W : Type 0} (client : ChainClient K) (print : W → Text)
    (rules : Place → K → List W) : Type 0 where
  pub list_law : (p : Place) (k : K) → client.list p.0 p.1 p.2 k ≡ some (map print (rules p k))
  pub delete_law :
      (p : Place) (w : W) (before after : List W) (k : K)
      → rules p k ≡ before ++ w ∷ after
      → All (λ b. b ≢ w) before
      → rules p (or_same (client.delete (listed_rule p.0 p.1 p.2 (print w)) k) k) ≡ before ++ after
  pub delete_others :
      (p q : Place) (w : W) (k : K)
      → same_place p q ≡ false
      → rules q (or_same (client.delete (listed_rule p.0 p.1 p.2 (print w)) k) k) ≡ rules q k

module _ {W : Type 0} (print : W → Text) where
  -- The rules whose lines have no comment of netmaker.
  abbrev pub unsigned : List W → List W
  unsigned = keep (λ w. not (contains_comment (print w)))

  -- A signed rule is not among those without a signature.
  apart_unsigned :
      (w : W) (l : List W) → contains_comment (print w) ≡ true → All (λ b. b ≢ w) (unsigned l)
  apart_unsigned w [] h = tt
  apart_unsigned w (x ∷ l) h = elim (Bool-cases (contains_comment (print x))) [
    | inl e ↦ rw e (apart_unsigned w l h)
    | inr e ↦ rw e (λ q. cc (e, h, ap (λ v. contains_comment (print v)) q), apart_unsigned w l h)
  ]

  unsigned-kept :
      (w : W) (l : List W) → contains_comment (print w) ≡ false → unsigned (w ∷ l) ≡ w ∷ unsigned l
  unsigned-kept w l e = rw e refl

  moved :
      (before : List W) (w : W) (rest : List W)
      → contains_comment (print w) ≡ false
      → unsigned before ++ w ∷ rest ≡ unsigned (before ++ w ∷ []) ++ rest
  moved before w rest e = simp (keep-append, append_assoc, unsigned-kept w [] e)

module _ {K W : Type 0} (client : ChainClient K) (print : W → Text) (rules : Place → K → List W)
    (laws : ListLaws client print rules) where
  delete_listed-rules :
      (p : Place) (before rest : List W) (k : K)
      → rules p k ≡ unsigned print before ++ rest
      → rules p (delete_listed client (listed_rule p.0 p.1 p.2) (map print rest) k)
        ≡ unsigned print before ++ unsigned print rest
  unfolding delete_listed
  delete_listed-rules p before [] k h = h
  delete_listed-rules p before (w ∷ rest) k h = elim (Bool-cases (contains_comment (print w))) [
    | inl e ↦
        rw (e, delete_listed)
          (delete_listed-rules p before rest _ (
            laws.delete_law p w (unsigned print before) rest k h (apart_unsigned print w before e)))
    | inr e ↦
        rw (e, delete_listed)
          (delete_listed-rules p (before ++ w ∷ []) rest k (h ∙ moved print before w rest e)
            ∙ sym (moved print before w (unsigned print rest) e))
  ]

  delete_listed-others :
      (p q : Place) (rest : List W) (k : K)
      → same_place p q ≡ false
      → rules q (delete_listed client (listed_rule p.0 p.1 p.2) (map print rest) k) ≡ rules q k
  unfolding delete_listed
  delete_listed-others p q [] k h = refl
  delete_listed-others p q (w ∷ rest) k h = elim (Bool-cases (contains_comment (print w))) [
    | inl e ↦
        rw (e, delete_listed) (delete_listed-others p q rest _ h ∙ laws.delete_others p q w k h)
    | inr e ↦ rw (e, delete_listed) (delete_listed-others p q rest k h)
  ]

  -- One block of removeJumpRules: its chain loses the signed rules, the others are as before.
  remove_jumps_of-rules :
      (p q : Place) (k : K)
      → (rules p (remove_jumps_of client p.0 p.1 p.2 k) ≡ unsigned print (rules p k))
        × (same_place p q ≡ false → rules q (remove_jumps_of client p.0 p.1 p.2 k) ≡ rules q k)
  unfolding remove_jumps_of
  remove_jumps_of-rules p q k =
      rw (laws.list_law p k, remove_jumps_of)
        (delete_listed-rules p [] (rules p k) k refl, delete_listed-others p q (rules p k) k)

  run : List Place → K → K
  run [] k = k
  run (p ∷ ps) k = run ps (remove_jumps_of client p.0 p.1 p.2 k)

  after :
      (p : Place) (ps : List Place) (k l : K)
      → All (λ q. (same_place q p ≡ false) × (same_place p q ≡ false)) ps
      → All (λ q. rules q l ≡ unsigned print (rules q (remove_jumps_of client p.0 p.1 p.2 k))) ps
      → All (λ q. rules q l ≡ unsigned print (rules q k)) ps
  after p [] k l h g = tt
  after p (q ∷ ps) k l h g =
      (g.0 ∙ ap (unsigned print) ((remove_jumps_of-rules p q k).1 h.0.1), after p ps k l h.1 g.1)
