-- ===== src/Firewall/Chains/Created.antt =====
-- firewall/iptables_linux.go: the chains behind CreateChains.
use mathlib.Core.Path.{subst}
use netclient.Prelude.{
  ℕ, ◌≡◌, refl, sym, List, [], ◌∷◌, Bool, true, false, Option, none, some, arith, inl, inr,
  Bool-cases, Option-cases, All, All-map,
}
use netclient.Text.{Text, text_eq}
use netclient.Sets.{mem}
use netclient.Firewall.Types.{RuleInfo}
use netclient.Firewall.Kernel.{ChainClient, or_same, for_family}
use netclient.Firewall.Chains.{
  iptable_fwd_chain, netmaker_chains, filter_nm_jump_rules, nat_nm_jump_rules, metrics_rules,
  drop_rules, create_chain, create_each, append_for_both, add_jump_rule, add_jump_each, append_each,
  insert_each, add_drop_rule, add_drop_rules, add_jump_rules, create_chains,
}

-- What go-iptables and the kernel promise of chains: ListChains gives the chains of a table,
-- NewChain adds one, and no call on rules removes one.
pub record ChainLaws {K : Type 0} (client : ChainClient K) (stands : Bool → Text → Text → K → Bool)
    : Type 0 where
  pub list_law :
      (v4 : Bool) (table chain : Text) (chains : List Text) (k : K)
      → client.list_chains v4 table k ≡ some chains
      → mem chain chains ≡ stands v4 table chain k
  pub new_law :
      (v4 : Bool) (table chain : Text) (k l : K)
      → client.new_chain v4 table chain k ≡ some l
      → stands v4 table chain l ≡ true
  pub new_keeps :
      (v4 : Bool) (table chain : Text) (k l : K) (v : Bool) (t c : Text)
      → client.new_chain v4 table chain k ≡ some l
      → stands v t c k ≡ true
      → stands v t c l ≡ true
  pub append_keeps :
      (r : RuleInfo) (k l : K) (v : Bool) (t c : Text)
      → client.append r k ≡ some l
      → stands v t c k ≡ true
      → stands v t c l ≡ true
  pub insert_keeps :
      (r : RuleInfo) (k l : K) (v : Bool) (t c : Text)
      → client.rules.insert_rule r k ≡ some l
      → stands v t c k ≡ true
      → stands v t c l ≡ true
  pub insert_unique_keeps :
      (n : ℕ) (r : RuleInfo) (k l : K) (v : Bool) (t c : Text)
      → client.insert_unique n r k ≡ some l
      → stands v t c k ≡ true
      → stands v t c l ≡ true

module _ {K : Type 0} (client : ChainClient K) (stands : Bool → Text → Text → K → Bool)
    (laws : ChainLaws client stands) where
  -- Every chain that stands at first stands at last.
  abbrev Keeps : K → K → Type 0
  Keeps k l = (v : Bool) (t c : Text) → stands v t c k ≡ true → stands v t c l ≡ true

  or_same-Keeps :
      (m : Option K) (k : K) → ((l : K) → m ≡ some l → Keeps k l) → Keeps k (or_same m k)
  or_same-Keeps none k h v t c q = q
  or_same-Keeps (some l) k h v t c q = h l refl v t c q

  append-Keeps : (r : RuleInfo) (k : K) → Keeps k (or_same (client.append r k) k)
  append-Keeps r k =
      or_same-Keeps (client.append r k) k (λ l e v t c q. laws.append_keeps r k l v t c e q)

  insert-Keeps : (r : RuleInfo) (k : K) → Keeps k (or_same (client.rules.insert_rule r k) k)
  insert-Keeps r k =
      or_same-Keeps (client.rules.insert_rule r k) k
        (λ l e v t c q. laws.insert_keeps r k l v t c e q)

  insert_unique-Keeps :
      (n : ℕ) (r : RuleInfo) (k : K) → Keeps k (or_same (client.insert_unique n r k) k)
  insert_unique-Keeps n r k =
      or_same-Keeps (client.insert_unique n r k) k
        (λ l e v t c q. laws.insert_unique_keeps n r k l v t c e q)

  append_for_both-Keeps : (r : RuleInfo) (k : K) → Keeps k (append_for_both client r k)
  unfolding append_for_both
  append_for_both-Keeps r k v t c q =
      append-Keeps (for_family false r) _ v t c (append-Keeps (for_family true r) k v t c q)

  add_jump_rule-Keeps : (r : RuleInfo) (k : K) → Keeps k (add_jump_rule client r k)
  unfolding add_jump_rule
  add_jump_rule-Keeps r k v t c q = elim (Bool-cases (text_eq r.chain iptable_fwd_chain)) [
    | inl e ↦
        rw (e, add_jump_rule)
          (insert_unique-Keeps 1 (for_family false r) _ v t c
            (insert_unique-Keeps 1 (for_family true r) k v t c q))
    | inr e ↦ rw (e, add_jump_rule) (append_for_both-Keeps r k v t c q)
  ]

  add_jump_each-Keeps : (rules : List RuleInfo) (k : K) → Keeps k (add_jump_each client rules k)
  unfolding add_jump_each
  add_jump_each-Keeps [] k v t c q = q
  add_jump_each-Keeps (r ∷ rules) k v t c q =
      add_jump_each-Keeps rules _ v t c (add_jump_rule-Keeps r k v t c q)

  append_each-Keeps : (rules : List RuleInfo) (k : K) → Keeps k (append_each client rules k)
  unfolding append_each
  append_each-Keeps [] k v t c q = q
  append_each-Keeps (r ∷ rules) k v t c q =
      append_each-Keeps rules _ v t c (append_for_both-Keeps r k v t c q)

  insert_each-Keeps : (rules : List RuleInfo) (k : K) → Keeps k (insert_each client rules k)
  unfolding insert_each
  insert_each-Keeps [] k v t c q = q
  insert_each-Keeps (r ∷ rules) k v t c q =
      insert_each-Keeps rules _ v t c
        (insert-Keeps (for_family false r) _ v t c (insert-Keeps (for_family true r) k v t c q))

  add_drop_rule-Keeps : (v4 : Bool) (r : RuleInfo) (k : K) → Keeps k (add_drop_rule client v4 r k)
  unfolding add_drop_rule
  add_drop_rule-Keeps v4 r k v t c q = elim (Option-cases (client.exists (for_family v4 r) k)) [
    | inl e ↦ rw (e, add_drop_rule) q
    | inr (found, e) ↦
        rw (e, add_drop_rule)
          (elim (Bool-cases found) [
            | inl e' ↦ rw e' q
            | inr e' ↦ rw e' (append-Keeps (for_family v4 r) k v t c q)
          ])
  ]

  add_drop_rules-Keeps : (rules : List RuleInfo) (k : K) → Keeps k (add_drop_rules client rules k)
  unfolding add_drop_rules
  add_drop_rules-Keeps [] k v t c q = q
  add_drop_rules-Keeps (r ∷ rules) k v t c q =
      add_drop_rules-Keeps rules _ v t c
        (add_drop_rule-Keeps false r _ v t c (add_drop_rule-Keeps true r k v t c q))

  add_jump_rules-Keeps :
      (interface_ : Text) (port : Option Text) (k : K)
      → Keeps k (add_jump_rules client interface_ port k)
  unfolding add_jump_rules
  add_jump_rules-Keeps interface_ none k v t c q =
      add_drop_rules-Keeps (drop_rules interface_) _ v t c (
        append_each-Keeps (nat_nm_jump_rules interface_) _ v t c
          (add_jump_each-Keeps (filter_nm_jump_rules interface_) k v t c q))
  add_jump_rules-Keeps interface_ (some port) k v t c q =
      add_drop_rules-Keeps (drop_rules interface_) _ v t c (
        insert_each-Keeps (metrics_rules interface_ port) _ v t c (
          append_each-Keeps (nat_nm_jump_rules interface_) _ v t c
            (add_jump_each-Keeps (filter_nm_jump_rules interface_) k v t c q)))

  -- Behind createChain the other chains stand as before, and the chain itself unless it failed.
  create_chain-Keeps :
      (v4 : Bool) (table chain : Text) (k : K)
      → Keeps k (create_chain client v4 table chain k).0
        × ((create_chain client v4 table chain k).1 ≡ false
            → stands v4 table chain (create_chain client v4 table chain k).0 ≡ true)
  unfolding create_chain
  create_chain-Keeps v4 table chain k = elim (Option-cases (client.list_chains v4 table k)) [
    | inl e ↦ rw (e, create_chain) (λ v t c q. q, λ h. cc)
    | inr (chains, e) ↦
        rw (e, create_chain)
          (elim (Bool-cases (mem chain chains)) [
            | inl e' ↦
                rw e'
                  (λ v t c q. q, λ h. ground (arith, laws.list_law v4 table chain chains k e, e'))
            | inr e' ↦ rw e' (elim (Option-cases (client.new_chain v4 table chain k)) [
              | inl n ↦ rw n (λ v t c q. q, λ h. cc)
              | inr (l, n) ↦ rw n (
                λ v t c q. laws.new_keeps v4 table chain k l v t c n q,
                λ h. laws.new_law v4 table chain k l n,
              )
            ])
          ])
  ]

  failed_at :
      (v4 : Bool) (table chain : Text) (chains : List (Text × Text)) (k : K)
      → (create_chain client v4 table chain k).1 ≡ true
      → create_each client v4 ((table, chain) ∷ chains) k
        ≡ ((create_chain client v4 table chain k).0, true)
  unfolding create_each
  failed_at v4 table chain chains k e = rw (e, create_each) refl

  made_at :
      (v4 : Bool) (table chain : Text) (chains : List (Text × Text)) (k : K)
      → (create_chain client v4 table chain k).1 ≡ false
      → create_each client v4 ((table, chain) ∷ chains) k
        ≡ create_each client v4 chains (create_chain client v4 table chain k).0
  unfolding create_each
  made_at v4 table chain chains k e = rw (e, create_each) refl

  -- What a run over chains has done, by its result.
  abbrev Made : Bool → List (Text × Text) → K → K × Bool → Type 0
  Made v4 chains k s = Keeps k s.0 × (s.1 ≡ false → All (λ p. stands v4 p.0 p.1 s.0 ≡ true) chains)

  create_each-Made :
      (v4 : Bool) (chains : List (Text × Text)) (k : K)
      → Made v4 chains k (create_each client v4 chains k)
  unfolding create_each
  create_each-Made v4 [] k = (λ v t c q. q, λ h. tt)
  create_each-Made v4 ((table, chain) ∷ chains) k =
      let s = create_chain client v4 table chain k in
      let (kept, here) = create_chain-Keeps v4 table chain k in
      let (keeps, rest) = create_each-Made v4 chains s.0 in
      elim (Bool-cases s.1) [
        | inl e ↦
            subst (Made v4 ((table, chain) ∷ chains) k) (sym (failed_at v4 table chain chains k e))
              (kept, λ h. cc)
        | inr e ↦
            subst (Made v4 ((table, chain) ∷ chains) k) (sym (made_at v4 table chain chains k e))
              (λ v t c q. keeps v t c (kept v t c q), λ h. (keeps v4 table chain (here e), rest h))
      ]

  -- If CreateChains succeeds, every chain of netmaker stands for both families; whether it succeeds
  -- or not, no chain that stood is gone. The client keeps the laws of chains.
  pub create_chains-AllStand :
      (interface_ : Text) (port : Option Text) (k : K)
      → let (l, failed) = create_chains client interface_ port k in
        ((v : Bool) (t c : Text) → stands v t c k ≡ true → stands v t c l ≡ true)
        × (failed ≡ false
            → All (λ p. stands true p.0 p.1 l ≡ true) netmaker_chains
              × All (λ p. stands false p.0 p.1 l ≡ true) netmaker_chains)
  unfolding create_chains
  create_chains-AllStand interface_ port k =
      let s4 = create_each client true netmaker_chains k in
      let s6 = create_each client false netmaker_chains s4.0 in
      let (keeps4, all4) = create_each-Made true netmaker_chains k in
      let (keeps6, all6) = create_each-Made false netmaker_chains s4.0 in
      let jumps = add_jump_rules-Keeps interface_ port s6.0 in
      elim (Bool-cases s4.1) [
        | inl e ↦ rw e (keeps4, λ h. cc)
        | inr e ↦ rw e (elim (Bool-cases s6.1) [
          | inl e' ↦ rw e' (λ v t c q. keeps6 v t c (keeps4 v t c q), λ h. cc)
          | inr e' ↦ rw e' (
            λ v t c q. jumps v t c (keeps6 v t c (keeps4 v t c q)),
            λ h. (
              All-map _ _ netmaker_chains (λ p q. jumps true p.0 p.1 (keeps6 true p.0 p.1 q))
                  (all4 e),
              All-map _ _ netmaker_chains (λ p q. jumps false p.0 p.1 q) (all6 e'),
            ),
          )
        ])
      ]
