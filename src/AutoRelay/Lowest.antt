-- ===== src/AutoRelay/Lowest.antt =====
-- functions/auto_relay.go: the node that the loops keep.
use netclient.Prelude.{
  ℕ, ◌≡◌, ◌≤◌, ◌<◌, ◌⊎◌, ltb, refl, List, [], ◌∷◌, Option, none, some, arith, inl, inr,
  Option-cases, In, All, Bool-cases,
}
use netclient.AutoRelay.{Node, keep_lowest, find_nearest_node, reached, Probe}

-- A node without a score, or whose score is not below the bound.
abbrev pub NotBelow : (Node → Option ℕ) → ℕ → Node → Type 0
NotBelow score b n = elim (score n) [ none ↦ Unit | some l ↦ b ≤ l ]

-- The choice among nodes below a bound: one of them with the lowest score, or none if there is no
-- node with a score below the bound.
abbrev pub IsLowest : (Node → Option ℕ) → ℕ → List Node → Option Node → Type 0
IsLowest score b nodes none = All (NotBelow score b) nodes
IsLowest score b nodes (some n) =
    In n nodes × (l : ℕ) × (score n ≡ some l) × (l < b) × All (NotBelow score l) nodes

NotBelow-of_le :
    (score : Node → Option ℕ) (a b : ℕ) (n : Node) → a ≤ b → NotBelow score b n → NotBelow score a n
NotBelow-of_le score a b n h q = elim (Option-cases (score n)) [
  | inl e ↦ rw (e, NotBelow) tt
  | inr (l, e) ↦ rw (e, NotBelow) (let k : b ≤ l = rw (e, NotBelow) at q in omega (arith, h, k))
]

-- The choice when a node with the score `l` is kept already.
abbrev IsLowestFrom : (Node → Option ℕ) → Node → ℕ → List Node → Option Node → Type 0
IsLowestFrom score c l nodes none = ⊥
IsLowestFrom score c l nodes (some n) =
    ((n ≡ c) ⊎ In n nodes) × (m : ℕ) × (score n ≡ some m) × (m ≤ l) × All (NotBelow score m) nodes

NotBelow-at :
    (score : Node → Option ℕ) (m l : ℕ) (n : Node) → score n ≡ some l → m ≤ l → NotBelow score m n
NotBelow-at score m l n e h = rw (e, NotBelow) h

NotBelow-none : (score : Node → Option ℕ) (m : ℕ) (n : Node) → score n ≡ none → NotBelow score m n
NotBelow-none score m n e = rw (e, NotBelow) tt

module _ (score : Node → Option ℕ) where
  weaker :
      (c d : Node) (k l : ℕ) (nodes : List Node) (r : Option Node)
      → IsLowestFrom score c k nodes r
      → k ≤ l
      → ((m : ℕ) → m ≤ k → NotBelow score m d)
      → IsLowestFrom score c l (d ∷ nodes) r
  weaker c d k l nodes none h q f = h
  weaker c d k l nodes (some n) (w, m, v, b, a) q f =
      let w' : (n ≡ c) ⊎ In n (d ∷ nodes) = elim w [ inl x ↦ inl x | inr x ↦ inr (inr x) ] in
      (w', m, v, omega (arith, b, q), (f m b, a))

  moved :
      (c d : Node) (k l : ℕ) (nodes : List Node) (r : Option Node)
      → IsLowestFrom score d k nodes r
      → k ≤ l
      → score d ≡ some k
      → IsLowestFrom score c l (d ∷ nodes) r
  moved c d k l nodes none h q e = h
  moved c d k l nodes (some n) (w, m, v, b, a) q e =
      let w' : (n ≡ c) ⊎ In n (d ∷ nodes) = inr (elim w [ inl x ↦ inl x | inr x ↦ inr x ]) in
      (w', m, v, omega (arith, b, q), (NotBelow-at score m k d e b, a))

  keep_lowest-from :
      (nodes : List Node) (c : Node) (l : ℕ)
      → score c ≡ some l
      → IsLowestFrom score c l nodes (keep_lowest score nodes (some c) l)
  unfolding keep_lowest
  keep_lowest-from [] c l h = (inl refl, l, h, omega arith, tt)
  keep_lowest-from (d ∷ nodes) c l h = elim (Option-cases (score d)) [
    | inl e ↦
        rw (e, keep_lowest)
          (weaker c d l l nodes _ (keep_lowest-from nodes c l h) (omega arith)
            (λ m q. NotBelow-none score m d e))
    | inr (k, e) ↦ elim (Bool-cases (ltb k l)) [
      | inl b ↦
          rw (e, keep_lowest)
            (rw b (moved c d k l nodes _ (keep_lowest-from nodes d k e) (ground (arith, b)) e))
      | inr b ↦
          rw (e, keep_lowest)
            (rw b (
              weaker c d l l nodes _ (keep_lowest-from nodes c l h) (omega arith)
                (λ m q. NotBelow-at score m k d e (ground (arith, b, q)))))
    ]
  ]

  lower :
      (d : Node) (k b : ℕ) (nodes : List Node) (r : Option Node)
      → IsLowestFrom score d k nodes r
      → k < b
      → score d ≡ some k
      → IsLowest score b (d ∷ nodes) r
  lower d k b nodes none h q e = elim h [ ]
  lower d k b nodes (some n) (w, m, v, u, a) q e =
      let w' : In n (d ∷ nodes) = elim w [ inl x ↦ inl x | inr x ↦ inr x ] in
      (w', m, v, omega (arith, u, q), (NotBelow-at score m k d e u, a))

  behind :
      (d : Node) (b : ℕ) (nodes : List Node) (r : Option Node)
      → IsLowest score b nodes r
      → ((m : ℕ) → m ≤ b → NotBelow score m d)
      → IsLowest score b (d ∷ nodes) r
  behind d b nodes none h f = (f b (omega arith), h)
  behind d b nodes (some n) (w, m, v, u, a) f = (inr w, m, v, u, (f m (omega (arith, u)), a))

  -- The loop keeps a node with the lowest score below the bound, if there is one.
  pub keep_lowest-IsLowest :
      (nodes : List Node) (b : ℕ) → IsLowest score b nodes (keep_lowest score nodes none b)
  unfolding keep_lowest
  keep_lowest-IsLowest [] b = tt
  keep_lowest-IsLowest (d ∷ nodes) b = elim (Option-cases (score d)) [
    | inl e ↦
        rw (e, keep_lowest)
          (behind d b nodes _ (keep_lowest-IsLowest nodes b) (λ m q. NotBelow-none score m d e))
    | inr (k, e) ↦ elim (Bool-cases (ltb k b)) [
      | inl q ↦
          rw (e, keep_lowest)
            (rw q (lower d k b nodes _ (keep_lowest-from nodes d k e) (ground (arith, q)) e))
      | inr q ↦
          rw (e, keep_lowest)
            (rw q (
              behind d b nodes _ (keep_lowest-IsLowest nodes b)
                (λ m u. NotBelow-at score m k d e (ground (arith, q, u)))))
    ]
  ]

-- findNearestNode gives a node that answered with the lowest latency of all, whatever the order in
-- which the probes end, and an error only if no node answered in less than 999 milliseconds.
pub find_nearest_node-IsLowest :
    (probe : Probe) (finished : List Node)
    → IsLowest (reached probe) 999 finished (find_nearest_node probe finished)
unfolding find_nearest_node
find_nearest_node-IsLowest probe finished = keep_lowest-IsLowest (reached probe) finished 999
