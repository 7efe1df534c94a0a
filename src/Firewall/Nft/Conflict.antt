-- ===== src/Firewall/Nft/Conflict.antt =====
-- firewall/nftables_linux.go: a rule for several ports, which getExprForPort makes one after the
-- other in one rule.
use netclient.Prelude.{
  ℕ, ◌≡◌, ◌≢◌, ◌%◌, ◌^◌, List, [], ◌∷◌, ◌++◌, append_assoc, Bool, true, false, Option, some, arith,
  In, inl, inr, if◌then◌else◌, Bool-cases,
}
use netclient.Text.{Text, codes, contains}
use netclient.Firewall.Types.{Net, AclRule}
use netclient.Firewall.Nft.Expressions.{
  transport_header, Expr, nil_expr, payload, bitwise, compare_eq, compare_range, verdict_accept,
  NetBytes, port_bytes, port_exprs, range_exprs, get_expr_for_port, get_ip_expr, get_expr_for_proto,
  accept_exprs, same_bytes, Packet, accepts,
}

-- The expressions decide nothing by themselves.
abbrev HasNoVerdict : List Expr → Type 0
HasNoVerdict [] = Unit
HasNoVerdict (verdict_accept ∷ es) = ⊥
HasNoVerdict (nil_expr ∷ es) = HasNoVerdict es
HasNoVerdict (payload base offset len ∷ es) = HasNoVerdict es
HasNoVerdict (bitwise mask ∷ es) = HasNoVerdict es
HasNoVerdict (compare_eq bytes ∷ es) = HasNoVerdict es
HasNoVerdict (compare_range lo hi ∷ es) = HasNoVerdict es

HasNoVerdict-append :
    (es fs : List Expr) → HasNoVerdict es → HasNoVerdict fs → HasNoVerdict (es ++ fs)
HasNoVerdict-append [] fs h k = k
HasNoVerdict-append (nil_expr ∷ es) fs h k = HasNoVerdict-append es fs h k
HasNoVerdict-append (payload base offset len ∷ es) fs h k = HasNoVerdict-append es fs h k
HasNoVerdict-append (bitwise mask ∷ es) fs h k = HasNoVerdict-append es fs h k
HasNoVerdict-append (compare_eq bytes ∷ es) fs h k = HasNoVerdict-append es fs h k
HasNoVerdict-append (compare_range lo hi ∷ es) fs h k = HasNoVerdict-append es fs h k
HasNoVerdict-append (verdict_accept ∷ es) fs h k = h

get_ip_expr-HasNoVerdict :
    (net : NetBytes) (source : Net) (destination : Option Text)
    → HasNoVerdict (get_ip_expr net source destination)
unfolding get_ip_expr
get_ip_expr-HasNoVerdict net source destination = ground arith

get_expr_for_proto-HasNoVerdict :
    (proto : Text) (v4 : Bool) → HasNoVerdict (get_expr_for_proto proto v4)
unfolding get_expr_for_proto
get_expr_for_proto-HasNoVerdict proto v4 = ground arith

port_exprs-HasNoVerdict :
    (atoi : Text → Option ℕ) (port : Text) → HasNoVerdict (port_exprs atoi port)
unfolding port_exprs range_exprs
port_exprs-HasNoVerdict atoi port = ground arith

-- A packet that a rule accepts gets past the expressions in front.
accepts-behind :
    (p : Packet) (reg : List ℕ) (es fs : List Expr)
    → HasNoVerdict es
    → accepts p reg (es ++ fs) ≡ true
    → (reg' : List ℕ) × (accepts p reg' fs ≡ true)
unfolding accepts
accepts-behind p reg [] fs n h = (reg, h)
accepts-behind p reg (nil_expr ∷ es) fs n h = absurd (ground (arith, h))
accepts-behind p reg (payload base offset len ∷ es) fs n h =
    accepts-behind p (p.field base offset len) es fs n h
accepts-behind p reg (bitwise mask ∷ es) fs n h = accepts-behind p (p.masked mask reg) es fs n h
accepts-behind p reg (compare_eq bytes ∷ es) fs n h =
    accepts-behind p reg es fs n (ground (arith, h))
accepts-behind p reg (compare_range lo hi ∷ es) fs n h =
    accepts-behind p reg es fs n (ground (arith, h))
accepts-behind p reg (verdict_accept ∷ es) fs n h = absurd n

-- A text that stands for one port.
abbrev pub IsPort : (Text → Option ℕ) → Text → ℕ → Type 0
IsPort atoi port n = (contains port (codes "-") ≡ false) × (atoi port ≡ some n)

port_exprs-IsPort :
    (atoi : Text → Option ℕ) (port : Text) (n : ℕ)
    → IsPort atoi port n
    → port_exprs atoi port ≡ payload transport_header 2 2 ∷ compare_eq (port_bytes n) ∷ []
unfolding port_exprs
port_exprs-IsPort atoi port n h = ground (arith, h)

-- A rule that accepts a packet has found each of its single ports in it.
get_expr_for_port-accepts :
    (atoi : Text → Option ℕ) (p : Packet) (reg : List ℕ) (port : Text) (ports : List Text) (n : ℕ)
    (fs : List Expr)
    → IsPort atoi port n
    → In port ports
    → accepts p reg (get_expr_for_port atoi ports ++ fs) ≡ true
    → same_bytes (p.field transport_header 2 2) (port_bytes n) ≡ true
unfolding get_expr_for_port accepts
get_expr_for_port-accepts atoi p reg port [] n fs i m h = absurd m
get_expr_for_port-accepts atoi p reg port (q ∷ ports) n fs i m h = elim m [
  | inl e ↦ first (rw (← e) (port_exprs-IsPort atoi port n i)) h'
  | inr m' ↦
      let (reg', k) =
        accepts-behind p reg (port_exprs atoi q) rest (port_exprs-HasNoVerdict atoi q) h' in
      get_expr_for_port-accepts atoi p reg' port ports n fs i m' k
]
  where
    rest : List Expr
    rest = get_expr_for_port atoi ports ++ fs

    h' : accepts p reg (port_exprs atoi q ++ rest) ≡ true
    h' = rw (append_assoc (port_exprs atoi q) (get_expr_for_port atoi ports) fs) at h

    first :
        port_exprs atoi q ≡ payload transport_header 2 2 ∷ compare_eq (port_bytes n) ∷ []
        → accepts p reg (port_exprs atoi q ++ rest) ≡ true
        → same_bytes (p.field transport_header 2 2) (port_bytes n) ≡ true
    first e k = ground (arith, rw e at k)

-- The bytes of two ports that differ as numbers of 16 bits.
port_bytes-differ :
    (l : List ℕ) (n m : ℕ)
    → same_bytes l (port_bytes n) ≡ true
    → same_bytes l (port_bytes m) ≡ true
    → n % 2 ^ 16 ≡ m % 2 ^ 16
unfolding port_bytes
port_bytes-differ [] n m h k = ground (arith, h)
port_bytes-differ (a ∷ []) n m h k = ground (arith, h)
port_bytes-differ (a ∷ b ∷ []) n m h k = ground (arith, h, k)
port_bytes-differ (a ∷ b ∷ c ∷ l) n m h k = ground (arith, h)

-- The rule that AddAclRules and UpsertAclRule make of a policy with two ports that differ accepts
-- no packet, whatever its addresses and its protocol: the expressions for its ports all have to
-- hold.
pub accept_exprs-conflict :
    (net : NetBytes) (atoi : Text → Option ℕ) (v4 : Bool) (a : AclRule) (source : Net)
    (destination : Option Text) (port other : Text) (n m : ℕ) (p : Packet) (reg : List ℕ)
    → In port a.allowed_ports
    → In other a.allowed_ports
    → IsPort atoi port n
    → IsPort atoi other m
    → n % 2 ^ 16 ≢ m % 2 ^ 16
    → accepts p reg (accept_exprs net atoi v4 a source destination) ≡ false
unfolding accept_exprs
accept_exprs-conflict net atoi v4 a source destination port other n m p reg i j h k differ =
    elim (Bool-cases (accepts p reg (accept_exprs net atoi v4 a source destination))) [
      | inr e ↦ e
      | inl e ↦
          let (reg1, e1) =
            accepts-behind p reg (get_ip_expr net source destination) _
              (get_ip_expr-HasNoVerdict net source destination) e in
          let (reg2, e2) = accepts-behind p reg1 (proto_part _) _ (proto-HasNoVerdict _) e1 in
          absurd (
            differ (
              port_bytes-differ (p.field transport_header 2 2) n m
                (get_expr_for_port-accepts atoi p reg2 port a.allowed_ports n _ h i e2)
                (get_expr_for_port-accepts atoi p reg2 other a.allowed_ports m _ k j e2)))
    ]
  where
    proto_part : Bool → List Expr
    proto_part b = if b then [] else get_expr_for_proto a.allowed_protocol v4

    proto-HasNoVerdict : (b : Bool) → HasNoVerdict (proto_part b)
    proto-HasNoVerdict true = tt
    proto-HasNoVerdict false = get_expr_for_proto-HasNoVerdict a.allowed_protocol v4
