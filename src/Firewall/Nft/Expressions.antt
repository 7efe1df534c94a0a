-- ===== src/Firewall/Nft/Expressions.antt =====
-- firewall/nftables_linux.go: GetIpExpr, getExprForProto and getExprForPort, the expressions of the
-- rules, and what nftables documents of them: a load sets the register, a comparison that fails ends
-- the rule, and a verdict is reached where all before it hold.
use netclient.Prelude.{
  ℕ, ◌/◌, ◌%◌, ◌^◌, List, [], ◌∷◌, ◌++◌, Bool, true, false, ◌&&◌, ◌||◌, Option, none, some, ◌==◌,
  ltb, if◌then◌else◌, is_empty,
}
use netclient.Text.{Text, codes, text_eq, contains, split}
use netclient.Firewall.Types.{Net, AclRule, all_protocol}

pub data Base : Type 0 where
  network_header : Base
  transport_header : Base

-- The expressions that the rules have; bytes are numbers. `nil_expr` is a nil pointer to one.
pub data Expr : Type 0 where
  nil_expr : Expr
  payload : Base → ℕ → ℕ → Expr
  bitwise : List ℕ → Expr
  compare_eq : List ℕ → Expr
  compare_range : List ℕ → List ℕ → Expr
  verdict_accept : Expr

-- net.IPNet: the bytes of To4 and of To16 of the IP of a network, and of its mask.
pub record NetBytes : Type 0 where
  pub to4 : Text → Option (List ℕ)
  pub to16 : Text → Option (List ℕ)
  pub mask : Text → List ℕ

abbrev pub match_bytes : ℕ → ℕ → List ℕ → List ℕ → List Expr
match_bytes offset len mask bytes =
    payload network_header offset len ∷ bitwise mask ∷ compare_eq bytes ∷ []

abbrev bytes_or_nil : Option (List ℕ) → List ℕ
bytes_or_nil none = []
bytes_or_nil (some bytes) = bytes

-- A big-endian uint16 of a number.
unfoldable pub port_bytes : ℕ → List ℕ
port_bytes n = n % 2 ^ 16 / 256 ∷ n % 2 ^ 16 % 256 ∷ []

abbrev port_header : Expr
port_header = payload transport_header 2 2

module _ (net : NetBytes) where
  abbrev mask_of : Net → List ℕ
  mask_of none = []
  mask_of (some n) = net.mask n

  abbrev to4_of : Net → Option (List ℕ)
  to4_of none = none
  to4_of (some n) = net.to4 n

  abbrev to16_of : Net → Option (List ℕ)
  to16_of none = none
  to16_of (some n) = net.to16 n

  -- GetIpExpr; without a destination it gets an empty network.
  unfoldable pub get_ip_expr : Net → Option Text → List Expr
  get_ip_expr source destination = elim (to4_of source) [
    | some bytes ↦ match_bytes 12 4 (mask_of source) bytes ++ elim (to4_of destination) [
      | none ↦ []
      | some dst ↦ match_bytes 16 4 (mask_of destination) dst
    ]
    | none ↦
        match_bytes 8 16 (mask_of source) (bytes_or_nil (to16_of source))
        ++ elim (to16_of destination) [
          | none ↦ []
          | some dst ↦ match_bytes 24 16 (mask_of destination) dst
        ]
  ]

-- The number that getExprForProto compares with; none for a protocol that it does not know.
unfoldable pub protocol_number : Text → Bool → Option ℕ
protocol_number proto v4 =
    if text_eq proto (codes "udp")
    then some 17
    else if text_eq proto (codes "tcp")
    then some 6
    else if text_eq proto (codes "icmp")
    then some (if v4 then 1 else 58)
    else none

-- getExprForProto: for a protocol that it does not know the second expression is nil.
unfoldable pub get_expr_for_proto : Text → Bool → List Expr
get_expr_for_proto proto v4 =
    payload network_header (if v4 then 9 else 6) 1
    ∷ elim (protocol_number proto v4) [ none ↦ nil_expr | some n ↦ compare_eq (n ∷ []) ]
    ∷ []

module _ (atoi : Text → Option ℕ) where
  -- A range of ports, by the first two parts of its text.
  unfoldable pub range_exprs : List Text → List Expr
  range_exprs (from ∷ to ∷ _) = elim (atoi from) [
    | none ↦ []
    | some lo ↦ elim (atoi to) [
      | none ↦ []
      | some hi ↦ port_header ∷ compare_range (port_bytes lo) (port_bytes hi) ∷ []
    ]
  ]
  range_exprs _ = []

  -- The body of the loop of getExprForPort.
  unfoldable pub port_exprs : Text → List Expr
  port_exprs port =
      if contains port (codes "-")
      then range_exprs (split b'-' port)
      else elim (atoi port) [ none ↦ [] | some n ↦ port_header ∷ compare_eq (port_bytes n) ∷ [] ]

  -- getExprForPort
  unfoldable pub get_expr_for_port : List Text → List Expr
  get_expr_for_port [] = []
  get_expr_for_port (port ∷ ports) = port_exprs port ++ get_expr_for_port ports

-- The expressions of a rule that accepts.
unfoldable pub accept_exprs :
    NetBytes → (Text → Option ℕ) → Bool → AclRule → Net → Option Text → List Expr
accept_exprs net atoi v4 a source destination =
    get_ip_expr net source destination
    ++ ((if is_empty a.allowed_protocol || text_eq a.allowed_protocol all_protocol
          then []
          else get_expr_for_proto a.allowed_protocol v4)
        ++ (get_expr_for_port atoi a.allowed_ports ++ verdict_accept ∷ []))

abbrev pub same_bytes : List ℕ → List ℕ → Bool
same_bytes [] [] = true
same_bytes (a ∷ l) (b ∷ m) = a == b && same_bytes l m
same_bytes _ _ = false

-- The order of bytes, the first one first.
abbrev pub bytes_leb : List ℕ → List ℕ → Bool
bytes_leb [] m = true
bytes_leb (a ∷ l) [] = false
bytes_leb (a ∷ l) (b ∷ m) = ltb a b || (a == b && bytes_leb l m)

-- A packet: the bytes at an offset of a header, and how they are masked.
pub record Packet : Type 0 where
  pub field : Base → ℕ → ℕ → List ℕ
  pub masked : List ℕ → List ℕ → List ℕ

-- Whether a rule accepts a packet, with what the register holds; one with a nil expression never
-- gets into the kernel.
unfoldable pub accepts : Packet → List ℕ → List Expr → Bool
accepts p reg [] = false
accepts p reg (nil_expr ∷ es) = false
accepts p reg (payload base offset len ∷ es) = accepts p (p.field base offset len) es
accepts p reg (bitwise mask ∷ es) = accepts p (p.masked mask reg) es
accepts p reg (compare_eq bytes ∷ es) = same_bytes reg bytes && accepts p reg es
accepts p reg (compare_range lo hi ∷ es) = bytes_leb lo reg && bytes_leb reg hi && accepts p reg es
accepts p reg (verdict_accept ∷ es) = true
