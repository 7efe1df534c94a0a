-- ===== src/Dns/Types.antt =====
-- The data of the DNS code that comes from the netmaker models and from the dns package, with the
-- fields that the client reads.
use netclient.Prelude.{ℕ, Bool, List}
use netclient.Text.{Text}

-- models.Nameserver
pub record Nameserver : Type 0 where
  pub ips : List Text
  pub match_domain : Text
  pub is_fallback : Bool
  pub is_search_domain : Bool
  pub is_ad_domain : Bool

-- models.EgressDomain
pub record EgressDomain : Type 0 where
  pub id : Text
  pub domain : Text

-- dns.RR_Header; the record's type is the constructor of `Rr`.
pub record Header : Type 0 where
  pub name : Text
  pub class_inet : Bool
  pub ttl : ℕ

-- dns.RR of the dns package: an address record with its header and address, or a record of another
-- kind. `Ip` stands for net.IP.
pub data Rr (Ip : Type 0) : Type 0 where
  a : Header → Ip → Rr Ip
  aaaa : Header → Ip → Rr Ip
  other : Header → ℕ → Rr Ip

-- dns.Question
pub record Question : Type 0 where
  pub name : Text
  pub qtype : ℕ

-- dns.Msg as far as the client reads a reply: the code, the flag and the answers.
pub record Msg (Ip : Type 0) : Type 0 where
  pub rcode : ℕ
  pub authoritative : Bool
  pub answer : List (Rr Ip)

abbrev pub type_a : ℕ
type_a = 1

abbrev pub type_aaaa : ℕ
type_aaaa = 28

abbrev pub rcode_success : ℕ
rcode_success = 0

abbrev pub rcode_server_failure : ℕ
rcode_server_failure = 2
