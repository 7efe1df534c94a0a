-- ===== src/Wireguard/Igw.antt =====
-- wireguard/igw.go: the health monitor of the internet gateway. A check is a function of what it
-- observes and returns the new status with the calls that it makes, in order; failures of these
-- calls are only logged. The counts are Go's int; one tick takes 30 s, so they do not reach its end.
pub mod Routes
pub mod Health
pub mod Monitor
use netclient.Prelude.{
  ℕ, ◌+◌, List, [], ◌∷◌, ◌++◌, Bool, true, false, not, ◌&&◌, ◌||◌, if◌then◌else◌, Option, none,
  some, leb, keep,
}
use netclient.Text.{Text, text_eq}
use netclient.Wireguard.Types.{Peer, PeerConfig, ipv4_network, ipv6_network}

abbrev pub igw_recovery_threshold : ℕ
igw_recovery_threshold = 3

abbrev pub igw_failure_threshold : ℕ
igw_failure_threshold = 3

-- igwStatus. `is_v4` is whether To4 of the network address is an address.
pub record IgwStatus : Type 0 where
  pub network_ip : Text
  pub is_v4 : Bool
  pub public_key : Text
  pub is_healthy : Bool
  pub success_count : ℕ
  pub failure_count : ℕ

pub data Action : Type 0 where
  update_peer : PeerConfig → Action
  set_default_routes_on_host : Text → Text → Action
  reset_default_routes_on_host : Action

-- net.DialTimeout: a connection, ECONNREFUSED, or another error.
pub data Dial : Type 0 where
  connected refused dial_error : Dial

-- What GetPeer gives, and the dial that follows.
pub data Observation : Type 0 where
  peer_error peer_not_found : Observation
  peer_found : Peer → Dial → Observation

pub data CheckResult : Type 0 where
  checked : IgwStatus → List Action → CheckResult
  nil_endpoint : CheckResult

-- isHostReachable
unfoldable pub is_host_reachable : Dial → Bool
is_host_reachable connected = true
is_host_reachable refused = true
is_host_reachable dial_error = false

unfoldable pub mem_network : Text → List Text → Bool
mem_network n [] = false
mem_network n (m ∷ l) = if text_eq m n then true else mem_network n l

-- The allowed networks that restoreDefaultRoutesOnIGWPeer sets.
unfoldable pub restored_ips : Bool → List Text → List Text
unfolding mem_network
restored_ips is_v4 allowed =
    let ipv4_present = mem_network ipv4_network allowed in
    let ipv6_present = mem_network ipv6_network allowed in
    let with_v4 = if is_v4 && not ipv4_present then allowed ++ ipv4_network ∷ [] else allowed in
    if not is_v4 && not ipv6_present then with_v4 ++ ipv6_network ∷ [] else with_v4

abbrev pub is_default : Text → Bool
is_default n = text_eq n ipv4_network || text_eq n ipv6_network

-- The allowed networks that removeDefaultRoutesOnIGWPeer sets.
unfoldable pub removed_ips : List Text → List Text
removed_ips = keep (λ n. not (is_default n))

abbrev pub replace_ips : Text → List Text → PeerConfig
replace_ips key ips = record {
  public_key = key;
  endpoint = none;
  allowed_ips = ips;
  remove = false;
  replace_allowed_ips = true;
  update_only = true;
}

unfoldable pub set_healthy : IgwStatus → Peer → IgwStatus × List Action
set_healthy s igw = if s.is_healthy then (s, []) else (
  record s { is_healthy = true },
  update_peer (replace_ips igw.public_key (restored_ips s.is_v4 igw.allowed_ips))
      ∷ set_default_routes_on_host s.public_key s.network_ip
      ∷ [],
)

unfoldable pub set_unhealthy : IgwStatus → Text → List Text → IgwStatus × List Action
set_unhealthy s key allowed = if not s.is_healthy then (s, []) else (
  record s { is_healthy = false },
  update_peer (replace_ips key (removed_ips allowed)) ∷ reset_default_routes_on_host ∷ [],
)

abbrev pub done : IgwStatus × List Action → CheckResult
done (s, acts) = checked s acts

-- The part of check after a peer is found.
unfoldable pub probed : IgwStatus → Peer → Bool → IgwStatus × List Action
unfolding set_healthy set_unhealthy
probed s igw true =
    let t = record s { success_count = s.success_count + 1; failure_count = 0 } in
    if not t.is_healthy && leb igw_recovery_threshold t.success_count
    then set_healthy t igw
    else (t, [])
probed s igw false =
    let t = record s { failure_count = s.failure_count + 1; success_count = 0 } in
    if t.is_healthy && leb igw_failure_threshold t.failure_count
    then set_unhealthy t igw.public_key igw.allowed_ips
    else (t, [])

-- check. `parse_key` stands for wgtypes.ParseKey followed by String.
module _ (parse_key : Text → Option Text) where
  unfoldable pub check : IgwStatus → Observation → CheckResult
  unfolding probed is_host_reachable
  check s peer_error = checked s []
  check s peer_not_found = elim (parse_key s.public_key) [
    | none ↦ checked s []
    | some key ↦ done (set_unhealthy s key [])
  ]
  check s (peer_found igw dial) = elim igw.endpoint [
    | none ↦ nil_endpoint
    | some _ ↦ done (probed s igw (is_host_reachable dial))
  ]

-- The status that Monitor starts with.
unfoldable pub new_status : Text → Text → Bool → IgwStatus
new_status public_key network_ip is_v4 = record {
  network_ip = network_ip;
  is_v4 = is_v4;
  public_key = public_key;
  is_healthy = true;
  success_count = 0;
  failure_count = 0;
}
