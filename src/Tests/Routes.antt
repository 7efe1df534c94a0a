-- ===== src/Tests/Routes.antt =====
-- firewall/: the rules of gateways at concrete inputs.
use netclient.Prelude.{
  ℕ, ◌+◌, ◌*◌, ◌≤◌, ◌<◌, ◌≡◌, refl, List, [], ◌∷◌, Bool, true, false, ◌||◌, some, arith, All,
}
use netclient.Text.{Text, codes, text_eq}
use netclient.Assoc.{has_key, HasDistinctKeys, lookup}
use netclient.Firewall.Types.{EgressRange, ranges}
use netclient.Firewall.Manager.{EgressTable}
use netclient.Firewall.Vnat.{IpNet, get_real_range_window}
use netclient.Firewall.Vnat.Window.{size, get_real_range_window_lem}
use netclient.Firewall.Egress.{EgressInfo}
use netclient.Firewall.Egress.Tables.{is_entry_of}
use netclient.Firewall.Routing.{RoutingEnv, routes, ranges_of, set_egress_routes}
use netclient.Firewall.Routing.Stale.{IsHashless}
use netclient.Firewall.Routing.Placed.{HoldsRanges}
use netclient.Firewall.Routing.Entries.{has_key-set_egress_routes}
use netclient.Firewall.Routing.Current.{IsUpdated, IsPlain, set_egress_routes-AreUpdated}
use netclient.Firewall.Ingress.{IngressInfo, IngressTable, process_ingress_update}
use netclient.Firewall.Ingress.Inserted.{IsCurrent, HasInfo}
use netclient.Firewall.Ingress.Entries.{process_ingress_update-AreCurrent}
use netclient.Tests.Chains.{plain}

-- 10.10.0.0/16 and 198.18.10.0/24
abbrev lan : IpNet
lan = record { is_v4 = true; ip = 0x0A0A0000; prefix = 16 }

abbrev virtual_lan : IpNet
virtual_lan = record { is_v4 = true; ip = 0xC6120A00; prefix = 24 }

get_real_range_window_example :
    (w : IpNet) × (get_real_range_window lan virtual_lan ≡ some w)
    × (w.prefix ≡ virtual_lan.prefix)
    × ((b : ℕ) × (w.ip ≡ b * size lan.is_v4 virtual_lan.prefix))
    × (w.ip ≤ lan.ip)
    × (lan.ip < w.ip + size lan.is_v4 virtual_lan.prefix)
    × (lan.prefix ≤ virtual_lan.prefix
        → (w.ip ≡ lan.ip) × (size lan.is_v4 virtual_lan.prefix ≤ size lan.is_v4 lan.prefix))
get_real_range_window_example =
    get_real_range_window_lem lan virtual_lan 0x0A0A refl (omega arith) refl

get_real_range_window_run :
    get_real_range_window lan virtual_lan ≡ some (record lan { prefix = 24 })
unfolding get_real_range_window netclient.Firewall.Vnat.masked
get_real_range_window_run = refl

abbrev Kernel : Type 0
Kernel = Unit {0}

abbrev env : RoutingEnv Kernel
env = record {
  vnat = record {
    netmap_supported = λ v k. true;
    net_string = λ n. codes "10.10.0.0/16";
    wg_interface = codes "netmaker";
  };
  to_ip_net = λ t. some lan;
  parse_prefix = λ t. some false;
  virtual_nat = codes "virtual_nat";
  new_handle = true;
  route_get = λ ip. routes (2 ∷ []);
  interface_by_index = λ i. some (codes "eth1");
  node_count = 2;
  default_interface = codes "eth0";
}

abbrev range_of : Text → EgressRange
range_of n = record { network = n; nat = true; mode = []; virtual_network = []; route_metric = 256 }

abbrev gateways : List (Text × EgressInfo)
gateways =
    (
      codes "g",
      record {
        egress_id = codes "g";
        network = codes "100.64.0.0/16";
        network6 = [];
        ranges_with_metric = range_of (codes "10.10.0.0/16") ∷ [];
        egress_fw_rules = [];
      },
    )
    ∷ []

-- The firewall has another range for the gateway, and a gateway that is gone.
abbrev table : EgressTable
table =
    (
      codes "g",
      record { rules_map = []; extra_info = some (ranges (range_of (codes "10.0.0.0/8") ∷ [])) },
    )
    ∷ (codes "old", record { rules_map = []; extra_info = some (ranges []) })
    ∷ []

holds : HoldsRanges table (codes "g")
unfolding lookup ranges_of text_eq
holds c e = (range_of (codes "10.0.0.0/8") ∷ [], ground (arith, e))

gateways_distinct : HasDistinctKeys gateways
unfolding has_key
gateways_distinct = (refl, tt)

gateway_ids : All (λ g. IsPlain g.0) gateways
unfolding netclient.Text.contains
gateway_ids = (refl, tt)

gateway-IsHashless : All (λ g. IsHashless g.0) gateways
gateway-IsHashless = ((refl, tt), tt)

has_key-set_egress_routes_example :
    (s' : EgressTable × Unit) × (set_egress_routes (plain Kernel) env gateways (table, tt)
      ≡ some s')
    × (has_key (codes "old") s'.0
        ≡ is_entry_of (codes "old") gateways || has_key (codes "old") gateways)
has_key-set_egress_routes_example =
    has_key-set_egress_routes (plain Kernel) env gateways (table, tt) (codes "old") (refl, tt)
      gateways_distinct gateway-IsHashless (holds, tt)

set_egress_routes-AreUpdated_example :
    (s' : EgressTable × Unit) × (set_egress_routes (plain Kernel) env gateways (table, tt)
      ≡ some s')
    × All (λ g. IsUpdated s'.0 g.0 g.1) gateways
set_egress_routes-AreUpdated_example =
    set_egress_routes-AreUpdated (plain Kernel) env gateways (table, tt) (refl, tt)
      gateways_distinct gateway_ids (holds, tt)

abbrev update : List (Text × IngressInfo)
update =
    (
      codes "i",
      record {
        ingress_id = codes "i";
        static_node_ips = record { text = codes "100.64.0.9"; is_v4 = true } ∷ [];
        rules = [];
      },
    )
    ∷ []

update_distinct : HasDistinctKeys update
unfolding has_key
update_distinct = (refl, tt)

no_info : HasInfo [] (codes "i")
unfolding lookup
no_info c e = cc

list_law :
    (v4 : Bool) (t chain : Text) (k : Kernel)
    → (lines : List Text) × ((plain Kernel).list v4 t chain k ≡ some lines)
list_law v4 t chain k = ([], refl)

process_ingress_update-AreCurrent_example :
    (r : IngressTable × Kernel) × (process_ingress_update (plain Kernel) update ([], tt) ≡ some r)
    × All (λ g. IsCurrent r.0 g.0 g.1) update
    × ((j : Text) → has_key j update ≡ false → has_key j r.0 ≡ false)
process_ingress_update-AreCurrent_example =
    process_ingress_update-AreCurrent (plain Kernel) list_law update ([], tt) (refl, tt)
      update_distinct (no_info, tt)
