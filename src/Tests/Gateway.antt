-- ===== src/Tests/Gateway.antt =====
-- wireguard/igw.go at concrete inputs.
use netclient.Prelude.{ℕ, ◌≡◌, refl, List, [], ◌∷◌, true, false, Option, some}
use netclient.Text.{Text, codes}
use netclient.Wireguard.Types.{Peer, ipv4_network}
use netclient.Wireguard.Igw.{
  IgwStatus, Action, Observation, peer_found, dial_error, checked, check, new_status,
}
use netclient.Wireguard.Igw.Health.{
  Run, start, tick, health_after, is_some, calls_of, peer_of, check-health_after,
}

abbrev parse_key : Text → Option Text
parse_key k = some k

abbrev gateway : Peer
gateway = record {
  public_key = codes "gw";
  endpoint = some (codes "198.51.100.1", 51821);
  allowed_ips = ipv4_network ∷ codes "10.0.0.1/32" ∷ [];
}

abbrev first : IgwStatus
first = new_status (codes "gw") (codes "10.0.0.1") true

abbrev down : Observation
down = peer_found gateway dial_error

abbrev with_failures : ℕ → IgwStatus
with_failures n = record {
  network_ip = codes "10.0.0.1";
  is_v4 = true;
  public_key = codes "gw";
  is_healthy = true;
  success_count = 0;
  failure_count = n;
}

check_once : check parse_key first down ≡ checked (with_failures 1) []
unfolding check new_status
check_once = refl

check_twice : check parse_key (with_failures 1) down ≡ checked (with_failures 2) []
unfolding check
check_twice = refl

two_down : Run parse_key first (down ∷ down ∷ []) (with_failures 2)
two_down = tick down (tick down start check_once) check_twice

abbrev lost : IgwStatus
lost = record (with_failures 3) { is_healthy = false }

abbrev lost_calls : List Action
lost_calls = calls_of (with_failures 2) false (codes "gw", gateway.allowed_ips)

check_third : check parse_key (with_failures 2) down ≡ checked lost lost_calls
unfolding check calls_of
check_third = refl

check-health_after_example :
    (lost.is_healthy ≡ health_after (is_some (parse_key (codes "gw"))) true (down ∷ down ∷ []) down)
    × (lost_calls
        ≡ calls_of (with_failures 2) lost.is_healthy (peer_of (parse_key (codes "gw")) down))
check-health_after_example =
    check-health_after parse_key (codes "gw") (codes "10.0.0.1") true (down ∷ down ∷ [])
      (with_failures 2) lost lost_calls down two_down check_third

abbrev steady : IgwStatus
steady = record first { success_count = 2 }
