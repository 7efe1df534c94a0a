-- ===== src/Tests/Relays.antt =====
-- functions/auto_relay.go and flow/ at concrete inputs.
use netclient.Prelude.{
  ℕ, ◌≡◌, refl, List, [], ◌∷◌, Bool, true, false, if◌then◌else◌, some, inl, inr,
}
use netclient.Text.{Text, codes, text_eq}
use netclient.AutoRelay.{
  Node, Probe, RelayRequest, post, Signal, find_nearest_node, reached, check_assign_gw, put_relay,
  handle_peer_relay_signal,
}
use netclient.AutoRelay.Gateway.{IsSensible, check_assign_gw-IsSensible}
use netclient.AutoRelay.Signals.{IsRequest, latencies, handle_peer_relay_signal-IsBestRelay}
use netclient.Flow.Tracker.{Flow, event_new, FlowEvent, handle_event, export_event, egress}
use netclient.Flow.Tracker.Events.{Reports, handle_event-Reports}
use netclient.Flow.Sysctl.{
  SysctlFile, Settings, FlowTracker, new_flow_tracker, close_flow_tracker, close-new_flow_tracker,
  track_connections, IsRestored,
}

abbrev node : Text → Node
node i = record { id = i; relayed_by = []; auto_assign_gateway = true }

abbrev nodes : List Node
nodes = node (codes "far") ∷ node (codes "near") ∷ []

abbrev probe : Probe
probe n = (true, if text_eq n.id (codes "near") then 5 else 50)

gateway_test :
    check_assign_gw (node (codes "me")) nodes nodes probe
    ≡ some (put_relay (node (codes "me")) (codes "near"))
unfolding check_assign_gw netclient.AutoRelay.switch_gw find_nearest_node
    netclient.AutoRelay.keep_lowest reached text_eq
gateway_test = refl

check_assign_gw-IsSensible_example :
    ((node (codes "me")).auto_assign_gateway ≡ true)
    × IsSensible
        (node (codes "me"))
        nodes
        nodes
        probe
        (put_relay (node (codes "me")) (codes "near"))
check_assign_gw-IsSensible_example =
    check_assign_gw-IsSensible (node (codes "me")) nodes nodes probe
      (put_relay (node (codes "me")) (codes "near")) gateway_test

abbrev signal : Signal
signal = record {
  from_host_id = codes "h";
  from_node_id = codes "n";
  from_host_pub_key = codes "k";
  to_host_id = codes "h2";
  to_node_id = codes "n2";
  to_host_pub_key = codes "k2";
  reply = false;
  metrics = (codes "far", 1) ∷ (codes "near", 90) ∷ [];
  time_stamp = 0;
}

abbrev mine : List (Text × ℕ)
mine = (codes "far", 50) ∷ (codes "near", 5) ∷ []

abbrev request : RelayRequest
request = record {
  method = post;
  node_id = codes "n2";
  peer_id = codes "n";
  relay_id = codes "far";
}

abbrev send_ok : Signal → Bool
send_ok s = true

abbrev request_ok : RelayRequest → Bool
request_ok r = true

handle_test :
    (handle_peer_relay_signal signal nodes nodes mine probe send_ok request_ok 1 []).request
    ≡ some request
unfolding handle_peer_relay_signal netclient.AutoRelay.answer_signal
    netclient.AutoRelay.common_relay netclient.AutoRelay.keep_lowest netclient.AutoRelay.average
    netclient.Assoc.lookup text_eq
handle_test = refl

handle_peer_relay_signal-IsBestRelay_example :
    IsRequest signal nodes nodes
      (latencies signal nodes nodes mine probe send_ok request_ok 1 [])
      probe
      send_ok
      request_ok
      1
      []
      request
handle_peer_relay_signal-IsBestRelay_example =
    handle_peer_relay_signal-IsBestRelay signal nodes nodes mine probe send_ok request_ok 1 []
      request handle_test

abbrev flow : Flow
flow = record {
  id = 1;
  protocol = 6;
  source_address = codes "10.0.0.1";
  destination_address = codes "10.0.0.2";
  source_port = 40000;
  destination_port = 443;
  icmp_type = 0;
  icmp_code = 0;
  counters_orig = record { packets = 3; bytes = 300 };
  counters_reply = record { packets = 2; bytes = 200 };
  start = 7;
  stop = 9;
  status = 0;
}

abbrev host_node : netclient.Flow.Tracker.Node
host_node = record {
  network = codes "net";
  address = codes "10.0.0.1";
  address6 = [];
  network_range = [];
  network_range6 = [];
}

abbrev no_range : Text → Text → Bool
no_range n ip = false

abbrev no_filter : Flow → Bool
no_filter f = false

abbrev flow_name : ℕ → Text
flow_name n = []

abbrev participant : Text → ℕ → Text
participant ip t = ip

abbrev event : FlowEvent Text
event =
    export_event text_eq no_range no_filter flow_name participant true (codes "net") egress flow 8

event_test :
    handle_event text_eq no_range no_filter flow_name participant
      (host_node ∷ [])
      event_new
      (some flow)
      8
    ≡ some event
unfolding handle_event netclient.Flow.Tracker.infer_network_and_direction
    netclient.Flow.Tracker.node_direction text_eq
event_test = refl

handle_event-Reports_example :
    Reports text_eq no_range no_filter flow_name participant (host_node ∷ []) flow event
handle_event-Reports_example =
    handle_event-Reports text_eq no_range no_filter flow_name participant (host_node ∷ []) event_new
      flow 8 event event_test

abbrev file_of : ℕ → SysctlFile
file_of n = record { value = some n; writable = true }

abbrev settings : Settings
settings = record { accounting = file_of 0; timestamp = file_of 1 }

abbrev tracker : FlowTracker
tracker = record { restore_accounting = true; restore_timestamp = false; has_cancel = false }

new_test : (new_flow_tracker settings).0 ≡ some tracker
unfolding new_flow_tracker netclient.Flow.Sysctl.enable_setting
    netclient.Flow.Sysctl.set_sysctl_value
new_test = refl

close-new_flow_tracker_example :
    IsRestored settings true
      (close_flow_tracker (track_connections true tracker).1 (new_flow_tracker settings).1)
close-new_flow_tracker_example =
    close-new_flow_tracker settings tracker true (inl refl) (inr refl) new_test
