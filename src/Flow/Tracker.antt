-- ===== src/Flow/Tracker.antt =====
-- flow/tracker/tracker.go: the events of connections and flow/manager_linux.go's filter. Addresses
-- and ranges are their texts; `ip_equal` stands for net.IP.Equal and `in_range` for
-- net.IPNet.Contains; `flow_id` for the SHA-1 ID of a flow, and `participant` for the lookup of the
-- peer behind an address.
pub mod Events
use netclient.Prelude.{
  ℕ, List, [], ◌∷◌, Bool, true, false, ◌&&◌, ◌||◌, if◌then◌else◌, is_empty, Option, none, some,
  ◌==◌,
}
use netclient.Text.{Text}

pub data Direction : Type 0 where
  unspecified ingress egress : Direction

-- ct.Counter
pub record Counter : Type 0 where
  pub packets : ℕ
  pub bytes : ℕ

abbrev pub no_counter : Counter
no_counter = record { packets = 0; bytes = 0 }

-- The parts of ct.Flow that the tracker reads; a start of 0 is the zero time.
pub record Flow : Type 0 where
  pub id : ℕ
  pub protocol : ℕ
  pub source_address : Text
  pub destination_address : Text
  pub source_port : ℕ
  pub destination_port : ℕ
  pub icmp_type : ℕ
  pub icmp_code : ℕ
  pub counters_orig : Counter
  pub counters_reply : Counter
  pub start : ℕ
  pub stop : ℕ
  pub status : ℕ

pub data EventType : Type 0 where
  event_new event_destroy event_other : EventType

-- pbflow.FlowEvent, without the host and the version.
pub record FlowEvent (P : Type 0) : Type 0 where
  pub is_start : Bool
  pub id : Text
  pub network_id : Text
  pub protocol : ℕ
  pub src_port : ℕ
  pub dst_port : ℕ
  pub icmp_type : ℕ
  pub icmp_code : ℕ
  pub direction : Direction
  pub src : P
  pub dst : P
  pub start_ts : ℕ
  pub end_ts : ℕ
  pub bytes_sent : ℕ
  pub bytes_recv : ℕ
  pub packets_sent : ℕ
  pub packets_recv : ℕ
  pub status : ℕ

-- The parts of models.CommonNode that the tracker reads.
pub record Node : Type 0 where
  pub network : Text
  pub address : Text
  pub address6 : Text
  pub network_range : Text
  pub network_range6 : Text

-- getSentCounter
unfoldable pub get_sent_counter : Flow → Direction → Counter
get_sent_counter flow ingress = flow.counters_reply
get_sent_counter flow egress = flow.counters_orig
get_sent_counter flow unspecified = no_counter

-- getReceivedCounter
unfoldable pub get_received_counter : Flow → Direction → Counter
get_received_counter flow ingress = flow.counters_orig
get_received_counter flow egress = flow.counters_reply
get_received_counter flow unspecified = no_counter

abbrev pub is_icmp : ℕ → Bool
is_icmp protocol = protocol == 1 || protocol == 58

-- The filter of Start, given the server's metrics port and the host's listen port.
unfoldable pub filter_flow : ℕ → ℕ → Flow → Bool
filter_flow metrics_port listen_port flow =
    if flow.protocol == 17 && (flow.source_port == 53 || flow.destination_port == 53)
    then true
    else if is_icmp flow.protocol
    then true
    else if flow.protocol == 6
        && (flow.source_port == metrics_port || flow.destination_port == metrics_port)
    then true
    else flow.protocol == 17 && flow.destination_port == listen_port

module _ (ip_equal in_range : Text → Text → Bool) where
  -- The callback of inferNetworkAndDirection: the direction by one node.
  unfoldable pub node_direction : Flow → Node → Option Direction
  node_direction flow node =
      let src = flow.source_address in
      let dst = flow.destination_address in
      if ip_equal node.address src || ip_equal node.address6 src
      then some egress
      else if ip_equal node.address dst || ip_equal node.address6 dst
      then some ingress
      else if in_range node.network_range src || in_range node.network_range6 src
      then some ingress
      else if in_range node.network_range dst || in_range node.network_range6 dst
      then some egress
      else none

  -- inferNetworkAndDirection, given the nodes in the order of the iterator.
  unfoldable pub infer_network_and_direction : List Node → Flow → Text × Direction
  infer_network_and_direction [] flow = ([], unspecified)
  infer_network_and_direction (node ∷ nodes) flow =
      let rest = infer_network_and_direction nodes flow in
      elim (node_direction flow node) [ none ↦ rest | some d ↦ (node.network, d) ]

  module _ {P : Type 0} (filter_event : Flow → Bool) (flow_id : ℕ → Text)
      (participant : Text → ℕ → P) where
    -- The event that handleEvent exports for a flow of a network.
    unfoldable pub export_event : Bool → Text → Direction → Flow → ℕ → FlowEvent P
    export_event is_start network_id direction flow now =
        let sent = get_sent_counter flow direction in
        let received = get_received_counter flow direction in
        let icmp = is_icmp flow.protocol in
        let start_time = if flow.start == 0 then now else flow.start in
        record {
          is_start = is_start;
          id = flow_id flow.id;
          network_id = network_id;
          protocol = flow.protocol;
          src_port = flow.source_port;
          dst_port = flow.destination_port;
          icmp_type = if icmp then flow.icmp_type else 0;
          icmp_code = if icmp then flow.icmp_code else 0;
          direction = direction;
          src = participant flow.source_address start_time;
          dst = participant flow.destination_address start_time;
          start_ts = start_time;
          end_ts = flow.stop;
          bytes_sent = sent.bytes;
          bytes_recv = received.bytes;
          packets_sent = sent.packets;
          packets_recv = received.packets;
          status = flow.status;
        }

    -- handleEvent: the event that is exported, if any.
    unfoldable pub handle_event : List Node → EventType → Option Flow → ℕ → Option (FlowEvent P)
    handle_event nodes event_type none now = none
    handle_event nodes event_other (some flow) now = none
    handle_event nodes event_new (some flow) now =
        let (network_id, direction) = infer_network_and_direction nodes flow in
        if is_empty network_id
        then none
        else if filter_event flow
        then none
        else some (export_event true network_id direction flow now)
    handle_event nodes event_destroy (some flow) now =
        let (network_id, direction) = infer_network_and_direction nodes flow in
        if is_empty network_id
        then none
        else if filter_event flow
        then none
        else some (export_event false network_id direction flow now)
