-- ===== src/Tests/Traces.antt =====
-- Examples for the trace application.
use j_sdntrace.Base.{
  length, ℕ, zero, suc, ◌+◌, ◌^◌, ◌<◌, ◌≡◌, refl, true, none, some, List, [], ◌∷◌, arith,
}
use j_sdntrace.Trace.{
  SwitchInfo, TracePacket, zero_bytes, serialize_packet, OpenFlow, deserialize_packet,
}
use j_sdntrace.Trace.RoundTrip.{HasValues, IsTracePacket, packet_bytes, serialize_packet_lem}
use j_sdntrace.Trace.Misread.{misread, deserialize-serialize}
use j_sdntrace.Trace.Controller.{
  get, Controller, flood, send_trace_packet, minus_one64, packet_in, on_port_status_change,
}
use j_sdntrace.Trace.Reply.{reply_to, packet_in-long}
use j_sdntrace.Trace.Hops.{
  Incoming, handle_all, occurrences, replies, AreRequests, no_request, one_more, handle_all_refines,
}
use j_sdntrace.Trace.Collect.{receive_all, AreTracePackets, no_packet, one_packet, no_replies}
use j_sdntrace.Trace.Report.{has_hop, hops}
use j_sdntrace.Trace.Floodlight.{
  TraceModule, device_added, switch_added, IsNoPort, port_of-switch_added,
}
use j_sdntrace.Trace.Ports.{port_of, port_of-on_port_status_change}
use j_sdntrace.Trace.Receiver.{Receiver, receive_packet, report, translate_to_pcap}
use j_sdntrace.Trace.Path.{packets_of, AreOfProbe, no_more, same_probe, report-handle_all}
use j_sdntrace.Trace.Sent.{frame_type, receive_packet-translate_to_pcap}
use j_sdntrace.Capture.{Captured, get_packet}
use j_sdntrace.Objects.{Packet}
use j_sdntrace.Sender.{set_packet}
use j_sdntrace.Wire.{Region}
use j_sdntrace.Tests.{zeros}

abbrev same_values : OpenFlow
same_values = record { mac_of = λ x. x; datapath_of = λ x. x; u64_of = λ x. x; port_of = λ x. x }

same_values-HasValues : HasValues same_values
same_values-HasValues = record {
  mac_of_same = λ x small. refl;
  datapath_of_same = λ x small. refl;
  u64_of_same = λ x small. refl;
  port_of_same = λ x small. refl;
}

-- A switch at 10.0.0.n with an identifier of `len` letters.
abbrev letters : ℕ → List ℕ
letters zero = []
letters (suc n) = 115 ∷ letters n

abbrev switch_at : ℕ → ℕ → SwitchInfo
switch_at n len = record {
  dpid = n;
  ip_addr = 10 ∷ 0 ∷ 0 ∷ n ∷ [];
  link_latency = 3;
  ingress = 2;
  cont_id = record { chars = len; encoded = letters len };
}

abbrev packet_with : ℕ → ℕ → ℕ → TracePacket
packet_with probe hop len = record {
  destination_mac = 0x112233445566;
  source_mac = 0xAABBCCDDEEFF;
  version = 1;
  max_hops = 255;
  probe_id = probe;
  timestamp = 1000;
  hop = hop;
  sw_info = switch_at 1 len;
  request = true;
}

length-letters : (n : ℕ) → length (letters n) ≡ n
length-letters zero = refl
length-letters (suc n) = omega (arith, length-letters n)

packet_with-IsTracePacket :
    (probe hop len : ℕ) → probe < 2 ^ 64 → hop < 256 → IsTracePacket (packet_with probe hop len)
packet_with-IsTracePacket probe hop len probe_small hop_small = record {
  destination_fits = omega arith;
  source_fits = omega arith;
  probe_fits = probe_small;
  time_fits = omega arith;
  hop_fits = hop_small;
  dpid_fits = omega arith;
  dpid_low = omega arith;
  addr0 = 10;
  addr1 = 0;
  addr2 = 0;
  addr3 = 1;
  ipv4 = refl;
  ascii = length-letters len;
}

deserialize-serialize_example :
    (bytes : List ℕ) × (serialize_packet (packet_with 7 2 4) ≡ some bytes)
    × (length bytes ≡ 73)
    × (deserialize_packet same_values bytes 0 (length bytes)
        ≡ some (record (packet_with 7 2 4) { sw_info = misread (packet_with 7 2 4) }))
deserialize-serialize_example =
    deserialize-serialize same_values (packet_with 7 2 4) same_values-HasValues
      (packet_with-IsTracePacket 7 2 4 (omega arith) (omega arith))

abbrev empty_controller : Controller
empty_controller = record { net_map = []; hop_rec = [] }

packet_in-long_example :
    packet_in same_values
      (packet_bytes (packet_with 7 0 32) 129 (zero_bytes 32))
      (switch_at 1 0)
      1000
      8
      empty_controller
    ≡ none
packet_in-long_example =
    packet_in-long same_values (packet_with 7 0 32) _ (switch_at 1 0) 1000 8 empty_controller
      (packet_with-IsTracePacket 7 0 32 (omega arith) (omega arith)) (omega arith, omega arith)
      (serialize_packet_lem (packet_with 7 0 32)
        (packet_with-IsTracePacket 7 0 32 (omega arith) (omega arith)))

-- Two requests of one probe and one of another, from three switches.
abbrev arrival : ℕ → ℕ → Incoming
arrival probe n = record {
  request = packet_with probe 0 4;
  switch = switch_at n 0;
  now = 1000 + n;
  probe = 90 + n;
}

abbrev arrivals : List Incoming
arrivals = arrival 7 1 ∷ arrival 9 2 ∷ arrival 7 3 ∷ []

arrivals-AreRequests : AreRequests arrivals
arrivals-AreRequests =
    let seven = packet_with-IsTracePacket 7 0 4 (omega arith) (omega arith) in
    let nine = packet_with-IsTracePacket 9 0 4 (omega arith) (omega arith) in
    one_more _ _ seven (omega arith)
      (one_more _ _ nine (omega arith) (one_more _ _ seven (omega arith) no_request))

handle_all_refines_example :
    (t : Controller) × (handle_all same_values arrivals empty_controller
      ≡ some (
        t,
        send_trace_packet 1 (reply_to (packet_with 7 0 4) (switch_at 1 0) 1001 91 0) flood
            ∷ send_trace_packet 2 (reply_to (packet_with 9 0 4) (switch_at 2 0) 1002 92 0) flood
            ∷ send_trace_packet 3 (reply_to (packet_with 7 0 4) (switch_at 3 0) 1003 93 1) flood
            ∷ [],
      ))
unfolding replies occurrences
handle_all_refines_example =
    handle_all_refines same_values arrivals empty_controller same_values-HasValues
      arrivals-AreRequests refl

abbrev with_port : Controller
with_port = record { net_map = (1, (5, 2) ∷ []) ∷ []; hop_rec = [] }

port_of-on_port_status_change_example :
    port_of 1 5 (on_port_status_change 1 2 minus_one64 with_port) ≡ some 2
unfolding port_of get
port_of-on_port_status_change_example = port_of-on_port_status_change 1 2 minus_one64 1 5 with_port

receive_packet-translate_to_pcap_example :
    (pkt : Packet) × (r : Region) × (c : Captured) × (bytes : List ℕ) × (t : Receiver)
    × (translate_to_pcap (packet_with 7 0 0) ≡ some pkt)
    × (set_packet true pkt zeros ≡ some (r, 79))
    × (get_packet (record { sec = 1; usec = 0; caplen = 79; len = 79 }) r 1 5 ≡ some c)
    × (c.payload ≡ some bytes)
    × (receive_packet same_values 990 (frame_type c.datalink) bytes no_replies ≡ some t)
    × (t.packets ≡ record (packet_with 7 0 0) { sw_info = misread (packet_with 7 0 0) } ∷ [])
receive_packet-translate_to_pcap_example =
    receive_packet-translate_to_pcap same_values 990 (packet_with 7 0 0) zeros
      (record { sec = 1; usec = 0; caplen = 79; len = 79 }) 5 no_replies same_values-HasValues
      (packet_with-IsTracePacket 7 0 0 (omega arith) (omega arith)) (omega arith) refl

-- Three requests of one probe, whose replies come twice and in another order.
abbrev path : List Incoming
path = arrival 7 1 ∷ arrival 7 2 ∷ arrival 7 3 ∷ []

path-AreRequests : AreRequests path
path-AreRequests =
    let seven = packet_with-IsTracePacket 7 0 4 (omega arith) (omega arith) in
    one_more _ _ seven (omega arith)
      (one_more _ _ seven (omega arith) (one_more _ _ seven (omega arith) no_request))

path-AreOfProbe : AreOfProbe 7 path
path-AreOfProbe = same_probe _ _ refl (same_probe _ _ refl (same_probe _ _ refl no_more))

abbrev came : List TracePacket
came = packet_with 9 2 0 ∷ packet_with 9 0 0 ∷ packet_with 9 2 0 ∷ packet_with 9 1 0 ∷ []

came-AreTracePackets : AreTracePackets came
came-AreTracePackets =
    let two = packet_with-IsTracePacket 9 2 0 (omega arith) (omega arith) in
    let one = packet_with-IsTracePacket 9 1 0 (omega arith) (omega arith) in
    let first = packet_with-IsTracePacket 9 0 0 (omega arith) (omega arith) in
    one_packet _ _ two (one_packet _ _ first (one_packet _ _ two (one_packet _ _ one no_packet)))

came-delivered : (h : ℕ) → has_hop h came ≡ has_hop h (packets_of (replies [] path))
unfolding has_hop replies occurrences
came-delivered h = ground arith

report-handle_all_example :
    (c : Controller) × (t : Receiver) × (handle_all same_values path empty_controller
      ≡ some (c, replies [] path))
    × (receive_all same_values 990 came no_replies ≡ some t)
    × (hops (report t.packets) ≡ 0 ∷ 1 ∷ 2 ∷ [])
report-handle_all_example =
    report-handle_all same_values 7 990 path empty_controller came same_values-HasValues
      path-AreRequests path-AreOfProbe refl (omega arith) came-AreTracePackets came-delivered

abbrev known_network : TraceModule
known_network = record {
  devices = [];
  tracer = record { net_map = (3, (9, 4) ∷ []) ∷ []; hop_rec = [] };
}

abbrev two_ports : List (ℕ × ℕ)
two_ports = (1, 17) ∷ (2, 18) ∷ []

two_ports-IsNoPort : IsNoPort 5 two_ports
two_ports-IsNoPort = (ground arith, (ground arith, tt))

port_of-switch_added_example :
    let added = device_added 5 ((1, 2) ∷ []) known_network in
    let after = (switch_added 1 two_ports added).0 in
    (port_of 1 5 added.tracer ≡ some 2)
    × (port_of 1 5 after.tracer ≡ none)
    × (port_of 3 9 after.tracer ≡ some 4)
unfolding port_of get
port_of-switch_added_example =
    port_of-switch_added 1 2 5 3 9 two_ports known_network two_ports-IsNoPort refl
