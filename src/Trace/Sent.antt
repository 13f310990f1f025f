-- ===== src/Trace/Sent.antt =====
-- The probe from the client's `translateToPcap` through Jpcap to the callback of the client.
use j_sdntrace.Base.{ℕ, ◌+◌, ◌≤◌, ◌≡◌, refl, ap, ◌∙◌, true, Option, none, some, List, arith}
use j_sdntrace.Wire.{Region}
use j_sdntrace.Datalink.{DatalinkValue, datalink_value, ethernet_value}
use j_sdntrace.Objects.{EthernetPacket, Packet}
use j_sdntrace.Capture.{PacketHeader, Captured, get_packet}
use j_sdntrace.Capture.Other.{IsOther, plain_packet, get_packet-set_packet_other}
use j_sdntrace.Sender.{set_packet}
use j_sdntrace.Sender.Segment.{IsEthernet}
use j_sdntrace.Trace.{TracePacket, put_bytes, zero_bytes, OpenFlow}
use j_sdntrace.Trace.RoundTrip.{
  HasValues, IsTracePacket, packet_bytes, packet_length, serialize_packet_lem, length-packet_bytes,
}
use j_sdntrace.Trace.Misread.{misread}
use j_sdntrace.Trace.Receiver.{
  Receiver, trace_request, append_packet, receive_packet, translate_to_pcap,
}
use j_sdntrace.Trace.Collect.{received, receive_packet_lem}

-- The frame type, of an EthernetPacket.
abbrev pub frame_type : DatalinkValue → Option ℕ
frame_type datalink_value = none
frame_type (ethernet_value dst src t) = some t

abbrev trace_header : TracePacket → EthernetPacket
trace_header p = record {
  src_mac = put_bytes 6 p.source_mac;
  dst_mac = put_bytes 6 p.destination_mac;
  frametype = trace_request;
}

trace_request-IsOther : IsOther trace_request
trace_request-IsOther = record {
  fits = omega arith;
  no_ip = λ e. omega (arith, e);
  no_ipv6 = λ e. omega (arith, e);
  no_arp = λ e. omega (arith, e);
  no_rarp = λ e. omega (arith, e);
  no_tcp = λ e. omega (arith, e);
  no_udp = λ e. omega (arith, e);
  no_icmp = λ e. omega (arith, e);
}

trace_header-IsEthernet : (p : TracePacket) → IsEthernet (trace_header p)
unfolding put_bytes
trace_header-IsEthernet p = record {
  src_six = refl;
  dst_six = refl;
  frametype_fits = omega arith;
  src_bytes = ground arith;
  dst_bytes = ground arith;
}

-- A trace packet with fields of their widths, the lower half of the switch's number at most
-- 0xffffff00, and an identifier of at most 760 ASCII characters is made a packet for Jpcap, sent, and
-- exactly its frame is captured on an Ethernet link: what Jpcap hands to the client's callback has
-- the bytes of the trace packet as its data, and the callback collects it, with its switch misread.
-- It does so for a request as for a reply: the client's own probe is among its replies when it is
-- captured.
pub receive_packet-translate_to_pcap :
    (flow : OpenFlow) (start : ℕ) (p : TracePacket) (buf : Region) (value : PacketHeader) (junk : ℕ)
    (s : Receiver)
    → HasValues flow
    → IsTracePacket p
    → p.sw_info.cont_id.chars ≤ 760
    → value.caplen ≡ packet_length p + 14
    → (pkt : Packet) × (r : Region) × (c : Captured) × (bytes : List ℕ) × (t : Receiver)
      × (translate_to_pcap p ≡ some pkt)
      × (set_packet true pkt buf ≡ some (r, value.caplen))
      × (get_packet value r 1 junk ≡ some c)
      × (c.payload ≡ some bytes)
      × (receive_packet flow start (frame_type c.datalink) bytes s ≡ some t)
      × (t.packets ≡ append_packet s.packets (record p { sw_info = misread p }))
unfolding translate_to_pcap
receive_packet-translate_to_pcap flow start p buf value junk s h x short captured =
    let e = trace_header p in
    let bytes = packet_bytes p (packet_length p) (zero_bytes p.sw_info.cont_id.chars) in
    let size = length-packet_bytes p x in
    let (r, c, sent, got, kind, link, back) =
      get_packet-set_packet_other e bytes buf value junk (trace_header-IsEthernet p)
        trace_request-IsOther (omega (arith, size)) (omega (arith, size)) (omega (arith, size)) in
    (
      plain_packet e bytes,
      r,
      c,
      bytes,
      received start p s,
      rw (translate_to_pcap, serialize_packet_lem p x) refl,
      sent,
      got,
      back,
      ap (λ d. receive_packet flow start (frame_type d) bytes s) link
          ∙ receive_packet_lem flow start p s h x,
      refl,
    )
