-- ===== src/Capture/Truncated.antt =====
-- `get_packet` on frames that the capture cuts off.
use j_sdntrace.Base.{◌==◌, if◌then◌else◌, ℕ, ◌+◌, ◌-◌, ◌%◌, ◌≤◌, ◌<◌, ◌≡◌, refl, none, some, arith}
use j_sdntrace.Datalink.{ethernet_value, analyze_datalink}
use j_sdntrace.Capture.Complete.{options_of, analyze_ip-whole}
use j_sdntrace.Wire.{Region, le16, ntohs, from, slice, View, skip}
use j_sdntrace.Ip.{ip_hlen, ip_value}
use j_sdntrace.Protocol.{
  unknown_proto, sub16, offset_data, classify, ipv4_proto, transport_proto, checked_proto,
}
use j_sdntrace.Capture.{
  PacketHeader, ipv4, no_transport, advance, network_layer, trimmed, transport_layer, cut_arrays,
  set_arrays, captured_view, get_packet,
}

transport_proto-cut :
    (value : PacketHeader) (bytes : Region) (h junk : ℕ)
    → ip_hlen (from bytes 14) ≡ h
    → ntohs (le16 bytes 20) % 8192 ≡ 0
    → 20 ≤ h
    → 14 + h < value.caplen
    → value.caplen < 32768
    → transport_proto (captured_view value bytes) 1 0x0800 (value.caplen - 14) junk
      ≡ some (bytes 23, value.caplen - 14 - h)
unfolding transport_proto ipv4_proto
transport_proto-cut value bytes h junk header first low room small = ground arith

transport_layer-unknown :
    (v : View) (clen : ℕ) → transport_layer v unknown_proto clen ≡ some (no_transport, 0)
unfolding transport_layer
transport_layer-unknown v clen = ground arith

set_arrays-overread :
    (v : View) (pos clen : ℕ)
    → pos < 32768
    → clen < 32768
    → v.size < pos + clen
    → 0 < clen
    → set_arrays v pos clen 0 ≡ none
unfolding set_arrays cut_arrays
set_arrays-overread v pos clen near small past some_data = ground arith

network_layer-ipv4 :
    (value : PacketHeader) (bytes : Region) (h : ℕ)
    → ip_hlen (from bytes 14) ≡ h
    → 20 ≤ h
    → 14 + h ≤ value.caplen
    → network_layer (captured_view value bytes) value.caplen 1 0x0800
      ≡ some
          (ipv4 (ip_value (from bytes 14) (options_of (from bytes 14) h)), ntohs (le16 bytes 16), h)
unfolding network_layer
network_layer-ipv4 value bytes h header low room =
    rw
      (
        analyze_ip-whole (skip (captured_view value bytes) 14) (omega (arith, header))
            (omega (arith, header)),
        header,
      )
      refl

classify-ipv4 :
    (value : PacketHeader) (bytes : Region)
    → ntohs (le16 bytes 12) ≡ 0x0800
    → 14 ≤ value.caplen
    → value.caplen < 32768
    → classify (captured_view value bytes) 1 ≡ some (0x0800, value.caplen - 14)
unfolding classify
classify-ipv4 value bytes frame low small = ground arith

pub analyze_datalink-some :
    (v : View)
    → 14 ≤ v.size
    → analyze_datalink v 1
      ≡ some (ethernet_value (slice v.bytes 0 6) (slice v.bytes 6 6) (ntohs (le16 v.bytes 12)))
unfolding analyze_datalink
analyze_datalink-some v room = ground arith

checked_proto-cut : (clen : ℕ) → clen < 20 → checked_proto 6 clen ≡ unknown_proto
unfolding checked_proto
checked_proto-cut clen short = ground arith

advance-ipv4 :
    (h : ℕ) → h < 32768 → advance (if 0x0800 == unknown_proto then 0 else offset_data 1) h ≡ 14 + h
advance-ipv4 h small = ground arith

trimmed-unknown : (caplen clen : ℕ) → trimmed caplen 1 0x0800 unknown_proto clen ≡ clen
trimmed-unknown caplen clen = ground arith

-- An Ethernet frame holds the first IPv4 fragment of a TCP datagram of n bytes, more than were
-- captured behind the Ethernet header and fewer than 32768, and the capture ends in the TCP header:
-- after its h bytes of IPv4 header, 20 at least, some of the next 20 are captured. The packet's
-- data are not cut to the capture then, and `get_packet` reads past the captured bytes.
pub get_packet_cut_overread :
    (value : PacketHeader) (bytes : Region) (h n junk : ℕ)
    → ntohs (le16 bytes 12) ≡ 0x0800
    → ip_hlen (from bytes 14) ≡ h
    → ntohs (le16 bytes 20) % 8192 ≡ 0
    → bytes 23 ≡ 6
    → ntohs (le16 bytes 16) ≡ n
    → 20 ≤ h
    → 14 + h < value.caplen
    → value.caplen < 14 + h + 20
    → value.caplen < 14 + n
    → n < 32768
    → get_packet value bytes 1 junk ≡ none
unfolding get_packet
get_packet_cut_overread value bytes h n junk frame header first protocol total low some_cut cut past
      small =
    let h_small : h < 64 = omega (arith, header) in
    let sub : sub16 n h ≡ n - h = omega arith in
    rw
      (
        classify-ipv4 value bytes frame (omega arith) (omega arith),
        transport_proto-cut value bytes h junk header first low some_cut (omega arith),
        protocol,
        checked_proto-cut (value.caplen - 14 - h) (omega arith),
        analyze_datalink-some (captured_view value bytes) (omega arith),
        network_layer-ipv4 value bytes h header low (omega arith),
        total,
        trimmed-unknown value.caplen n,
        sub,
        advance-ipv4 h (omega arith),
        transport_layer-unknown (skip (captured_view value bytes) (14 + h)) (n - h),
        set_arrays-overread (captured_view value bytes) (14 + h) (n - h) (omega arith) (omega arith)
            (omega arith) (omega arith),
      )
      refl
