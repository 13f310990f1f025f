-- ===== src/Capture/Ipv6Plain.antt =====
-- `get_packet` on a captured Ethernet frame that holds an IPv6 packet with no extension headers.
use j_sdntrace.Datalink.{ethernet_value, analyze_datalink}
use j_sdntrace.Tcp.{tcp_value, tcp_hlen, analyze_tcp}
use j_sdntrace.Base.{
  le→leb, ℕ, suc, ◌+◌, ◌-◌, ◌%◌, ◌≤◌, ◌<◌, ◌≡◌, refl, ap, ◌∙◌, true, false, some, [], arith,
}
use j_sdntrace.Wire.{Region, le16, ntohs, from, slice, View, skip}
use j_sdntrace.Ipv6.{ipv6_value, is_extension, extensions, analyze_ipv6}
use j_sdntrace.Protocol.{
  unknown_proto, sub16, positive16, classify, chain, ipv6_proto, transport_proto, checked_proto,
  tcp_object, kind_of,
}
use j_sdntrace.Capture.{
  PacketHeader, ipv6, TransportValue, tcp, network_layer, trimmed, transport_layer, cut_arrays,
  set_arrays, captured_view, get_packet,
}
use j_sdntrace.Capture.Complete.{options_of, within_lem, analyze_tcp-whole}

-- The frame's type is IPv6; the header names `protocol`, which is no extension header, and the `n`
-- bytes behind it, as the header counts them, were all captured.
abbrev pub IsPlainIpv6 : PacketHeader → Region → ℕ → ℕ → Type 0
IsPlainIpv6 value bytes protocol n =
    (ntohs (le16 bytes 12) ≡ 0x86dd)
    × (bytes 20 ≡ protocol)
    × (is_extension protocol ≡ false)
    × (ntohs (le16 bytes 18) ≡ n)
    × (54 + n ≤ value.caplen)
    × (value.caplen < 32768)

no_extensions :
    (fuel proto hlen : ℕ) (v : View)
    → is_extension proto ≡ false
    → extensions (suc fuel) proto v hlen ≡ some ([], hlen)
unfolding extensions
no_extensions fuel proto hlen v stop = rw stop refl

no_chain :
    (fuel proto clen : ℕ) (v : View)
    → is_extension proto ≡ false
    → chain (suc fuel) v proto clen ≡ some (proto, clen)
unfolding chain
no_chain fuel proto clen v stop = rw stop refl

analyze_ipv6-plain :
    (v : View)
    → is_extension (v.bytes 6) ≡ false
    → 40 ≤ v.size
    → analyze_ipv6 v ≡ some (ipv6_value v.bytes, [], 40)
unfolding analyze_ipv6
analyze_ipv6-plain v stop fits =
    within_lem v 40 _ fits ∙ rw (no_extensions v.size (v.bytes 6) 40 (skip v 40) stop) refl

module _ (value : PacketHeader) (bytes : Region) (protocol n : ℕ)
    (plain : IsPlainIpv6 value bytes protocol n) where
  classify_v6 : classify (captured_view value bytes) 1 ≡ some (0x86dd, value.caplen - 14)
  unfolding classify
  classify_v6 = ground (arith, plain)

  ipv6_proto_v6 :
      (junk : ℕ)
      → 0 < n
      → ipv6_proto (skip (captured_view value bytes) 14) (value.caplen - 14) junk
        ≡ some (protocol, value.caplen - 54)
  unfolding ipv6_proto
  ipv6_proto_v6 junk more =
      let cut : sub16 (value.caplen - 14) 40 ≡ value.caplen - 54 = omega (arith, plain) in
      let positive : positive16 (value.caplen - 54) ≡ true = ground (arith, plain) in
      rw
        (
          ipv6_proto,
          cut,
          positive,
          le→leb 7 (value.caplen - 14) (omega (arith, plain)),
          plain.1,
          no_chain 4096 protocol (value.caplen - 54) (skip (captured_view value bytes) 14) plain.2,
        )
        refl

  transport_proto_v6 :
      (junk : ℕ)
      → 0 < n
      → transport_proto (captured_view value bytes) 1 0x86dd (value.caplen - 14) junk
        ≡ some (protocol, value.caplen - 54)
  unfolding transport_proto
  transport_proto_v6 junk more =
      let positive : positive16 (value.caplen - 14) ≡ true = ground (arith, plain) in
      rw (transport_proto, positive) (ipv6_proto_v6 junk more)

  network_layer_v6 :
      network_layer (captured_view value bytes) value.caplen 1 0x86dd
      ≡ some (ipv6 (ipv6_value (from bytes 14)) [], n + 40, 40)
  unfolding network_layer
  network_layer_v6 =
      let total : (ntohs (le16 bytes 18) + 40) % 65536 ≡ n + 40 = omega (arith, plain) in
      rw
        (
          analyze_ipv6-plain (skip (captured_view value bytes) 14)
              (ap is_extension plain.1 ∙ plain.2) (omega (arith, plain)),
          total,
        )
        refl

  trimmed_v6 :
      ¬ (protocol ≡ unknown_proto) → trimmed value.caplen 1 0x86dd protocol (n + 40) ≡ n + 40
  trimmed_v6 known = ground (arith, plain)

  set_arrays_v6 :
      (hlen : ℕ)
      → hlen ≤ n
      → set_arrays (captured_view value bytes) 54 n hlen
        ≡ some (slice bytes 0 (54 + hlen), some (slice (from bytes (54 + hlen)) 0 (n - hlen)))
  unfolding set_arrays cut_arrays
  set_arrays_v6 hlen room = ground (arith, plain)

  datalink_v6 :
      analyze_datalink (captured_view value bytes) 1
      ≡ some (ethernet_value (slice bytes 0 6) (slice bytes 6 6) 0x86dd)
  unfolding analyze_datalink
  datalink_v6 = ground (arith, plain)

  get_packet_v6 :
      (junk hlen : ℕ) (value_handed : TransportValue)
      → 0 < n
      → hlen ≤ n
      → checked_proto protocol (value.caplen - 54) ≡ protocol
      → ¬ (protocol ≡ unknown_proto)
      → transport_layer (skip (captured_view value bytes) 54) protocol n ≡ some (value_handed, hlen)
      → get_packet value bytes 1 junk
        ≡ some (record {
          kind = kind_of 0x86dd protocol;
          value = value;
          datalink = ethernet_value (slice bytes 0 6) (slice bytes 6 6) 0x86dd;
          network = ipv6 (ipv6_value (from bytes 14)) [];
          transport = value_handed;
          header = slice bytes 0 (54 + hlen);
          payload = some (slice (from bytes (54 + hlen)) 0 (n - hlen));
        })
  unfolding get_packet
  get_packet_v6 junk hlen value_handed more room checked known found =
      let behind : sub16 (n + 40) 40 ≡ n = omega (arith, plain) in
      rw
        (
          classify_v6,
          transport_proto_v6 junk more,
          checked,
          network_layer_v6,
          trimmed_v6 known,
          behind,
          datalink_v6,
          found,
          set_arrays_v6 hlen room,
        )
        refl

-- An Ethernet frame, captured to its end with fewer than 32768 captured bytes, holds an IPv6 packet
-- of n bytes behind the IPv6 header with no extension header: a TCP segment with a header of o
-- bytes, 20 at least, that fits in the n bytes. `get_packet` returns a TCPPacket: the addresses,
-- the IPv6 and the TCP fields are read at their places, no option header is added, the header is
-- the 54 + o bytes of the three headers, and the data are the n - o bytes behind them. What the
-- stack held does not matter.
pub get_packet_ipv6_tcp :
    (value : PacketHeader) (bytes : Region) (n o junk : ℕ)
    → IsPlainIpv6 value bytes 6 n
    → tcp_hlen (from bytes 54) ≡ o
    → 20 ≤ o
    → o ≤ n
    → get_packet value bytes 1 junk
      ≡ some (record {
        kind = tcp_object;
        value = value;
        datalink = ethernet_value (slice bytes 0 6) (slice bytes 6 6) 0x86dd;
        network = ipv6 (ipv6_value (from bytes 14)) [];
        transport = tcp (tcp_value (from bytes 54) (options_of (from bytes 54) o));
        header = slice bytes 0 (54 + o);
        payload = some (slice (from bytes (54 + o)) 0 (n - o));
      })
unfolding transport_layer checked_proto kind_of
get_packet_ipv6_tcp value bytes n o junk plain offset low room =
    let v = skip (captured_view value bytes) 54 in
    let read : analyze_tcp v ≡ some (tcp_value v.bytes (options_of v.bytes o), o) =
      analyze_tcp-whole v (omega (arith, offset)) (omega (arith, plain, offset)) ∙ rw offset refl in
    get_packet_v6 value bytes 6 n plain junk o _ (omega arith) room (ground (arith, plain))
      (ground arith) (rw read refl)
