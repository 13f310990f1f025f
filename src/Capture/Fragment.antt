-- ===== src/Capture/Fragment.antt =====
-- `get_packet` on a captured Ethernet frame that holds an IPv4 fragment that is not the first.
use j_sdntrace.Datalink.{ethernet_value, analyze_datalink}
use j_sdntrace.Base.{ℕ, ◌+◌, ◌-◌, ◌%◌, ◌≤◌, ◌<◌, ◌≡◌, refl, ◌≢◌, some, arith}
use j_sdntrace.Wire.{Region, le16, ntohs, from, slice, skip}
use j_sdntrace.Ip.{ip_hlen, ip_value}
use j_sdntrace.Protocol.{
  sub16, classify, ipv4_proto, transport_proto, checked_proto, ip_object, kind_of,
}
use j_sdntrace.Capture.{
  PacketHeader, ipv4, no_transport, advance, network_layer, trimmed, transport_layer, cut_arrays,
  set_arrays, captured_view, get_packet,
}
use j_sdntrace.Capture.Complete.{options_of, analyze_ip-whole}

-- The frame's type is IPv4; the IPv4 header has `h` bytes and an offset other than 0, and the `n` bytes
-- of the fragment, as the header counts them, were all captured.
abbrev pub IsLaterFragment : PacketHeader → Region → ℕ → ℕ → Type 0
IsLaterFragment value bytes h n =
    (ntohs (le16 bytes 12) ≡ 0x0800)
    × (ip_hlen (from bytes 14) ≡ h)
    × (20 ≤ h)
    × (ntohs (le16 bytes 20) % 8192 ≢ 0)
    × (h < n)
    × (ntohs (le16 bytes 16) ≡ n)
    × (14 + n ≤ value.caplen)
    × (value.caplen < 32768)

module _ (value : PacketHeader) (bytes : Region) (h n : ℕ)
    (later : IsLaterFragment value bytes h n) where
  classify_later : classify (captured_view value bytes) 1 ≡ some (0x0800, value.caplen - 14)
  unfolding classify
  classify_later = ground (arith, later)

  transport_proto_later :
      (junk : ℕ)
      → transport_proto (captured_view value bytes) 1 0x0800 (value.caplen - 14) junk
        ≡ some (0x0800, value.caplen - 14 - h)
  unfolding transport_proto ipv4_proto
  transport_proto_later junk = ground (arith, later)

  network_layer_later :
      network_layer (captured_view value bytes) value.caplen 1 0x0800
      ≡ some (ipv4 (ip_value (from bytes 14) (options_of (from bytes 14) h)), n, h)
  unfolding network_layer
  network_layer_later =
      rw
        (
          analyze_ip-whole (skip (captured_view value bytes) 14) (omega (arith, later))
              (omega (arith, later)),
          later.1,
          later.5,
        )
        refl

  trimmed_later : trimmed value.caplen 1 0x0800 0x0800 n ≡ n
  trimmed_later = ground (arith, later)

  set_arrays_later :
      set_arrays (captured_view value bytes) (14 + h) (n - h) 0
      ≡ some (slice bytes 0 (14 + h), some (slice (from bytes (14 + h)) 0 (n - h)))
  unfolding set_arrays cut_arrays
  set_arrays_later = ground (arith, later)

  datalink_later :
      analyze_datalink (captured_view value bytes) 1
      ≡ some (ethernet_value (slice bytes 0 6) (slice bytes 6 6) 0x0800)
  unfolding analyze_datalink
  datalink_later = ground (arith, later)

-- An Ethernet frame, captured to its end with fewer than 32768 captured bytes, holds an IPv4
-- fragment that is not the first, of n bytes with a header of h bytes, 20 at least and fewer than
-- n: whatever protocol it carries, `get_packet` returns an IPPacket with no transport fields, whose
-- IPv4 fields are read at their places, whose header is the 14 + h bytes of the two headers, and
-- whose data are the n - h bytes behind them. What the stack held does not matter.
pub get_packet_fragment :
    (value : PacketHeader) (bytes : Region) (h n junk : ℕ)
    → IsLaterFragment value bytes h n
    → get_packet value bytes 1 junk
      ≡ some (record {
        kind = ip_object;
        value = value;
        datalink = ethernet_value (slice bytes 0 6) (slice bytes 6 6) 0x0800;
        network = ipv4 (ip_value (from bytes 14) (options_of (from bytes 14) h));
        transport = no_transport;
        header = slice bytes 0 (14 + h);
        payload = some (slice (from bytes (14 + h)) 0 (n - h));
      })
unfolding get_packet transport_layer checked_proto kind_of
get_packet_fragment value bytes h n junk later =
    let behind : sub16 n h ≡ n - h = omega (arith, later) in
    let pos : advance 14 h ≡ 14 + h = ground (arith, later) in
    rw
      (
        classify_later value bytes h n later,
        transport_proto_later value bytes h n later junk,
        network_layer_later value bytes h n later,
        trimmed_later value bytes h n later,
        behind,
        pos,
        datalink_later value bytes h n later,
        set_arrays_later value bytes h n later,
      )
      refl
