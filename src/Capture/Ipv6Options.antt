-- ===== src/Capture/Ipv6Options.antt =====
-- `get_packet` on a captured Ethernet frame that holds an IPv6 packet with extension headers.
use j_sdntrace.Datalink.{ethernet_value, analyze_datalink}
use j_sdntrace.Base.{ℕ, ◌+◌, ◌-◌, ◌/◌, ◌%◌, ◌≤◌, ◌<◌, ◌≡◌, refl, true, some, List, arith}
use j_sdntrace.Wire.{Region, le16, ntohs, from, slice, View, skip}
use j_sdntrace.Ipv6.{Ipv6Option, ipv6_value, is_extension}
use j_sdntrace.Ipv6.Walk.{IsWalk, outlines, analyze_ipv6-walk}
use j_sdntrace.Protocol.{
  sub16, positive16, classify, chain_step, transport_proto, checked_proto, ip_object, kind_of,
}
use j_sdntrace.Protocol.Classify.{ipv6_extension-ip_object}
use j_sdntrace.Capture.{
  PacketHeader, ipv6, no_transport, advance, network_layer, trimmed, transport_layer, cut_arrays,
  set_arrays, captured_view, get_packet,
}

-- The frame's type is IPv6, the packet's version is 6, its header names an extension header, and
-- the `n` bytes behind it, as the header counts them, were all captured; they begin with the headers of a
-- walk, which take `total` bytes.
pub record IsExtendedIpv6 (value : PacketHeader) (bytes : Region) (n : ℕ)
    (headers : List (ℕ × ℕ × ℕ)) (total : ℕ) : Type 0 where
  pub frametype : ntohs (le16 bytes 12) ≡ 0x86dd
  pub version_six : bytes 14 / 16 ≡ 6
  pub extended : is_extension (bytes 20) ≡ true
  pub length_same : ntohs (le16 bytes 18) ≡ n
  pub some_bytes : 0 < n
  pub captured : 54 + n ≤ value.caplen
  pub small : value.caplen < 32768
  pub walk : IsWalk (bytes 20) (skip (skip (captured_view value bytes) 14) 40) headers total
  pub inside : total ≤ n

module _ (value : PacketHeader) (bytes : Region) (n : ℕ) (headers : List (ℕ × ℕ × ℕ)) (total : ℕ)
    (x : IsExtendedIpv6 value bytes n headers total) where
  classify_options : classify (captured_view value bytes) 1 ≡ some (0x86dd, value.caplen - 14)
  unfolding classify
  classify_options = ground (arith, x.frametype, x.small, x.captured)

  abbrev left : ℕ
  left = sub16 (value.caplen - 54) (chain_step (skip (captured_view value bytes) 14) (bytes 20))

  transport_proto_options :
      (junk : ℕ)
      → transport_proto (captured_view value bytes) 1 0x86dd (value.caplen - 14) junk
        ≡ some (bytes 14, left)
  unfolding transport_proto
  transport_proto_options junk =
      let positive : positive16 (value.caplen - 14) ≡ true = ground (arith, x.small, x.captured) in
      let less : value.caplen - 14 - 40 ≡ value.caplen - 54 = omega arith in
      let found =
        (ipv6_extension-ip_object (skip (captured_view value bytes) 14) junk x.version_six
          x.extended (omega (arith, x.captured, x.some_bytes)) (omega (arith, x.small))).0 in
      rw (transport_proto, positive) (rw less at found)

  checked_options : (c : ℕ) → checked_proto (bytes 14) c ≡ bytes 14
  unfolding checked_proto
  checked_options c = ground (arith, x.version_six)

  trimmed_options : trimmed value.caplen 1 0x86dd (bytes 14) (n + 40) ≡ n + 40
  trimmed_options = ground (arith, x.version_six, x.small, x.captured)

  transport_layer_options :
      (v : View) (clen : ℕ) → transport_layer v (bytes 14) clen ≡ some (no_transport, 0)
  unfolding transport_layer
  transport_layer_options v clen = ground (arith, x.version_six)

  kind_of_options : kind_of 0x86dd (bytes 14) ≡ ip_object
  unfolding kind_of
  kind_of_options = ground (arith, x.version_six)

  datalink_options :
      analyze_datalink (captured_view value bytes) 1
      ≡ some (ethernet_value (slice bytes 0 6) (slice bytes 6 6) 0x86dd)
  unfolding analyze_datalink
  datalink_options = ground (arith, x.frametype, x.captured)

  set_arrays_options :
      set_arrays (captured_view value bytes) (54 + total) (n - total) 0
      ≡ some (slice bytes 0 (54 + total), some (slice (from bytes (54 + total)) 0 (n - total)))
  unfolding set_arrays cut_arrays
  set_arrays_options = ground (arith, x.captured, x.small, x.inside)

  network_layer_options :
      (list : List Ipv6Option) × (network_layer (captured_view value bytes) value.caplen 1 0x86dd
        ≡ some (ipv6 (ipv6_value (from bytes 14)) list, n + 40, 40 + total))
      × (outlines list ≡ headers)
  unfolding network_layer
  network_layer_options =
      let (list, found, same) =
        analyze_ipv6-walk (skip (captured_view value bytes) 14) headers total
          (omega (arith, x.captured)) x.walk (omega (arith, x.inside, x.captured, x.small)) in
      let whole : (ntohs (le16 bytes 18) + 40) % 65536 ≡ n + 40 =
        omega (arith, x.length_same, x.captured, x.small) in
      (list, rw (found, whole) refl, same)

-- An Ethernet frame, captured to its end with fewer than 32768 captured bytes, holds a packet of IP
-- version 6 with n bytes, at least one, behind the IPv6 header, which begin with one or more
-- hop-by-hop, destination or fragment headers that take `total` bytes, n at most, and the last of
-- which names no extension header. `get_packet` returns an IPPacket, whatever transport protocol
-- the last header names: the addresses and the IPv6 fields are read at their places, it has an
-- option for each extension header, in order, the header is the 54 + total bytes up to the end of
-- the last one, and the data are the n - total bytes behind it. What the stack held does not
-- matter.
pub get_packet_ipv6_options :
    (value : PacketHeader) (bytes : Region) (n junk : ℕ) (headers : List (ℕ × ℕ × ℕ)) (total : ℕ)
    → IsExtendedIpv6 value bytes n headers total
    → (list : List Ipv6Option) × (get_packet value bytes 1 junk
        ≡ some (record {
          kind = ip_object;
          value = value;
          datalink = ethernet_value (slice bytes 0 6) (slice bytes 6 6) 0x86dd;
          network = ipv6 (ipv6_value (from bytes 14)) list;
          transport = no_transport;
          header = slice bytes 0 (54 + total);
          payload = some (slice (from bytes (54 + total)) 0 (n - total));
        }))
      × (outlines list ≡ headers)
unfolding get_packet
get_packet_ipv6_options value bytes n junk headers total x =
    let (list, found, same) = network_layer_options value bytes n headers total x in
    let behind : sub16 (n + 40) (40 + total) ≡ n - total =
      omega (arith, x.inside, x.captured, x.small) in
    let pos : advance 14 (40 + total) ≡ 54 + total =
      ground (arith, x.inside, x.captured, x.small) in
    (
      list,
      rw
          (
            classify_options value bytes n headers total x,
            transport_proto_options value bytes n headers total x junk,
            checked_options value bytes n headers total x (left value bytes n headers total x),
            found,
            trimmed_options value bytes n headers total x,
            behind,
            pos,
            datalink_options value bytes n headers total x,
            transport_layer_options value bytes n headers total x,
            set_arrays_options value bytes n headers total x,
            kind_of_options value bytes n headers total x,
          )
          refl,
      same,
    )
