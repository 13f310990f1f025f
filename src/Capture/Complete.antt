-- ===== src/Capture/Complete.antt =====
-- `get_packet` on a captured Ethernet frame that holds a whole TCP or UDP datagram.
use j_sdntrace.Tcp.{TcpValue, tcp_value, tcp_hlen, analyze_tcp}
use j_sdntrace.Udp.{analyze_udp}
use j_sdntrace.Datalink.{ethernet_value, analyze_datalink}
use j_sdntrace.Base.{
  ltb, ◌==◌, if◌then◌else◌, le→leb, ℕ, ◌+◌, ◌-◌, ◌%◌, ◌≤◌, ◌<◌, ◌≡◌, refl, ◌∙◌, Option, none, some,
  List, arith,
}
use j_sdntrace.Wire.{Region, le16, ntohs, from, slice, View, skip, within, new_array, ◌>>=◌}
use j_sdntrace.Ip.{IpValue, ip_hlen, ip_value, analyze_ip}
use j_sdntrace.Protocol.{
  unknown_proto, sub16, offset_data, classify, ipv4_proto, transport_proto, checked_proto,
  tcp_object, udp_object, kind_of,
}
use j_sdntrace.Capture.{
  PacketHeader, ipv4, TransportValue, tcp, udp, advance, network_layer, trimmed, transport_layer,
  cut_arrays, set_arrays, captured_view, get_packet,
}

-- The frame's type is IPv4; its first IPv4 fragment has a header of `h` bytes, carries `protocol`,
-- and its `n` bytes, as the header counts them, were all captured.
abbrev pub IsFirstFragment : PacketHeader → Region → ℕ → ℕ → ℕ → Type 0
IsFirstFragment value bytes protocol h n =
    (ntohs (le16 bytes 12) ≡ 0x0800)
    × (ip_hlen (from bytes 14) ≡ h)
    × (20 ≤ h)
    × (ntohs (le16 bytes 20) % 8192 ≡ 0)
    × (bytes 23 ≡ protocol)
    × (ntohs (le16 bytes 16) ≡ n)
    × (14 + n ≤ value.caplen)
    × (value.caplen < 32768)

-- What the options behind a header of 20 bytes are handed over as.
abbrev pub options_of : Region → ℕ → Option (List ℕ)
options_of r h = if ltb 20 h then some (slice r 20 (h - 20)) else none

pub within_lem {ℓ} : {A : Type ℓ} (v : View) (n : ℕ) (k : Option A) → n ≤ v.size → within v n k ≡ k
within_lem v n k fits = rw (le→leb n v.size fits) refl

options_lem :
    (v : View) (f : Option (List ℕ) → IpValue) (h : ℕ)
    → 20 ≤ h
    → h ≤ v.size
    → (if ltb 20 h
        then ◌>>=◌ {B = IpValue × ℕ} (new_array v 20 (h - 20)) (λ option. some (f (some option), h))
        else some (f none, h))
      ≡ some (f (options_of v.bytes h), h)
options_lem v f h low fits = ground arith

pub analyze_ip-whole :
    (v : View)
    → 20 ≤ ip_hlen v.bytes
    → ip_hlen v.bytes ≤ v.size
    → analyze_ip v ≡ some (ip_value v.bytes (options_of v.bytes (ip_hlen v.bytes)), ip_hlen v.bytes)
unfolding analyze_ip
analyze_ip-whole v low fits =
    within_lem v 20 _ (omega arith) ∙ options_lem v (ip_value v.bytes) (ip_hlen v.bytes) low fits

module _ (value : PacketHeader) (bytes : Region) (protocol h n : ℕ)
    (first : IsFirstFragment value bytes protocol h n) where
  classify_lem : h < n → classify (captured_view value bytes) 1 ≡ some (0x0800, value.caplen - 14)
  unfolding classify
  classify_lem more = ground (arith, first)

  transport_proto_lem :
      (junk : ℕ)
      → h < n
      → transport_proto (captured_view value bytes) 1 0x0800 (value.caplen - 14) junk
        ≡ some (protocol, value.caplen - 14 - h)
  unfolding transport_proto ipv4_proto
  transport_proto_lem junk more = ground (arith, first)

  network_layer_lem :
      h < n
      → network_layer (captured_view value bytes) value.caplen 1 0x0800
        ≡ some (ipv4 (ip_value (from bytes 14) (options_of (from bytes 14) h)), n, h)
  unfolding network_layer
  network_layer_lem more =
      rw
        (
          analyze_ip-whole (skip (captured_view value bytes) 14) (omega (arith, first))
              (omega (arith, first)),
          first.1,
          first.5,
        )
        refl

  trimmed_lem : h < n → ¬ (protocol ≡ unknown_proto) → trimmed value.caplen 1 0x0800 protocol n ≡ n
  trimmed_lem more known = ground (arith, first)

  sub16_lem : h < n → sub16 n h ≡ n - h
  sub16_lem more = omega (arith, first)

  set_arrays_lem :
      (hlen : ℕ)
      → h + hlen ≤ n
      → set_arrays (captured_view value bytes) (14 + h) (n - h) hlen
        ≡ some (
          slice bytes 0 (14 + h + hlen),
          some (slice (from bytes (14 + h + hlen)) 0 (n - h - hlen)),
        )
  unfolding set_arrays cut_arrays
  set_arrays_lem hlen room = ground (arith, first)

  advance_lem : h < n → advance (if 0x0800 == unknown_proto then 0 else offset_data 1) h ≡ 14 + h
  advance_lem more = ground (arith, first)

  datalink_lem :
      analyze_datalink (captured_view value bytes) 1
      ≡ some (ethernet_value (slice bytes 0 6) (slice bytes 6 6) 0x0800)
  unfolding analyze_datalink
  datalink_lem = ground (arith, first)

  pub get_packet_lem :
      (junk hlen : ℕ) (value_handed : TransportValue)
      → h + hlen ≤ n
      → h < n
      → checked_proto protocol (value.caplen - 14 - h) ≡ protocol
      → ¬ (protocol ≡ unknown_proto)
      → transport_layer (skip (captured_view value bytes) (14 + h)) protocol (n - h)
        ≡ some (value_handed, hlen)
      → get_packet value bytes 1 junk
        ≡ some (record {
          kind = kind_of 0x0800 protocol;
          value = value;
          datalink = ethernet_value (slice bytes 0 6) (slice bytes 6 6) 0x0800;
          network = ipv4 (ip_value (from bytes 14) (options_of (from bytes 14) h));
          transport = value_handed;
          header = slice bytes 0 (14 + h + hlen);
          payload = some (slice (from bytes (14 + h + hlen)) 0 (n - h - hlen));
        })
  unfolding get_packet
  get_packet_lem junk hlen value_handed room more checked known found =
      rw
        (
          classify_lem (omega arith),
          transport_proto_lem junk (omega arith),
          checked,
          network_layer_lem (omega arith),
          trimmed_lem (omega arith) known,
          sub16_lem (omega arith),
          advance_lem (omega arith),
          datalink_lem,
          found,
          set_arrays_lem hlen room,
        )
        refl

tcp_options_lem :
    (v : View) (h : ℕ)
    → 20 ≤ h
    → h ≤ v.size
    → (if ltb 20 h
        then ◌>>=◌ {B = TcpValue × ℕ}
            (new_array v 20 (h - 20))
            (λ option. some (tcp_value v.bytes (some option), h))
        else some (tcp_value v.bytes none, h))
      ≡ some (tcp_value v.bytes (options_of v.bytes h), h)
tcp_options_lem v h low fits = ground arith

pub analyze_tcp-whole :
    (v : View)
    → 20 ≤ tcp_hlen v.bytes
    → tcp_hlen v.bytes ≤ v.size
    → analyze_tcp v
      ≡ some (tcp_value v.bytes (options_of v.bytes (tcp_hlen v.bytes)), tcp_hlen v.bytes)
unfolding analyze_tcp
analyze_tcp-whole v low fits =
    within_lem v 20 _ (omega arith) ∙ tcp_options_lem v (tcp_hlen v.bytes) low fits

-- An Ethernet frame, captured to its end with fewer than 32768 captured bytes, holds the first IPv4
-- fragment of a TCP datagram, with headers of h and o bytes, 20 at least each, that fit in the
-- datagram's n bytes. `get_packet` returns a TCPPacket: the addresses, the IPv4 and the TCP fields
-- are read at their places, the header is the 14 + h + o bytes of the three headers, and the data
-- are the n - h - o bytes behind them; what the frame holds after the datagram is no part of it.
-- What the stack held does not matter.
pub get_packet_tcp :
    (value : PacketHeader) (bytes : Region) (h n o junk : ℕ)
    → IsFirstFragment value bytes 6 h n
    → tcp_hlen (from bytes (14 + h)) ≡ o
    → 20 ≤ o
    → h + o ≤ n
    → get_packet value bytes 1 junk
      ≡ some (record {
        kind = tcp_object;
        value = value;
        datalink = ethernet_value (slice bytes 0 6) (slice bytes 6 6) 0x0800;
        network = ipv4 (ip_value (from bytes 14) (options_of (from bytes 14) h));
        transport = tcp (tcp_value (from bytes (14 + h)) (options_of (from bytes (14 + h)) o));
        header = slice bytes 0 (14 + h + o);
        payload = some (slice (from bytes (14 + h + o)) 0 (n - h - o));
      })
unfolding transport_layer checked_proto kind_of
get_packet_tcp value bytes h n o junk first offset low room =
    let v = skip (captured_view value bytes) (14 + h) in
    let read : analyze_tcp v ≡ some (tcp_value v.bytes (options_of v.bytes o), o) =
      analyze_tcp-whole v (omega (arith, offset)) (omega (arith, first, offset)) ∙ rw offset refl in
    get_packet_lem value bytes 6 h n first junk o _ room (omega arith) (ground (arith, first))
      (ground arith) (rw read refl)

-- An Ethernet frame, captured to its end with fewer than 32768 captured bytes, holds the first IPv4
-- fragment, with a header of h bytes, 20 at least, of a UDP datagram whose 8 header bytes lie in
-- the datagram's n bytes. `get_packet` returns a UDPPacket, the header is the 14 + h + 8 bytes of
-- the three headers, the addresses, the IPv4 and the UDP fields are read at their places, and the
-- data are the n - h - 8 bytes behind the headers; what the frame holds after the datagram is no
-- part of it. What the stack held does not matter.
pub get_packet_udp :
    (value : PacketHeader) (bytes : Region) (h n junk : ℕ)
    → IsFirstFragment value bytes 17 h n
    → h + 8 ≤ n
    → get_packet value bytes 1 junk
      ≡ some (record {
        kind = udp_object;
        value = value;
        datalink = ethernet_value (slice bytes 0 6) (slice bytes 6 6) 0x0800;
        network = ipv4 (ip_value (from bytes 14) (options_of (from bytes 14) h));
        transport = udp (record {
          sport = ntohs (le16 (from bytes (14 + h)) 0);
          dport = ntohs (le16 (from bytes (14 + h)) 2);
          ulen = ntohs (le16 (from bytes (14 + h)) 4);
        });
        header = slice bytes 0 (14 + h + 8);
        payload = some (slice (from bytes (14 + h + 8)) 0 (n - h - 8));
      })
unfolding transport_layer checked_proto kind_of analyze_udp
get_packet_udp value bytes h n junk first room =
    get_packet_lem value bytes 17 h n first junk 8 _ room (omega arith) (ground (arith, first))
      (ground arith)
      (rw (within_lem (skip (captured_view value bytes) (14 + h)) 6 _ (omega (arith, first))) refl)
