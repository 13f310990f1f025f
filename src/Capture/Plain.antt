-- ===== src/Capture/Plain.antt =====
-- `get_packet` on link types it does not know, and on ARP.
use j_sdntrace.Arp.{ArpValue, analyze_arp}
use j_sdntrace.Capture.Truncated.{analyze_datalink-some}
use j_sdntrace.Base.{Bool-cases, ℕ, ◌-◌, ◌≤◌, ◌<◌, ◌≡◌, refl, ◌≢◌, ◌⊎◌, inl, inr, some, [], arith}
use j_sdntrace.Wire.{Region, le16, ntohs, slice, View, skip}
use j_sdntrace.Datalink.{datalink_value, ethernet_value, analyze_datalink}
use j_sdntrace.Protocol.{
  unknown_proto, sub16, positive16, classify, arp_proto, transport_proto, checked_proto, arp_object,
  packet_object, kind_of,
}
use j_sdntrace.Capture.{
  PacketHeader, arp, no_network, no_transport, advance, network_layer, trimmed, transport_layer,
  cut_arrays, set_arrays, captured_view, get_packet,
}

-- A transport protocol that no transport layer answers to.
checked_proto-plain :
    (tproto clen : ℕ)
    → (tproto ≢ 6) × (tproto ≢ 17) × (tproto ≢ 1) ⊎ (clen ≡ 0)
    → (checked_proto tproto clen ≢ 6)
      × (checked_proto tproto clen ≢ 17)
      × (checked_proto tproto clen ≢ 1)
unfolding checked_proto
checked_proto-plain tproto clen plain = ground arith

transport_layer-none :
    (v : View) (tproto clen : ℕ)
    → (tproto ≢ 6) × (tproto ≢ 17) × (tproto ≢ 1)
    → transport_layer v tproto clen ≡ some (no_transport, 0)
unfolding transport_layer
transport_layer-none v tproto clen plain = ground arith

kind_of-none :
    (tproto : ℕ)
    → (tproto ≢ 6) × (tproto ≢ 17) × (tproto ≢ 1)
    → (kind_of unknown_proto tproto ≡ packet_object) × (kind_of 0x0806 tproto ≡ arp_object)
unfolding kind_of
kind_of-none tproto plain = ground arith

transport_proto-plain :
    (v : View) (linktype clen junk : ℕ)
    → clen < 32768
    → (p : ℕ × ℕ) × (transport_proto v linktype unknown_proto clen junk ≡ some p)
      × ((p.0 ≡ unknown_proto) ⊎ (p.1 ≡ 0))
unfolding transport_proto
transport_proto-plain v linktype clen junk small = elim (Bool-cases (positive16 clen)) [
  | inl positive ↦ ((unknown_proto, clen), rw positive refl, inl refl)
  | inr zero_left ↦ ((junk, clen), rw zero_left refl, inr (ground arith))
]

classify-unknown :
    (v : View) (linktype : ℕ)
    → linktype ≢ 1
    → linktype ≢ 6
    → linktype ≢ 12
    → v.size < 32768
    → classify v linktype ≡ some (unknown_proto, v.size)
unfolding classify
classify-unknown v linktype no_ether no_ieee no_raw small = ground arith

analyze_datalink-plain :
    (v : View) (linktype : ℕ) → linktype ≢ 1 → analyze_datalink v linktype ≡ some datalink_value
unfolding analyze_datalink
analyze_datalink-plain v linktype no_ether = ground arith

network_layer-unknown :
    (v : View) (linktype : ℕ)
    → v.size < 32768
    → network_layer v v.size linktype unknown_proto ≡ some (no_network, v.size, 0)
unfolding network_layer
network_layer-unknown v linktype small = ground arith

set_arrays-all :
    (v : View)
    → v.size < 32768
    → set_arrays v (advance 0 0) (sub16 v.size 0) 0 ≡ some ([], some (slice v.bytes 0 v.size))
unfolding set_arrays cut_arrays
set_arrays-all v small = ground arith

-- On a link type that is neither Ethernet, IEEE 802 nor raw IP, with fewer than 32768 bytes captured,
-- `get_packet` returns a plain Packet with an empty header and all the captured bytes as its data,
-- whatever they are and whatever the stack held.
pub get_packet_unknown_link :
    (value : PacketHeader) (bytes : Region) (linktype junk : ℕ)
    → linktype ≢ 1
    → linktype ≢ 6
    → linktype ≢ 12
    → value.caplen < 32768
    → get_packet value bytes linktype junk
      ≡ some (record {
        kind = packet_object;
        value = value;
        datalink = datalink_value;
        network = no_network;
        transport = no_transport;
        header = [];
        payload = some (slice bytes 0 value.caplen);
      })
unfolding get_packet
get_packet_unknown_link value bytes linktype junk no_ether no_ieee no_raw small =
    let v = captured_view value bytes in
    let (p, found, plain_p) = transport_proto-plain v linktype value.caplen junk small in
    let plain = checked_proto-plain p.0 p.1 (ground arith) in
    rw
      (
        classify-unknown v linktype no_ether no_ieee no_raw small,
        found,
        analyze_datalink-plain v linktype no_ether,
        network_layer-unknown v linktype small,
        transport_layer-none (skip v 0) (checked_proto p.0 p.1) (sub16 value.caplen 0) plain,
        set_arrays-all v small,
        (kind_of-none (checked_proto p.0 p.1) plain).0,
      )
      refl

transport_proto-arp :
    (v : View) (clen junk : ℕ)
    → 28 ≤ clen
    → clen < 32768
    → (p : ℕ × ℕ) × (transport_proto v 1 0x0806 clen junk ≡ some p) × ((p.0 ≡ 0x0806) ⊎ (p.1 ≡ 0))
unfolding transport_proto arp_proto
transport_proto-arp v clen junk room small = elim (Bool-cases (positive16 (sub16 clen 28))) [
  | inl positive ↦ ((0x0806, sub16 clen 28), ground arith, inl refl)
  | inr none_left ↦ ((junk, sub16 clen 28), ground arith, inr (ground arith))
]

classify-arp :
    (v : View)
    → ntohs (le16 v.bytes 12) ≡ 0x0806
    → 14 ≤ v.size
    → v.size < 32768
    → classify v 1 ≡ some (0x0806, v.size - 14)
unfolding classify
classify-arp v frame room small = ground arith

-- The message of an Ethernet ARP frame, as it stands at the frame's 14th byte.
abbrev pub arp_message : Region → ArpValue
arp_message r = record {
  hrd = ntohs (le16 r 14);
  pro = ntohs (le16 r 16);
  hl = 6;
  pl = 4;
  op = ntohs (le16 r 20);
  sha = slice r 22 6;
  spa = slice r 28 4;
  tha = slice r 32 6;
  tpa = slice r 38 4;
}

network_layer-arp :
    (value : PacketHeader) (bytes : Region)
    → bytes 18 ≡ 6
    → bytes 19 ≡ 4
    → 42 ≤ value.caplen
    → network_layer (captured_view value bytes) value.caplen 1 0x0806
      ≡ some (arp (arp_message bytes), 28, 28)
unfolding network_layer analyze_arp
network_layer-arp value bytes hard proto room = ground arith

trimmed-arp :
    (caplen tproto : ℕ) → 42 ≤ caplen → caplen < 32768 → trimmed caplen 1 0x0806 tproto 28 ≡ 28
trimmed-arp caplen tproto room small = ground arith

set_arrays-arp : (v : View) → 42 ≤ v.size → set_arrays v 42 0 0 ≡ some (slice v.bytes 0 42, some [])
unfolding set_arrays cut_arrays
set_arrays-arp v room = ground arith

-- On an Ethernet frame of type 0x0806 with hardware addresses of six bytes and protocol addresses of
-- four, of which at least 42 bytes were captured, `get_packet` returns an ARPPacket with the message's
-- fields and addresses, the 42 bytes of the two headers as its header, and no data. This is so with 42
-- bytes exactly as well, where nothing sets the transport protocol and the stack's value decides it.
pub get_packet_arp :
    (value : PacketHeader) (bytes : Region) (junk : ℕ)
    → ntohs (le16 bytes 12) ≡ 0x0806
    → bytes 18 ≡ 6
    → bytes 19 ≡ 4
    → 42 ≤ value.caplen
    → value.caplen < 32768
    → get_packet value bytes 1 junk
      ≡ some (record {
        kind = arp_object;
        value = value;
        datalink = ethernet_value (slice bytes 0 6) (slice bytes 6 6) 0x0806;
        network = arp (arp_message bytes);
        transport = no_transport;
        header = slice bytes 0 42;
        payload = some [];
      })
unfolding get_packet
get_packet_arp value bytes junk frame hard proto room small =
    let v = captured_view value bytes in
    let (p, found, plain_p) =
      transport_proto-arp v (value.caplen - 14) junk (omega arith) (omega arith) in
    let plain = checked_proto-plain p.0 p.1 (ground arith) in
    rw
      (
        classify-arp v frame (omega arith) small,
        found,
        analyze_datalink-some v (omega arith),
        frame,
        network_layer-arp value bytes hard proto room,
        trimmed-arp value.caplen (checked_proto p.0 p.1) room small,
        transport_layer-none (skip v 42) (checked_proto p.0 p.1) 0 plain,
        set_arrays-arp v room,
        (kind_of-none (checked_proto p.0 p.1) plain).1,
      )
      refl
