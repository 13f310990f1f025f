-- ===== src/Protocol.antt =====
-- The first half of `get_packet` in JpcapCaptor.c: from the link type and the captured bytes to the
-- network protocol, the transport protocol and the class of the packet object.
pub mod Chain
pub mod Classify
use j_sdntrace.Base.{
  ltb, leb, ◌==◌, if◌then◌else◌, get_or, ℕ, zero, suc, ◌+◌, ◌-◌, ◌*◌, ◌%◌, Bool, not, ◌&&◌, ◌||◌,
  Option, none, some, [], ◌∷◌,
}
use j_sdntrace.Wire.{le16, ntohs, View, skip, within, ◌>>=◌}
use j_sdntrace.Ip.{ip_hlen}
use j_sdntrace.Ipv6.{is_extension}

-- UNKNOWN_PROTO
abbrev pub unknown_proto : ℕ
unknown_proto = 0xffff

-- A `short` is its bit pattern: subtraction, and the tests `c > 0` and `c < n`.
abbrev pub sub16 : ℕ → ℕ → ℕ
sub16 a b = (a + 65536 - b % 65536) % 65536

abbrev pub positive16 : ℕ → Bool
positive16 c = ltb 0 c && ltb c 32768

abbrev pub below16 : ℕ → ℕ → Bool
below16 c n = not (leb n c && ltb c 32768)

-- The tables, with -1 as a 32-bit pattern; no entry stands above DLT 14.
abbrev pub minus_one : ℕ
minus_one = 0xffff_ffff

abbrev pub offset_type : ℕ → ℕ
offset_type linktype =
    get_or
      (0 ∷ 12 ∷ minus_one ∷ minus_one ∷ minus_one ∷ minus_one ∷ 20 ∷ minus_one ∷ minus_one ∷ 2 ∷ 19
        ∷ 6 ∷ minus_one ∷ minus_one ∷ 5 ∷ [])
      linktype minus_one

abbrev pub offset_data : ℕ → ℕ
offset_data linktype =
    get_or
      (4 ∷ 14 ∷ minus_one ∷ minus_one ∷ minus_one ∷ minus_one ∷ 22 ∷ minus_one ∷ 16 ∷ 4 ∷ 21 ∷ 8 ∷ 0
        ∷ 24 ∷ 24 ∷ [])
      linktype minus_one

-- `get_network_type`
abbrev pub network_type : View → ℕ → Option ℕ
network_type v linktype =
    let i = offset_type linktype in within v (i + 2) (some (ntohs (le16 v.bytes i)))

-- The network protocol and `clen`. DLT_RAW is 12, DLT_IEEE802 6 and DLT_EN10MB 1.
unfoldable pub classify : View → ℕ → Option (ℕ × ℕ)
classify v linktype =
    let clen = v.size % 65536 in
    let cut = sub16 clen (offset_data linktype) in
    let ether = do nproto ← network_type v linktype; some (nproto, cut)
    in if linktype == 12
      then some (0x0800, cut)
      else if linktype == 6 || linktype == 1
      then ether
      else some (unknown_proto, clen)

-- One round of the loop over IPv6 extension headers: the next protocol, and by how much `dp` moves
-- on and `clen` goes down. IPPROTO_ESP is 50 and IPPROTO_NONE 59; -1 is 65535.
abbrev pub chain_step : View → ℕ → ℕ
chain_step v tproto =
    if tproto == 44 then 8 else if tproto == 51 then (v.bytes 1 + 2) * 4 else (v.bytes 1 + 1) * 8

abbrev pub chain_next : View → ℕ
chain_next v = if v.bytes 0 == 50 || v.bytes 0 == 59 then unknown_proto else v.bytes 0

-- The loop, with fuel. It begins at `dp`, the IPv6 header itself, as the code does.
unfoldable pub chain : ℕ → View → ℕ → ℕ → Option (ℕ × ℕ)
chain zero dp tproto clen = none
chain (suc fuel) dp tproto clen =
    let n = chain_step dp tproto in
    let round = within dp 2 (chain fuel (skip dp n) (chain_next dp) (sub16 clen n)) in
    if is_extension tproto && positive16 clen then round else some (tproto, clen)

-- `clen` goes down by eight at least in each round, so 4097 rounds are enough.
abbrev pub chain_fuel : ℕ
chain_fuel = 4097

-- The transport protocol and `clen`, for the IP header at `v`. A `tproto` that no branch sets has
-- whatever value, `junk`, the stack held.
unfoldable pub ipv4_proto : View → ℕ → Option (ℕ × ℕ)
ipv4_proto v clen = within v 1 (
    let cut = sub16 clen (ip_hlen v.bytes) in
    let first = ntohs (le16 v.bytes 6) % 8192 == 0 in
    let inside =
      within v 8 (if first then within v 10 (some (v.bytes 9, cut)) else some (0x0800, cut)) in
    if positive16 cut then inside else some (0x0800, cut))

unfoldable pub ipv6_proto : View → ℕ → ℕ → Option (ℕ × ℕ)
ipv6_proto v clen junk =
    let cut = sub16 clen 40 in
    let inside = within v 7 (chain chain_fuel v (v.bytes 6) cut) in
    if positive16 cut then inside else some (junk, cut)

unfoldable pub arp_proto : ℕ → ℕ → ℕ × ℕ
arp_proto clen junk =
    let cut = sub16 clen 28 in if positive16 cut then (0x0806, cut) else (junk, cut)

unfoldable pub transport_proto : View → ℕ → ℕ → ℕ → ℕ → Option (ℕ × ℕ)
transport_proto v linktype nproto clen junk =
    let network = skip v (offset_data linktype) in
    let known =
      if nproto == 0x0800
      then ipv4_proto network clen
      else if nproto == 0x86dd
      then ipv6_proto network clen junk
      else if nproto == 0x0806
      then some (arp_proto clen junk)
      else if nproto == unknown_proto
      then some (unknown_proto, clen)
      else some (nproto, clen) in
    if positive16 clen then known else some (junk, clen)

-- A transport header that is cut off makes the protocol -1. IPPROTO_TCP is 6, IPPROTO_UDP 17 and
-- IPPROTO_ICMP 1.
unfoldable pub checked_proto : ℕ → ℕ → ℕ
checked_proto tproto clen =
    if (tproto == 6 && below16 clen 20)
      || (tproto == 17 && below16 clen 8)
      || (tproto == 1 && below16 clen 8)
    then unknown_proto
    else tproto

-- The class of the object that is made.
pub data Kind : Type 0 where
  tcp_object udp_object icmp_object ip_object arp_object packet_object : Kind

unfoldable pub kind_of : ℕ → ℕ → Kind
kind_of nproto tproto =
    if tproto == 6
    then tcp_object
    else if tproto == 17
    then udp_object
    else if tproto == 1
    then icmp_object
    else if nproto == 0x0800 || nproto == 0x86dd
    then ip_object
    else if nproto == 0x0806 || nproto == 0x8035
    then arp_object
    else packet_object
