-- ===== src/Udp.antt =====
-- packet_udp.c: the UDP header.
pub mod RoundTrip
use j_sdntrace.Base.{
  ltb, leb, ◌==◌, if◌then◌else◌, length, ℕ, ◌+◌, ◌-◌, ◌%◌, Option, none, some, List,
}
use j_sdntrace.Wire.{Region, le16, ntohs, put16, get_region, View, within}
use j_sdntrace.Cksum.{in_cksum2}
use j_sdntrace.Objects.{UdpPacket}

-- The arguments of `setValue`.
pub record UdpValue : Type 0 where
  pub sport : ℕ
  pub dport : ℕ
  pub ulen : ℕ

-- The checksum is not read.
unfoldable pub analyze_udp : View → Option UdpValue
analyze_udp v = within v 6 (
    some (record {
      sport = ntohs (le16 v.bytes 0);
      dport = ntohs (le16 v.bytes 2);
      ulen = ntohs (le16 v.bytes 4);
    }))

abbrev pub udp_length : ℕ → ℕ
udp_length n = if ltb 1600 (n + 20 + 8) then 1600 - 20 - 8 else n

-- `if(udp->uh_sum==0) udp->uh_sum=0xffff;`
abbrev pub nonzero_sum : ℕ → ℕ
nonzero_sum sum = if sum == 0 then 0xffff else sum

unfoldable pub set_udp : UdpPacket → Region → ℕ → Option (List ℕ) → Region → Option Region
set_udp u ip room none r = none
set_udp u ip room (some payload) r =
    let n = udp_length (length payload) in
    let r1 = put16 (put16 r 0 (ntohs (u.src_port % 65536))) 2 (ntohs (u.dst_port % 65536)) in
    let r2 = put16 r1 4 (ntohs (n + 8)) in
    let r3 = put16 (get_region payload n r2 8) 6 0 in
    if leb (n + 8) room
    then some (put16 r3 6 (nonzero_sum (in_cksum2 ip (ntohs (n + 8)) r3 (n + 8))))
    else none
