-- ===== src/Ipv6/Header.antt =====
-- The IPv6 header that `set_ipv6` writes and `set_packet` completes, as `analyze_ipv6` reads it.
use j_sdntrace.Wire.Laws.{slice-get_region_whole, slice-get_region_off}
use j_sdntrace.Base.{length, ℕ, ◌+◌, ◌*◌, ◌%◌, ◌^◌, ◌<◌, ◌≡◌, ◌∙◌, inl, arith}
use j_sdntrace.Wire.{Region, IsBytes, ntohs, get_region}
use j_sdntrace.Objects.{IpPacket}
use j_sdntrace.Ipv6.{ipv6_value, set_ipv6}
use j_sdntrace.Sender.{put_v6}

-- The fields of an IPPacket fit in those of an IPv6 header.
abbrev pub IsIpv6 : IpPacket → Type 0
IsIpv6 p =
    (length p.source_address ≡ 16)
    × (length p.destination_address ≡ 16)
    × (p.protocol < 256)
    × (p.hop_limit < 256)

-- Whatever the bytes are, `analyze_ipv6` hands over a traffic class of 0, and for a flow label the
-- first byte, the second, and the lower half of the third, each one byte too high.
pub ipv6_value_flow :
    (r : Region)
    → IsBytes r
    → ((ipv6_value r).class ≡ 0)
      × ((ipv6_value r).flow ≡ r 0 * 2 ^ 24 + r 1 * 2 ^ 16 + r 2 % 16 * 2 ^ 8)
unfolding ipv6_value
ipv6_value_flow r b = (omega arith, omega (arith, b 0, b 1, b 2, b 3))

-- What `set_ipv6` writes, completed with a protocol and a length, is read back with this protocol,
-- the hop limit and both addresses of the packet, and the length with its two bytes swapped.
pub ipv6_value-set_ipv6 :
    (p : IpPacket) (r : Region) (protocol n : ℕ)
    → IsIpv6 p
    → protocol < 256
    → n < 65536
    → let x = ipv6_value (put_v6 protocol n (set_ipv6 p r)) in
      (x.nxt ≡ protocol)
      × (x.hlim ≡ p.hop_limit)
      × (x.src ≡ p.source_address)
      × (x.dst ≡ p.destination_address)
      × (x.plen ≡ ntohs n)
unfolding ipv6_value set_ipv6
ipv6_value-set_ipv6 p r protocol n fields small word =
    let r1 = get_region p.source_address 16 r 8 in
    (
      omega arith,
      omega (arith, fields),
      slice-get_region_off p.destination_address 16 r1 24 8 16 (inl (omega arith))
          ∙ slice-get_region_whole p.source_address 16 r 8 fields.0,
      slice-get_region_whole p.destination_address 16 r1 24 fields.1,
      omega arith,
    )
