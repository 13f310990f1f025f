-- ===== src/Ip.antt =====
-- packet_ip.c: the IPv4 header.
pub mod Laws
use j_sdntrace.Base.{ltb, if◌then◌else◌, ℕ, ◌+◌, ◌-◌, ◌*◌, ◌/◌, ◌%◌, Bool, Option, none, some, List}
use j_sdntrace.Wire.{
  Region, le16, ntohs, bit, flag, poke, put8, put16, get_region, slice, View, within, new_array,
  ◌>>=◌,
}
use j_sdntrace.Objects.{IpPacket}

-- The arguments of `setIPv4Value`, and those of `setOption` where it is called.
pub record IpValue : Type 0 where
  pub version : ℕ
  pub priority : ℕ
  pub d_flag : Bool
  pub t_flag : Bool
  pub r_flag : Bool
  pub rsv_tos : ℕ
  pub rsv_frag : Bool
  pub dont_frag : Bool
  pub more_frag : Bool
  pub offset : ℕ
  pub len : ℕ
  pub ident : ℕ
  pub ttl : ℕ
  pub protocol : ℕ
  pub src : List ℕ
  pub dst : List ℕ
  pub option : Option (List ℕ)

-- `ip_hl << 2`; `ip_hl` is the lower half of the first byte.
abbrev pub ip_hlen : Region → ℕ
ip_hlen r = r 0 % 16 * 4

-- IPTOS_LOWDELAY, IPTOS_THROUGHPUT and IPTOS_RELIABILITY are 0x10, 0x08 and 0x04. IP_RF, IP_DF and
-- IP_MF, 0x8000, 0x4000 and 0x2000, are tested on `ip_off` as the host loads it; the offset is cut
-- out by IP_OFFMASK, 0x1fff, after `ntohs`.
unfoldable pub ip_value : Region → Option (List ℕ) → IpValue
ip_value r option = record {
  version = 4;
  priority = r 1 / 32;
  d_flag = bit (r 1) 4;
  t_flag = bit (r 1) 3;
  r_flag = bit (r 1) 2;
  rsv_tos = r 1 % 4;
  rsv_frag = bit (le16 r 6) 15;
  dont_frag = bit (le16 r 6) 14;
  more_frag = bit (le16 r 6) 13;
  offset = ntohs (le16 r 6) % 8192;
  len = ntohs (le16 r 2);
  ident = ntohs (le16 r 4);
  ttl = r 8;
  protocol = r 9;
  src = slice r 12 4;
  dst = slice r 16 4;
  option = option;
}

-- The header is read up to its 20th byte, then the options behind it; the result is `ip_hl << 2`.
unfoldable pub analyze_ip : View → Option (IpValue × ℕ)
unfolding ip_value
analyze_ip v = within v 20 (
    let hdrlen = ip_hlen v.bytes in
    let options = do
      option ← new_array v 20 (hdrlen - 20)
      some (ip_value v.bytes (some option), hdrlen)
    in if ltb 20 hdrlen then options else some (ip_value v.bytes none, hdrlen))

-- `ip_off` as it is stored: three flags, and the offset in network order.
abbrev pub ip_off_field : IpPacket → ℕ
ip_off_field p =
    (flag p.rsv_frag 0x8000
      + flag p.dont_frag 0x4000
      + flag p.more_frag 0x2000
      + ntohs (p.offset % 65536))
    % 65536

abbrev pub ip_tos_field : IpPacket → ℕ
ip_tos_field p =
    p.priority * 32 + p.rsv_tos + flag p.d_flag 0x10 + flag p.t_flag 0x08 + flag p.r_flag 0x04

-- The stores of `set_ip` from `pointer` on. `ip_v` and `ip_hl` share the first byte.
unfoldable pub set_ip : IpPacket → Region → Region
set_ip p r =
    let r1 = put16 (poke r 0 0x45) 4 (ntohs (p.ident % 65536)) in
    let r2 = put8 (put16 r1 6 (ip_off_field p)) 8 p.hop_limit in
    let r3 = put8 r2 1 (ip_tos_field p) in
    get_region p.destination_address 4 (get_region p.source_address 4 r3 12) 16
