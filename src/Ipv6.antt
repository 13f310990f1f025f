-- ===== src/Ipv6.antt =====
-- packet_ipv6.c: the IPv6 header and its chain of extension headers.
pub mod Header
pub mod Chain
pub mod Walk
use Prim.Native.Nat.{bit_or}
use j_sdntrace.Base.{
  ltb, ◌==◌, if◌then◌else◌, ℕ, zero, suc, ◌+◌, ◌-◌, ◌*◌, ◌/◌, ◌%◌, ◌^◌, Bool, ◌||◌, Option, none,
  some, List, [], ◌∷◌,
}
use j_sdntrace.Objects.{IpPacket}
use j_sdntrace.Wire.{
  Region, le16, le32, ntohs, ntohl, bit, poke, put8, put16, get_region, slice, View, skip, within,
  new_array, ◌>>=◌,
}

-- The arguments of `setIPv6Value`.
pub record Ipv6Value : Type 0 where
  pub version : ℕ
  pub class : ℕ
  pub flow : ℕ
  pub plen : ℕ
  pub nxt : ℕ
  pub hlim : ℕ
  pub src : List ℕ
  pub dst : List ℕ

-- What the setters of one IPv6Option are handed: the routing type, segments left and addresses;
-- the fragment's offset, flag and identification; the index and sequence number of AH.
pub data OptionData : Type 0 where
  option_data : List ℕ → OptionData
  routing : ℕ → ℕ → List (List ℕ) → OptionData
  fragment : ℕ → Bool → ℕ → OptionData
  ah : ℕ → ℕ → List ℕ → OptionData

pub record Ipv6Option : Type 0 where
  pub proto : ℕ
  pub next : ℕ
  pub len : ℕ
  pub content : OptionData

-- The class argument is `(jbyte)(ip6_flow & 0x0ff00000) >> 20`: the cast comes first. The flow
-- label argument is `ntohl(ip6_flow & 0x000fffff)` of the word as the host loads it.
unfoldable pub ipv6_value : Region → Ipv6Value
ipv6_value r =
    let masked = le32 r 0 % 2 ^ 28 / 2 ^ 20 * 2 ^ 20 in
    record {
      version = 6;
      class = masked % 256 / 2 ^ 20;
      flow = ntohl (le32 r 0 % 2 ^ 20);
      plen = ntohs (le16 r 4);
      nxt = r 6;
      hlim = r 7;
      src = slice r 8 16;
      dst = slice r 24 16;
    }

-- IPPROTO_HOPOPTS, IPPROTO_DSTOPTS, IPPROTO_ROUTING, IPPROTO_AH and IPPROTO_FRAGMENT.
abbrev pub is_extension : ℕ → Bool
is_extension proto = proto == 0 || proto == 60 || proto == 43 || proto == 51 || proto == 44

-- The loop over the addresses moves `data` and not `p`: it copies the same 16 bytes each time.
abbrev pub same_address : ℕ → List ℕ → List (List ℕ)
same_address zero a = []
same_address (suc n) a = a ∷ same_address n a

-- `ip6f_offlg & IP6F_OFF_MASK`; on a little-endian host the mask is 0xf8ff, and IP6F_MORE_FRAG is
-- 0x0100.
abbrev pub offset_bits : ℕ → ℕ
offset_bits x = x % 256 + x / 2048 * 2048 % 65536

-- One header at `data`: what is handed over, the number of bytes that `data` moves on, and what
-- `hlen` grows by. In a routing header `data` moves once for the addresses and once for the header.
-- `ip6_ext+2` is four bytes on, and `ah+8` is 96.
unfoldable pub extension : ℕ → View → Option (OptionData × ℕ × ℕ)
extension proto v =
    let len = v.bytes 1 in
    let n = (len + 1) * 8 in
    let options = do bytes ← new_array v 4 len; some (option_data bytes, n, n)
    in let addresses =
        if len / 2 == 0
        then some []
        else within v 24 (some (same_address (len / 2) (slice v.bytes 8 16))) in
      let route =
        within v 4
          (do list ← addresses; some (routing (v.bytes 2) (v.bytes 3) list, len / 2 * 16 + n, n)) in
      let offlg = le16 v.bytes 2 in
      let frag = within v 8 (
        some (fragment (ntohs (offset_bits offlg)) (bit offlg 8) (ntohl (le32 v.bytes 4)), 8, 8)) in
      let auth = within v 12 (do
        bytes ← new_array v 96 len
        some (
          ah (ntohl (le32 v.bytes 4)) (ntohl (le32 v.bytes 8)) bytes,
          (len + 2) * 4,
          (len + 2) * 4,
        )) in
      if proto == 43
      then route
      else if proto == 44
      then frag
      else if proto == 51
      then auth
      else options

-- The `while` loop, with fuel for its rounds.
unfoldable pub extensions : ℕ → ℕ → View → ℕ → Option (List Ipv6Option × ℕ)
extensions zero proto v hlen = none
extensions (suc fuel) proto v hlen =
    let round = within v 2 (do
      (content, moved, grown) ← extension proto v
      (rest, total) ← extensions fuel (v.bytes 0) (skip v moved) (hlen + grown)
      some (
        record { proto = proto; next = v.bytes 0; len = v.bytes 1; content = content } ∷ rest,
        total,
      )) in
    if is_extension proto then round else some ([], hlen)

-- A round moves `data` on by eight bytes at least, and reads at it: more rounds than captured bytes
-- are not needed. The result is a `u_short`.
unfoldable pub analyze_ipv6 : View → Option (Ipv6Value × List Ipv6Option × ℕ)
unfolding ipv6_value
analyze_ipv6 v = within v 40 (do
  (list, hlen) ← extensions (suc v.size) (v.bytes 6) (skip v 40) 40
  some (ipv6_value v.bytes, list, hlen % 65536))

-- A `jbyte` as an `int`, and a `jshort`.
abbrev pub sign8 : ℕ → ℕ
sign8 n = if ltb (n % 256) 128 then n % 256 else n % 256 + (2 ^ 32 - 256)

-- `((priority<<20) | flow_label) & 0x0fffffff`
abbrev pub flow_field : IpPacket → ℕ
flow_field p = bit_or (sign8 p.priority * 2 ^ 20 % 2 ^ 32) p.flow_label % 2 ^ 28

-- The stores of `set_ipv6`: the version and the flow share the first byte.
unfoldable pub set_ipv6 : IpPacket → Region → Region
set_ipv6 p r =
    let r1 = get_region p.source_address 16 r 8 in
    let r2 = get_region p.destination_address 16 r1 24 in
    let x = flow_field p in
    let r3 =
      put16 (poke (poke r2 0 (0x60 + x / 2 ^ 24)) 1 (x / 2 ^ 16 % 256)) 2 (ntohs (x % 65536)) in
    put8 (put8 r3 6 p.protocol) 7 p.hop_limit
