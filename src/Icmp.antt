-- ===== src/Icmp.antt =====
-- packet_icmp.c: ICMP.
pub mod Message
pub mod Echo
pub mod Timestamp
use j_sdntrace.Base.{
  ltb, ◌==◌, if◌then◌else◌, length, ℕ, ◌+◌, ◌-◌, ◌/◌, ◌%◌, ◌^◌, ◌||◌, Option, none, some, List,
}
use j_sdntrace.Wire.{
  Region, le16, le32, ntohs, ntohl, poke, put16, put32, get_region, copy_region, from, over, View,
  skip, within, new_array, ◌>>=◌,
}
use j_sdntrace.Cksum.{in_cksum}
use j_sdntrace.Objects.{IpPacket, IcmpPacket}
use j_sdntrace.Ip.{IpValue, analyze_ip, set_ip}

-- The values that `setICMPValue` is handed, and what the other setters and fields are given where
-- they are called.
pub record IcmpValue : Type 0 where
  pub type : ℕ
  pub code : ℕ
  pub cksum : ℕ
  pub id_seq : Option (ℕ × ℕ)
  pub redirect_ip : Option (List ℕ)
  pub mtu : Option ℕ
  pub ippacket : Option IpValue
  pub router : Option (ℕ × ℕ × ℕ)
  pub timestamp : Option (ℕ × ℕ × ℕ)
  pub subnetmask : Option ℕ

-- `(jshort)x >> 8`, as the 16 bits of a `jshort`.
abbrev pub high_signed : ℕ → ℕ
high_signed x = if ltb (x / 256) 128 then x / 256 else x / 256 + 0xff00

-- Source quench, time exceeded, parameter problem: the quoted IP header, if `clen` says that there
-- is one.
unfoldable pub icmp_quoted : View → ℕ → IcmpValue → Option IcmpValue
icmp_quoted v clen x =
    let quoted = do
      (ippacket, hlen) ← analyze_ip (skip v 8)
      some (record x { ippacket = some ippacket })
    in if ltb clen (20 + 16) then some x else quoted

-- Unreachable, which falls through.
unfoldable pub icmp_unreach : View → ℕ → IcmpValue → Option IcmpValue
unfolding icmp_quoted
icmp_unreach v clen x = within v 8 (icmp_quoted v clen (record x { mtu = some (le16 v.bytes 6) }))

-- Redirect, which falls through.
unfoldable pub icmp_redirect : View → ℕ → IcmpValue → Option IcmpValue
unfolding icmp_unreach
icmp_redirect v clen x = do
  address ← new_array v 4 4
  icmp_unreach v clen (record x { redirect_ip = some address })

-- Router advertisement. With an address in it the loop stores `addr`, which nothing has set, into
-- the array: that is a fault.
unfoldable pub icmp_router : View → IcmpValue → Option IcmpValue
icmp_router v x = within v 8 (
    if v.bytes 4 == 0
    then some (record x { router = some (0, v.bytes 5, le16 v.bytes 6) })
    else none)

unfoldable pub icmp_timestamp : View → IcmpValue → Option IcmpValue
icmp_timestamp v x =
    within v 20
      (some (record x { timestamp = some (le32 v.bytes 8, le32 v.bytes 12, le32 v.bytes 16) }))

unfoldable pub icmp_mask : View → IcmpValue → Option IcmpValue
icmp_mask v x = within v 12 (some (record x { subnetmask = some (le32 v.bytes 8) }))

-- The `switch`: ICMP_REDIRECT 5, ICMP_UNREACH 3, ICMP_SOURCEQUENCH 4, ICMP_TIMXCEED 11,
-- ICMP_PARAMPROB 12, ICMP_ROUTERADVERT 9, ICMP_TSTAMP 13 and its reply 14, ICMP_MASKREQ 17 and its
-- reply 18.
unfoldable pub icmp_body : View → ℕ → IcmpValue → Option IcmpValue
unfolding icmp_redirect icmp_router icmp_timestamp icmp_mask
icmp_body v clen x =
    let t = v.bytes 0 in
    if t == 5
    then icmp_redirect v clen x
    else if t == 3
    then icmp_unreach v clen x
    else if t == 4 || t == 11 || t == 12
    then icmp_quoted v clen x
    else if t == 9
    then icmp_router v x
    else if t == 13 || t == 14
    then icmp_timestamp v x
    else if t == 17 || t == 18
    then icmp_mask v x
    else some x

abbrev pub icmp_start : Region → IcmpValue
icmp_start r = record {
  type = r 0;
  code = r 1;
  cksum = le16 r 2;
  id_seq = none;
  redirect_ip = none;
  mtu = none;
  ippacket = none;
  router = none;
  timestamp = none;
  subnetmask = none;
}

-- An id and a sequence number are read on ICMP_ECHOREPLY 0, ICMP_ECHO 8, and above ICMP_PARAMPROB.
unfoldable pub analyze_icmp : View → ℕ → Option IcmpValue
unfolding icmp_body
analyze_icmp v clen = within v 4 (do
  let t = v.bytes 0
  let ids : ℕ × ℕ = (high_signed (le16 v.bytes 4), high_signed (le16 v.bytes 6))
  let x = icmp_start v.bytes
  let with_ids = within v 8 (some (record x { id_seq = some ids }))
  y ← if t == 0 || t == 8 || ltb 12 t then with_ids else some x
  icmp_body v clen y)

-- `x - length` of an `int`, modulo 2 ^ 32.
abbrev pub minus32 : ℕ → ℕ → ℕ
minus32 x n = (x + 2 ^ 32 - n % 2 ^ 32) % 2 ^ 32

abbrev pub put_ids : IcmpPacket → Region → Region
put_ids p r = put16 (put16 r 4 (ntohs (p.id % 65536))) 6 (ntohs (p.seq % 65536))

abbrev pub put_sum : Region → ℕ → Region
put_sum r size = put16 (put16 r 2 0) 2 (in_cksum (put16 r 2 0) size)

-- The quoted header of an error message, and its size.
abbrev pub quoted_size : Option IpPacket → ℕ
quoted_size none = 0
quoted_size (some p) = 20

abbrev pub put_quoted : Option IpPacket → Region → Region
put_quoted none r = r
put_quoted (some p) r = over r 8 (set_ip p (from r 8))

-- A null array has no elements to count, and none to copy.
abbrev pub payload_length : Option (List ℕ) → ℕ
payload_length none = 0
payload_length (some bytes) = length bytes

abbrev pub put_payload : ℕ → Option (List ℕ) → Region → ℕ → Option Region
put_payload room none r i = some r
put_payload room (some bytes) r i = copy_region room bytes (length bytes) r i

-- What `set_packet` adds to its length, modulo 2 ^ 32, since it may be negative.
unfoldable pub set_icmp : IcmpPacket → ℕ → Option (List ℕ) → Region → Option (Region × ℕ)
set_icmp p room payload r =
    let t = p.type % 256 in
    let n = payload_length payload in
    let start = poke (poke r 0 t) 1 (p.code % 256) in
    let ids = put_ids p start in
    let echo = do filled ← put_payload room payload ids 8; some (put_sum filled (8 + n), 8)
    in let size = 12 + quoted_size p.ippacket in
      let redirected = if t == 5 then get_region p.redirect_ip 4 start 4 else start in
      let error : Region × ℕ = (put_sum (put_quoted p.ippacket redirected) size, minus32 size n) in
      let stamps =
        put32
          (put32 (put32 ids 8 (ntohl (p.orig_timestamp % 2 ^ 32))) 12
            (ntohl (p.recv_timestamp % 2 ^ 32)))
          16 (ntohl (p.trans_timestamp % 2 ^ 32)) in
      let masked = put32 ids 8 (ntohl (p.subnetmask % 2 ^ 32)) in
      if t == 0 || t == 8
      then echo
      else if t == 5 || t == 3 || t == 4 || t == 11 || t == 12
      then some error
      else if t == 13 || t == 14
      then some (put_sum stamps 20, minus32 20 n)
      else if t == 17 || t == 18
      then some (put_sum masked 12, minus32 12 n)
      else some (start, 0)
