-- ===== src/Tcp.antt =====
-- packet_tcp.c: the TCP header.
pub mod Header
pub mod RoundTrip
use j_sdntrace.Base.{
  ltb, leb, if◌then◌else◌, length, ℕ, ◌+◌, ◌-◌, ◌*◌, ◌/◌, ◌%◌, ◌^◌, Bool, Option, none, some, List,
}
use j_sdntrace.Wire.{
  Region, le16, le32, ntohs, ntohl, bit, flag, poke, put16, put32, get_region, View, within,
  new_array, ◌>>=◌,
}
use j_sdntrace.Cksum.{in_cksum2}
use j_sdntrace.Objects.{TcpPacket}

-- The arguments of `setValue`, and those of `setOption` where it is called.
pub record TcpValue : Type 0 where
  pub sport : ℕ
  pub dport : ℕ
  pub seq : ℕ
  pub ack_num : ℕ
  pub urg : Bool
  pub ack : Bool
  pub psh : Bool
  pub rst : Bool
  pub syn : Bool
  pub fin : Bool
  pub rsv1 : Bool
  pub rsv2 : Bool
  pub window : ℕ
  pub urgent_pointer : ℕ
  pub option : Option (List ℕ)

unfoldable pub tcp_value : Region → Option (List ℕ) → TcpValue
tcp_value r option = record {
  sport = ntohs (le16 r 0);
  dport = ntohs (le16 r 2);
  seq = ntohl (le32 r 4);
  ack_num = ntohl (le32 r 8);
  urg = bit (r 13) 5;
  ack = bit (r 13) 4;
  psh = bit (r 13) 3;
  rst = bit (r 13) 2;
  syn = bit (r 13) 1;
  fin = bit (r 13) 0;
  rsv1 = bit (r 13) 7;
  rsv2 = bit (r 13) 6;
  window = ntohs (le16 r 14);
  urgent_pointer = ntohs (le16 r 18);
  option = option;
}

-- `th_off * 4`; `th_off` is the upper half of the byte.
abbrev pub tcp_hlen : Region → ℕ
tcp_hlen r = r 12 / 16 * 4

unfoldable pub analyze_tcp : View → Option (TcpValue × ℕ)
unfolding tcp_value
analyze_tcp v = within v 20 (
    let hdrlen = tcp_hlen v.bytes in
    let options = do
      option ← new_array v 20 (hdrlen - 20)
      some (tcp_value v.bytes (some option), hdrlen)
    in if ltb 20 hdrlen then options else some (tcp_value v.bytes none, hdrlen))

abbrev pub tcp_flags : TcpPacket → ℕ
tcp_flags t =
    flag t.rsv1 128
    + flag t.rsv2 64
    + flag t.urg 32
    + flag t.ack 16
    + flag t.psh 8
    + flag t.rst 4
    + flag t.syn 2
    + flag t.fin 1

-- The stores up to the payload. `th_off = 5` keeps the lower half of its byte.
unfoldable pub set_tcp_header : TcpPacket → Region → Region
set_tcp_header t r =
    let r1 = put16 (put16 r 0 (ntohs (t.src_port % 65536))) 2 (ntohs (t.dst_port % 65536)) in
    let r2 = put32 (put32 r1 4 (ntohl (t.sequence % 2 ^ 32))) 8 (ntohl (t.ack_num % 2 ^ 32)) in
    let r3 = poke (poke r2 12 (80 + r 12 % 16)) 13 (tcp_flags t) in
    put16 (put16 r3 14 (ntohs (t.window % 65536))) 18 (ntohs (t.urgent_pointer % 65536))

-- A payload that would take the IP packet past MAX_PACKET_SIZE, 1600, is cut.
abbrev pub tcp_length : ℕ → ℕ
tcp_length n = if ltb 1600 (n + 20 + 20) then 1600 - 20 - 20 else n

-- `room` bytes of the buffer lie behind `pointer`; a store past them is a fault, and so is a null
-- payload, whose length is asked for.
unfoldable pub set_tcp : TcpPacket → Region → ℕ → Option (List ℕ) → Region → Option Region
unfolding set_tcp_header
set_tcp t ip room none r = none
set_tcp t ip room (some payload) r =
    let n = tcp_length (length payload) in
    let r1 = get_region payload n (set_tcp_header t r) 20 in
    let r2 = put16 r1 16 0 in
    if leb (n + 20) room
    then some (put16 r2 16 (in_cksum2 ip (ntohs (n + 20)) r2 (n + 20)))
    else none
