-- ===== src/Tcp/Header.antt =====
-- The twenty bytes that `set_tcp` stores before the checksum, as `analyze_tcp` reads them.
use j_sdntrace.Base.{ℕ, ◌+◌, ◌/◌, ◌%◌, ◌^◌, ◌<◌, ◌≡◌, refl, Bool, none, arith}
use j_sdntrace.Wire.{Region, IsBytes, le16, le32, ntohs, ntohl, bit, flag}
use j_sdntrace.Wire.Laws.{poke-IsBytes, put16-IsBytes, put32-IsBytes, flag_digit, bit-digit}
use j_sdntrace.Objects.{TcpPacket}
use j_sdntrace.Tcp.{TcpValue, tcp_value, tcp_flags, set_tcp_header}

abbrev pub IsU16 : ℕ → Type 0
IsU16 n = n < 65536

-- The fields are in the ranges of the wire format.
pub record IsTcp (t : TcpPacket) : Type 0 where
  pub src_port_fits : t.src_port < 65536
  pub dst_port_fits : t.dst_port < 65536
  pub sequence_fits : t.sequence < 2 ^ 32
  pub ack_num_fits : t.ack_num < 2 ^ 32
  pub window_fits : t.window < 65536
  pub urgent_pointer_fits : t.urgent_pointer < 65536

-- What `setValue` should be handed for a packet.
abbrev pub sent_value : TcpPacket → TcpValue
sent_value t = record {
  sport = t.src_port;
  dport = t.dst_port;
  seq = t.sequence;
  ack_num = t.ack_num;
  urg = t.urg;
  ack = t.ack;
  psh = t.psh;
  rst = t.rst;
  syn = t.syn;
  fin = t.fin;
  rsv1 = t.rsv1;
  rsv2 = t.rsv2;
  window = t.window;
  urgent_pointer = t.urgent_pointer;
  option = none;
}

module _ (a b c d e f g h : Bool) where
  abbrev eight : ℕ
  eight = flag a 128 + flag b 64 + flag c 32 + flag d 16 + flag e 8 + flag f 4 + flag g 2 + flag h 1

  eight_digits :
      (eight / 128 % 2 ≡ flag a 1)
      × (eight / 64 % 2 ≡ flag b 1)
      × (eight / 32 % 2 ≡ flag c 1)
      × (eight / 16 % 2 ≡ flag d 1)
      × (eight / 8 % 2 ≡ flag e 1)
      × (eight / 4 % 2 ≡ flag f 1)
      × (eight / 2 % 2 ≡ flag g 1)
      × (eight % 2 ≡ flag h 1)
  eight_digits = omega (
    arith,
    flag_digit a 128,
    flag_digit b 64,
    flag_digit c 32,
    flag_digit d 16,
    flag_digit e 8,
    flag_digit f 4,
    flag_digit g 2,
    flag_digit h 1,
  )

  eight-lt : eight < 256
  eight-lt = omega (
    arith,
    flag_digit a 128,
    flag_digit b 64,
    flag_digit c 32,
    flag_digit d 16,
    flag_digit e 8,
    flag_digit f 4,
    flag_digit g 2,
    flag_digit h 1,
  )

  eight_bits :
      (bit eight 7 ≡ a)
      × (bit eight 6 ≡ b)
      × (bit eight 5 ≡ c)
      × (bit eight 4 ≡ d)
      × (bit eight 3 ≡ e)
      × (bit eight 2 ≡ f)
      × (bit eight 1 ≡ g)
      × (bit eight 0 ≡ h)
  eight_bits = (
    bit-digit a eight 7 (omega (arith, eight_digits)),
    bit-digit b eight 6 (omega (arith, eight_digits)),
    bit-digit c eight 5 (omega (arith, eight_digits)),
    bit-digit d eight 4 (omega (arith, eight_digits)),
    bit-digit e eight 3 (omega (arith, eight_digits)),
    bit-digit f eight 2 (omega (arith, eight_digits)),
    bit-digit g eight 1 (omega (arith, eight_digits)),
    bit-digit h eight 0 (omega (arith, eight_digits)),
  )

module _ (t : TcpPacket) (r : Region) (h : IsTcp t) where
  abbrev header : Region
  header = set_tcp_header t r

  ports : (ntohs (le16 header 0) ≡ t.src_port) × (ntohs (le16 header 2) ≡ t.dst_port)
  unfolding set_tcp_header
  ports = omega arith

  numbers : (ntohl (le32 header 4) ≡ t.sequence) × (ntohl (le32 header 8) ≡ t.ack_num)
  unfolding set_tcp_header
  numbers = omega arith

  windows : (ntohs (le16 header 14) ≡ t.window) × (ntohs (le16 header 18) ≡ t.urgent_pointer)
  unfolding set_tcp_header
  windows = omega arith

  flag_byte : header 13 ≡ tcp_flags t
  unfolding set_tcp_header
  flag_byte = refl

  pub tcp_value-set_tcp_header : tcp_value header none ≡ sent_value t
  unfolding tcp_value
  tcp_value-set_tcp_header = ground (
    arith,
    ports,
    numbers,
    windows,
    flag_byte,
    eight_bits t.rsv1 t.rsv2 t.urg t.ack t.psh t.rst t.syn t.fin,
  )

pub set_tcp_header-IsBytes : (t : TcpPacket) (r : Region) → IsBytes r → IsBytes (set_tcp_header t r)
unfolding set_tcp_header
set_tcp_header-IsBytes t r h =
    let start =
      put16-IsBytes _ 2 (ntohs (t.dst_port % 65536))
        (put16-IsBytes r 0 (ntohs (t.src_port % 65536)) h) in
    let numbers_put =
      put32-IsBytes _ 8 (ntohl (t.ack_num % 2 ^ 32))
        (put32-IsBytes _ 4 (ntohl (t.sequence % 2 ^ 32)) start) in
    let flags_put =
      poke-IsBytes _ 13 (tcp_flags t) (poke-IsBytes _ 12 (80 + r 12 % 16) numbers_put (omega arith))
        (eight-lt t.rsv1 t.rsv2 t.urg t.ack t.psh t.rst t.syn t.fin) in
    put16-IsBytes _ 18 (ntohs (t.urgent_pointer % 65536))
      (put16-IsBytes _ 14 (ntohs (t.window % 65536)) flags_put)
