-- ===== src/Tcp/RoundTrip.antt =====
-- The TCP segment that the send path writes, as the capture path and a receiver read it.
use mathlib.Core.Path.{ap₂, subst}
use j_sdntrace.Base.{
  length, take, take-length, All, ℕ, ◌+◌, ◌*◌, ◌/◌, ◌%◌, ◌≤◌, ◌<◌, ◌≡◌, refl, sym, ap, ◌∙◌, Option,
  none, some, List, arith,
}
use j_sdntrace.Wire.{Region, IsBytes, ntohs, put16, get_region, slice}
use j_sdntrace.Wire.Laws.{
  slice-ext, put16-IsBytes, get_region-IsBytes, slice-get_region, get_region-below,
}
use j_sdntrace.Cksum.{in_cksum2}
use j_sdntrace.Cksum.Segment.{wire_pseudo, wire_segment, in_cksum2_verifies}
use j_sdntrace.Objects.{TcpPacket}
use j_sdntrace.Tcp.{tcp_value, analyze_tcp, set_tcp_header, tcp_length, set_tcp}
use j_sdntrace.Tcp.Header.{IsTcp, sent_value, tcp_value-set_tcp_header, set_tcp_header-IsBytes}

-- The bytes that `analyze_tcp` reads.
tcp_value-ext :
    (r s : Region) (option : Option (List ℕ))
    → ((k : ℕ) → k < 16 → r k ≡ s k)
    → r 18 ≡ s 18
    → r 19 ≡ s 19
    → tcp_value r option ≡ tcp_value s option
unfolding tcp_value
tcp_value-ext r s option low e18 e19 = cc (
  low 0 (omega arith),
  low 1 (omega arith),
  low 2 (omega arith),
  low 3 (omega arith),
  low 4 (omega arith),
  low 5 (omega arith),
  low 6 (omega arith),
  low 7 (omega arith),
  low 8 (omega arith),
  low 9 (omega arith),
  low 10 (omega arith),
  low 11 (omega arith),
  low 13 (omega arith),
  low 14 (omega arith),
  low 15 (omega arith),
)

pub tcp_length-le : (n : ℕ) → (tcp_length n ≤ n) × (tcp_length n ≤ 1560)
tcp_length-le n = ground arith

module _ (t : TcpPacket) (ip r : Region) (room : ℕ) (payload : List ℕ)
    (fits : tcp_length (length payload) + 20 ≤ room) where
  abbrev n : ℕ
  n = tcp_length (length payload)

  -- The segment before its checksum is stored, and after.
  abbrev before : Region
  before = put16 (get_region payload n (set_tcp_header t r) 20) 16 0

  abbrev after : Region
  after = put16 before 16 (in_cksum2 ip (ntohs (n + 20)) before (n + 20))

  pub set_tcp_returns : set_tcp t ip room (some payload) r ≡ some after
  unfolding set_tcp
  set_tcp_returns = ground arith

  after_low : (k : ℕ) → k < 16 → after k ≡ set_tcp_header t r k
  after_low k lt = ground (arith, get_region-below payload n (set_tcp_header t r) 20 k)

  after_data_offset : after 12 / 16 * 4 ≡ 20
  after_data_offset = omega (arith, after_low 12, offset_byte)
    where
      offset_byte : set_tcp_header t r 12 ≡ 80 + r 12 % 16
      offset_byte = unfold set_tcp_header in refl

  after_value :
      (option : Option (List ℕ)) → tcp_value after option ≡ tcp_value (set_tcp_header t r) option
  after_value option =
      tcp_value-ext after (set_tcp_header t r) option after_low
        (get_region-below payload n (set_tcp_header t r) 20 18 (omega arith))
        (get_region-below payload n (set_tcp_header t r) 20 19 (omega arith))

  after_payload : slice after 20 n ≡ take n payload
  after_payload =
      slice-ext after (get_region payload n (set_tcp_header t r) 20) 20 20 n (λ k lt. ground arith)
      ∙ slice-get_region payload n (set_tcp_header t r) 20 (tcp_length-le (length payload)).0

-- Where the segment fits the buffer, `set_tcp` writes one from which `analyze_tcp` reads all
-- fields back with a header of 20 bytes and no options, and behind which the payload stands, cut
-- to 1560 bytes.
pub analyze_tcp-set_tcp :
    (t : TcpPacket) (ip r : Region) (room size : ℕ) (payload : List ℕ)
    → IsTcp t
    → tcp_length (length payload) + 20 ≤ room
    → 20 ≤ size
    → (r' : Region) × (set_tcp t ip room (some payload) r ≡ some r')
      × (analyze_tcp (record { bytes = r'; size = size }) ≡ some (sent_value t, 20))
      × (slice r' 20 (tcp_length (length payload)) ≡ take (tcp_length (length payload)) payload)
unfolding analyze_tcp
analyze_tcp-set_tcp t ip r room size payload h fits captured = (
  after t ip r room payload fits,
  set_tcp_returns t ip r room payload fits,
  ground (
    arith,
    after_data_offset t ip r room payload fits,
    after_value t ip r room payload fits none,
    tcp_value-set_tcp_header t r h,
  ),
  after_payload t ip r room payload fits,
)

-- The segment that `set_tcp` writes passes the receiver's checksum test: with the pseudo header of
-- the IP header at hand, its words in network order sum to a multiple of 65535. It consists
-- of bytes.
pub set_tcp_checksum :
    (t : TcpPacket) (ip r : Region) (room : ℕ) (payload : List ℕ)
    → IsBytes ip
    → IsBytes r
    → All (λ b. b < 256) payload
    → tcp_length (length payload) + 20 ≤ room
    → (r' : Region) × (set_tcp t ip room (some payload) r ≡ some r')
      × (let n = tcp_length (length payload) in
          (wire_pseudo ip (n + 20) + wire_segment r' (n + 20)) % 65535 ≡ 0)
      × IsBytes r'
set_tcp_checksum t ip r room payload hip hr hp fits = (
  after t ip r room payload fits,
  set_tcp_returns t ip r room payload fits,
  in_cksum2_verifies ip (before t ip r room payload fits) (tcp_length (length payload) + 20) 8 hip
      (put16-IsBytes _ 16 0 (get_region-IsBytes payload _ _ 20 (set_tcp_header-IsBytes t r hr) hp))
      (omega (arith, tcp_length-le (length payload))) (omega arith) refl,
  put16-IsBytes _ 16 (in_cksum2 ip _ _ _)
      (put16-IsBytes _ 16 0 (get_region-IsBytes payload _ _ 20 (set_tcp_header-IsBytes t r hr) hp)),
)

-- Both at once, for `set_packet`: a cut payload is left out.
pub set_tcp_whole :
    (t : TcpPacket) (ip r : Region) (room size : ℕ) (payload : List ℕ)
    → IsTcp t
    → IsBytes ip
    → IsBytes r
    → All (λ b. b < 256) payload
    → length payload ≤ 1560
    → length payload + 20 ≤ room
    → 20 ≤ size
    → (r' : Region) × (set_tcp t ip room (some payload) r ≡ some r')
      × (analyze_tcp (record { bytes = r'; size = size }) ≡ some (sent_value t, 20))
      × (slice r' 20 (length payload) ≡ payload)
      × ((wire_pseudo ip (length payload + 20) + wire_segment r' (length payload + 20)) % 65535 ≡ 0)
      × IsBytes r'
unfolding analyze_tcp
set_tcp_whole t ip r room size payload h hip hr hp small fits captured =
    let uncut : tcp_length (length payload) ≡ length payload = ground arith in
    let roomy : tcp_length (length payload) + 20 ≤ room = omega arith in
    let made = analyze_tcp-set_tcp t ip r room size payload h roomy captured in
    let summed = set_tcp_checksum t ip r room payload hip hr hp roomy in
    let same : summed.0 ≡ made.0 = cc (summed.1, made.1) in
    (
      made.0,
      made.1,
      made.2,
      ap (slice made.0 20) (sym uncut)
          ∙ made.3
          ∙ ap (λ k. take k payload) uncut
          ∙ take-length payload,
      ap₂ (λ (k : ℕ) (f : Region). (wire_pseudo ip (k + 20) + wire_segment f (k + 20)) % 65535)
            (sym uncut) (sym same)
          ∙ summed.2,
      subst IsBytes same summed.3,
    )
