-- ===== src/Udp/RoundTrip.antt =====
-- The UDP segment that the send path writes, as the capture path and a receiver read it.
use mathlib.Core.Path.{ap₂, subst}
use j_sdntrace.Base.{
  length, take, take-length, All, ℕ, ◌+◌, ◌%◌, ◌≤◌, ◌<◌, ◌≡◌, refl, sym, ap, ◌∙◌, ◌≢◌, some, List,
  arith,
}
use j_sdntrace.Wire.{Region, IsBytes, le16, ntohs, put16, get_region, slice}
use j_sdntrace.Wire.Laws.{
  slice-ext, put16-IsBytes, get_region-IsBytes, slice-get_region, get_region-below,
}
use j_sdntrace.Cksum.{in_cksum2}
use j_sdntrace.Cksum.Segment.{wire_pseudo, wire_segment, in_cksum2_congruent, in_cksum2-lt}
use j_sdntrace.Objects.{UdpPacket}
use j_sdntrace.Udp.{analyze_udp, udp_length, nonzero_sum, set_udp}

-- The ports are in the range of the wire format.
pub record IsUdp (u : UdpPacket) : Type 0 where
  pub src_port_fits : u.src_port < 65536
  pub dst_port_fits : u.dst_port < 65536

pub udp_length-le : (n : ℕ) → (udp_length n ≤ n) × (udp_length n ≤ 1572)
udp_length-le n = ground arith

module _ (u : UdpPacket) (ip r : Region) (room : ℕ) (payload : List ℕ)
    (fits : udp_length (length payload) + 8 ≤ room) where
  abbrev n : ℕ
  n = udp_length (length payload)

  abbrev ports : Region
  ports = put16 (put16 r 0 (ntohs (u.src_port % 65536))) 2 (ntohs (u.dst_port % 65536))

  abbrev header : Region
  header = put16 ports 4 (ntohs (n + 8))

  -- The segment before its checksum is stored, and after.
  abbrev before : Region
  before = put16 (get_region payload n header 8) 6 0

  abbrev sum : ℕ
  sum = nonzero_sum (in_cksum2 ip (ntohs (n + 8)) before (n + 8))

  abbrev after : Region
  after = put16 before 6 sum

  set_udp_returns : set_udp u ip room (some payload) r ≡ some after
  unfolding set_udp
  set_udp_returns = ground arith

  after_low : (k : ℕ) → k < 6 → after k ≡ header k
  after_low k lt = ground (arith, get_region-below payload n header 8 k)

  after_fields :
      IsUdp u
      → (ntohs (le16 after 0) ≡ u.src_port)
        × (ntohs (le16 after 2) ≡ u.dst_port)
        × (ntohs (le16 after 4) ≡ n + 8)
  after_fields h =
      let low0 = after_low 0 (omega arith) in
      let low1 = after_low 1 (omega arith) in
      let low2 = after_low 2 (omega arith) in
      let low3 = after_low 3 (omega arith) in
      let low4 = after_low 4 (omega arith) in
      let low5 = after_low 5 (omega arith) in omega (arith, udp_length-le (length payload))

  after_payload : slice after 8 n ≡ take n payload
  after_payload =
      slice-ext after (get_region payload n header 8) 8 8 n (λ k lt. ground arith)
      ∙ slice-get_region payload n header 8 (udp_length-le (length payload)).0

  before-IsBytes : IsBytes r → All (λ b. b < 256) payload → IsBytes before
  before-IsBytes h hp = put16-IsBytes _ 6 0 (
      get_region-IsBytes payload n header 8
        (put16-IsBytes ports 4 (ntohs (n + 8)) (
          put16-IsBytes _ 2 (ntohs (u.dst_port % 65536))
            (put16-IsBytes r 0 (ntohs (u.src_port % 65536)) h)))
        hp)

-- Where the segment fits the buffer, `set_udp` writes one from which `analyze_udp` reads the ports
-- back, with the length of the segment, and behind whose header of 8 bytes the payload stands, cut
-- to 1572 bytes.
pub analyze_udp-set_udp :
    (u : UdpPacket) (ip r : Region) (room size : ℕ) (payload : List ℕ)
    → IsUdp u
    → udp_length (length payload) + 8 ≤ room
    → 8 ≤ size
    → let n = udp_length (length payload) in
      (r' : Region) × (set_udp u ip room (some payload) r ≡ some r')
      × (analyze_udp (record { bytes = r'; size = size })
          ≡ some (record { sport = u.src_port; dport = u.dst_port; ulen = n + 8 }))
      × (slice r' 8 n ≡ take n payload)
unfolding analyze_udp
analyze_udp-set_udp u ip r room size payload h fits captured = (
  after u ip r room payload fits,
  set_udp_returns u ip r room payload fits,
  ground (arith, after_fields u ip r room payload fits h),
  after_payload u ip r room payload fits,
)

nonzero_sum_lem :
    (s : ℕ)
    → s < 65536
    → (nonzero_sum s < 65536) × (nonzero_sum s % 65535 ≡ s % 65535) × (0 < nonzero_sum s)
nonzero_sum_lem s h = ground arith

-- The segment that `set_udp` writes passes the receiver's checksum test, and its checksum is never
-- the 0 that stands for no checksum. It consists of bytes.
pub set_udp_checksum :
    (u : UdpPacket) (ip r : Region) (room : ℕ) (payload : List ℕ)
    → IsBytes ip
    → IsBytes r
    → All (λ b. b < 256) payload
    → udp_length (length payload) + 8 ≤ room
    → let n = udp_length (length payload) in
      (r' : Region) × (set_udp u ip room (some payload) r ≡ some r')
      × ((wire_pseudo ip (n + 8) + wire_segment r' (n + 8)) % 65535 ≡ 0)
      × (le16 r' 6 ≢ 0)
      × IsBytes r'
set_udp_checksum u ip r room payload hip hr hp fits =
    let size = udp_length (length payload) + 8 in
    let b = before u ip r room payload fits in
    let good =
      nonzero_sum_lem (in_cksum2 ip (ntohs size) b size) (in_cksum2-lt ip (ntohs size) b size) in
    (
      after u ip r room payload fits,
      set_udp_returns u ip r room payload fits,
      in_cksum2_congruent ip b size 3 (nonzero_sum (in_cksum2 ip (ntohs size) b size)) hip
          (before-IsBytes u ip r room payload fits hr hp)
          (omega (arith, udp_length-le (length payload))) (omega arith) refl good.0 good.1,
      λ e. absurd (omega (arith, good)),
      put16-IsBytes b 6 (nonzero_sum (in_cksum2 ip (ntohs size) b size))
          (before-IsBytes u ip r room payload fits hr hp),
    )

-- Both at once, for `set_packet`: a cut payload is left out.
pub set_udp_whole :
    (u : UdpPacket) (ip r : Region) (room size : ℕ) (payload : List ℕ)
    → IsUdp u
    → IsBytes ip
    → IsBytes r
    → All (λ b. b < 256) payload
    → length payload ≤ 1572
    → length payload + 8 ≤ room
    → 8 ≤ size
    → (r' : Region) × (set_udp u ip room (some payload) r ≡ some r')
      × (analyze_udp (record { bytes = r'; size = size })
          ≡ some (record { sport = u.src_port; dport = u.dst_port; ulen = length payload + 8 }))
      × (slice r' 8 (length payload) ≡ payload)
      × ((wire_pseudo ip (length payload + 8) + wire_segment r' (length payload + 8)) % 65535 ≡ 0)
      × IsBytes r'
unfolding analyze_udp
set_udp_whole u ip r room size payload h hip hr hp small fits captured =
    let uncut : udp_length (length payload) ≡ length payload = ground arith in
    let roomy : udp_length (length payload) + 8 ≤ room = omega arith in
    let made = analyze_udp-set_udp u ip r room size payload h roomy captured in
    let summed = set_udp_checksum u ip r room payload hip hr hp roomy in
    let same : summed.0 ≡ made.0 = cc (summed.1, made.1) in
    (
      made.0,
      made.1,
      made.2
          ∙ ap (λ k. some (record { sport = u.src_port; dport = u.dst_port; ulen = k + 8 })) uncut,
      ap (slice made.0 8) (sym uncut)
          ∙ made.3
          ∙ ap (λ k. take k payload) uncut
          ∙ take-length payload,
      ap₂ (λ (k : ℕ) (f : Region). (wire_pseudo ip (k + 8) + wire_segment f (k + 8)) % 65535)
            (sym uncut) (sym same)
          ∙ summed.2,
      subst IsBytes same summed.4,
    )
