-- ===== src/Sender/Ipv4.antt =====
-- The IPv4 header at the end of `set_packet`: its checksum, its fields, its flags and offset.
use j_sdntrace.Cksum.{in_cksum}
use j_sdntrace.Base.{ℕ, ◌+◌, ◌*◌, ◌/◌, ◌%◌, ◌≤◌, ◌<◌, ◌≡◌, refl, ap, ◌∙◌, false, none, some, arith}
use j_sdntrace.Wire.{Region, IsBytes, le16, ntohs, bit, flag, put16, slice}
use j_sdntrace.Wire.Laws.{slice-ext, put16-IsBytes, flag_digit}
use j_sdntrace.Cksum.Sum.{wire_sum}
use j_sdntrace.Cksum.Verify.{in_cksum_verifies}
use j_sdntrace.Objects.{IpPacket}
use j_sdntrace.Ip.{IpValue, ip_value, analyze_ip, ip_off_field, set_ip}
use j_sdntrace.Ip.Laws.{IsIpv4, set_ip_low, set_ip_addresses, set_ip_tos, ip_value_flags}
use j_sdntrace.Sender.{put_v4, finish_v4}

pub finish_v4-IsBytes : (r : Region) → IsBytes r → IsBytes (finish_v4 r)
unfolding finish_v4
finish_v4-IsBytes r h = put16-IsBytes _ 10 (in_cksum _ 20) (
    put16-IsBytes _ 10 0 (
      put16-IsBytes _ 6 (ntohs (le16 (put16 r 2 (ntohs (le16 r 2))) 6))
        (put16-IsBytes r 2 (ntohs (le16 r 2)) h)))

-- Whatever the header holds, `finish_v4` stores a checksum with which the ten words of the header in
-- network order sum to a multiple of 65535.
pub finish_v4_checksum : (r : Region) → IsBytes r → wire_sum (finish_v4 r) 0 10 % 65535 ≡ 0
unfolding finish_v4
finish_v4_checksum r h =
    (in_cksum_verifies _ 10 5
      (put16-IsBytes _ 10 0 (
        put16-IsBytes _ 6 (ntohs (le16 (put16 r 2 (ntohs (le16 r 2))) 6))
          (put16-IsBytes r 2 (ntohs (le16 r 2)) h)))
      (omega arith) (omega arith) refl).0

module _ (r : Region) where
  -- `finish_v4` turns the length and the word of the flags round, and keeps the other fields.
  pub finish_v4_fields :
      (finish_v4 r 0 ≡ r 0)
      × (finish_v4 r 1 ≡ r 1)
      × (finish_v4 r 4 ≡ r 4)
      × (finish_v4 r 5 ≡ r 5)
      × (finish_v4 r 8 ≡ r 8)
      × (finish_v4 r 9 ≡ r 9)
  unfolding finish_v4
  finish_v4_fields = (refl, refl, refl, refl, refl, refl)

  pub finish_v4_words :
      IsBytes r
      → (ntohs (le16 (finish_v4 r) 2) ≡ le16 r 2) × (ntohs (le16 (finish_v4 r) 6) ≡ le16 r 6)
  unfolding finish_v4
  finish_v4_words h = omega (arith, h 2, h 3, h 6, h 7)

  pub finish_v4_addresses :
      (slice (finish_v4 r) 12 4 ≡ slice r 12 4) × (slice (finish_v4 r) 16 4 ≡ slice r 16 4)
  unfolding finish_v4
  finish_v4_addresses = (refl, refl)

-- Behind the header nothing changes.
pub finish_v4-above : (r : Region) (k : ℕ) → 20 ≤ k → finish_v4 r k ≡ r k
unfolding finish_v4
finish_v4-above r k h = ground arith

-- `r` begins with the header that `set_ip` wrote and the protocol and length stored after it.
abbrev pub IsHeader : IpPacket → ℕ → ℕ → Region → Region → Type 0
IsHeader p protocol n before r = (k : ℕ) → k < 20 → r k ≡ put_v4 protocol n (set_ip p before) k

module _ (p : IpPacket) (protocol n : ℕ) (before r : Region) (hr : IsBytes r)
    (header : IsHeader p protocol n before r) where
  off_word : le16 r 6 ≡ ip_off_field p
  off_word = omega (
    arith,
    header 6 (omega arith),
    header 7 (omega arith),
    set_ip_low p before 6 (omega arith),
    set_ip_low p before 7 (omega arith),
  )

  flags_word : ntohs (le16 (finish_v4 r) 6) ≡ ip_off_field p
  flags_word = omega (arith, finish_v4_words r hr, off_word)

  -- An offset below 32 with its bytes swapped takes none of the flags' bits.
  off_field_small :
      p.offset < 32
      → ip_off_field p
        ≡ flag p.rsv_frag 0x8000
          + flag p.dont_frag 0x4000
          + flag p.more_frag 0x2000
          + 256 * p.offset
  off_field_small small = omega (
    arith,
    flag_digit p.rsv_frag 0x8000,
    flag_digit p.dont_frag 0x4000,
    flag_digit p.more_frag 0x2000,
  )

  -- The flags go out right: with an offset of 0 the word of the flags holds them as RFC 791 says.
  -- But `analyze_ip` reads none of them back.
  pub flags_lost :
      p.offset ≡ 0
      → let v = ip_value (finish_v4 r) none in
        (ntohs (le16 (finish_v4 r) 6)
          ≡ flag p.rsv_frag 0x8000 + flag p.dont_frag 0x4000 + flag p.more_frag 0x2000)
        × (v.rsv_frag ≡ false)
        × (v.dont_frag ≡ false)
        × (v.more_frag ≡ false)
  flags_lost none_set =
      let small = off_field_small (omega arith) in
      let low_byte : finish_v4 r 7 ≡ 0 = omega (
        arith,
        flags_word,
        small,
        finish_v4-IsBytes r hr 6,
        finish_v4-IsBytes r hr 7,
        flag_digit p.rsv_frag 0x8000,
        flag_digit p.dont_frag 0x4000,
        flag_digit p.more_frag 0x2000,
      ) in
      let flags = ip_value_flags (finish_v4 r) none (finish_v4-IsBytes r hr) in
      (
        omega (arith, flags_word, small),
        flags.0 ∙ ap (λ x. bit x 7) low_byte,
        flags.1 ∙ ap (λ x. bit x 6) low_byte,
        flags.2 ∙ ap (λ x. bit x 5) low_byte,
      )

  -- An offset goes out with its bytes swapped: one below 32 arrives multiplied by 256.
  pub offset_swapped : p.offset < 32 → (ip_value (finish_v4 r) none).offset ≡ 256 * p.offset
  unfolding ip_value
  offset_swapped small = omega (
    arith,
    flags_word,
    off_field_small small,
    flag_digit p.rsv_frag 0x8000,
    flag_digit p.dont_frag 0x4000,
    flag_digit p.more_frag 0x2000,
  )

-- What `analyze_ip` hands over agrees with the packet, but for the flags and the offset.
pub record IsReadBack (p : IpPacket) (protocol n : ℕ) (v : IpValue) : Type 0 where
  pub version_same : v.version ≡ 4
  pub priority_same : v.priority ≡ p.priority
  pub d_flag_same : v.d_flag ≡ p.d_flag
  pub t_flag_same : v.t_flag ≡ p.t_flag
  pub r_flag_same : v.r_flag ≡ p.r_flag
  pub rsv_tos_same : v.rsv_tos ≡ p.rsv_tos
  pub len_same : v.len ≡ n
  pub ident_same : v.ident ≡ p.ident
  pub ttl_same : v.ttl ≡ p.hop_limit
  pub protocol_same : v.protocol ≡ protocol
  pub src_same : v.src ≡ p.source_address
  pub dst_same : v.dst ≡ p.destination_address
  pub option_none : v.option ≡ none
  pub offset_zero : p.offset ≡ 0 → v.offset ≡ 0

module _ (p : IpPacket) (protocol n : ℕ) (before r : Region) (h : IsIpv4 p) (hr : IsBytes r)
    (header : IsHeader p protocol n before r) (protocol_fits : protocol < 256)
    (n_fits : n < 65536) where
  low : (k : ℕ) → k < 20 → r k ≡ put_v4 protocol n (set_ip p before) k
  low k lt = header k lt

  word : (le16 r 2 ≡ n) × (r 0 ≡ 0x45) × (r 9 ≡ protocol) × (r 8 ≡ p.hop_limit)
  word = omega (
    arith,
    low 0 (omega arith),
    low 2 (omega arith),
    low 3 (omega arith),
    low 8 (omega arith),
    low 9 (omega arith),
    set_ip_low p before 0 (omega arith),
    set_ip_low p before 8 (omega arith),
    h,
  )

  ident_word : ntohs (le16 r 4) ≡ p.ident
  ident_word = omega (
    arith,
    low 4 (omega arith),
    low 5 (omega arith),
    set_ip_low p before 4 (omega arith),
    set_ip_low p before 5 (omega arith),
    h,
  )

  addresses : (slice r 12 4 ≡ p.source_address) × (slice r 16 4 ≡ p.destination_address)
  addresses = (
    slice-ext r (set_ip p before) 12 12 4 (λ k lt. ground (arith, low (12 + k)))
        ∙ (set_ip_addresses p before h).0,
    slice-ext r (set_ip p before) 16 16 4 (λ k lt. ground (arith, low (16 + k)))
        ∙ (set_ip_addresses p before h).1,
  )

  tos :
      let b = finish_v4 r 1 in
      (b / 32 ≡ p.priority)
      × (b % 4 ≡ p.rsv_tos)
      × (bit b 4 ≡ p.d_flag)
      × (bit b 3 ≡ p.t_flag)
      × (bit b 2 ≡ p.r_flag)
  tos =
      let e : finish_v4 r 1 ≡ set_ip p before 1 = (finish_v4_fields r).1 ∙ low 1 (omega arith) in
      rw e (set_ip_tos p before h)

  numbers :
      (ntohs (le16 (finish_v4 r) 2) ≡ n)
      × (ntohs (le16 (finish_v4 r) 4) ≡ p.ident)
      × (finish_v4 r 8 ≡ p.hop_limit)
      × (finish_v4 r 9 ≡ protocol)
      × (finish_v4 r 0 ≡ 0x45)
  numbers = omega (arith, finish_v4_fields r, finish_v4_words r hr, word, ident_word)

  wire_addresses :
      (slice (finish_v4 r) 12 4 ≡ p.source_address)
      × (slice (finish_v4 r) 16 4 ≡ p.destination_address)
  wire_addresses = ground (arith, finish_v4_addresses r, addresses)

  first_fragment : p.offset ≡ 0 → (ip_value (finish_v4 r) none).offset ≡ 0
  first_fragment e =
      omega (arith, e, offset_swapped p protocol n before r hr header (omega (arith, e)))

  pub read_back : IsReadBack p protocol n (ip_value (finish_v4 r) none)
  unfolding ip_value
  read_back = ground (arith, tos, numbers, wire_addresses, first_fragment)

  pub analyze_finished :
      (size : ℕ)
      → 20 ≤ size
      → analyze_ip (record { bytes = finish_v4 r; size = size })
        ≡ some (ip_value (finish_v4 r) none, 20)
  unfolding analyze_ip
  analyze_finished size captured = ground (arith, numbers)
