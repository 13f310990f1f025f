-- ===== src/Cksum/Segment.antt =====
-- What a receiver computes over the segment that `in_cksum2` was stored into, on odd sizes too.
use j_sdntrace.Base.{
  ◌==◌, if◌then◌else◌, Bool-cases, ℕ, suc, ◌+◌, ◌-◌, ◌*◌, ◌/◌, ◌%◌, ◌^◌, ◌≤◌, ◌<◌, ◌≡◌, refl, ap,
  ◌∙◌, inl, inr, arith,
}
use j_sdntrace.Wire.{Region, IsBytes, le16, ntohs, put16}
use j_sdntrace.Wire.Laws.{put16-IsBytes}
use j_sdntrace.Cksum.{sum_words, fold_sum, pseudo_sum, in_cksum2}
use j_sdntrace.Cksum.Sum.{
  word_sum, wire_sum, word_sum-le, sum_words_even, sum_words_odd, wire_sum-word_sum, word_sum-put16,
}
use j_sdntrace.Cksum.Verify.{fold_sum_complements, fold_sum-lt}

-- The pseudo header of RFC 793 and 768 and the segment, in network order, padded with a zero byte.
abbrev pub wire_pseudo : Region → ℕ → ℕ
wire_pseudo ip size =
    ntohs (le16 ip 12) + ntohs (le16 ip 14) + ntohs (le16 ip 16) + ntohs (le16 ip 18) + ip 9 + size

abbrev pub wire_segment : Region → ℕ → ℕ
wire_segment r size = wire_sum r 0 (size / 2) + (if size % 2 == 0 then 0 else r (size - 1) * 256)

-- The last byte of an odd segment, as the host adds it.
abbrev last_byte : Region → ℕ → ℕ
last_byte r size = if size % 2 == 0 then 0 else r (size - 1)

host_segment : Region → ℕ → ℕ
host_segment r size = word_sum r 0 (size / 2) + last_byte r size

host_segment-le :
    (r : Region) (size : ℕ) → IsBytes r → size < 65536 → host_segment r size ≤ 65535 * 32768 + 255
unfolding host_segment
host_segment-le r size h fits = ground (arith, word_sum-le r 0 (size / 2) h, h (size - 1))

pseudo_sum-le : (ip : Region) (len : ℕ) → IsBytes ip → len < 65536 → pseudo_sum ip len ≤ 65535 * 6
unfolding pseudo_sum
pseudo_sum-le ip len h fits = omega (arith, h 9, h 12, h 13, h 14, h 15, h 16, h 17, h 18, h 19)

sum_words_any :
    (r : Region) (size sum : ℕ)
    → IsBytes r
    → size < 65536
    → sum < 2 ^ 32
    → sum_words (λ i. r i) r 0 size sum ≡ sum + host_segment r size
unfolding host_segment
sum_words_any r size sum h fits small = elim (Bool-cases (size % 2 == 0)) [
  | inl even ↦
      let e : size ≡ size / 2 + size / 2 = ground arith in
      ap (λ s. sum_words (λ i. r i) r 0 s sum) e
      ∙ sum_words_even (λ i. r i) r 0 (size / 2) sum h (omega arith)
      ∙ rw even (omega arith)
  | inr odd ↦
      let e : size ≡ suc (size / 2 + size / 2) = ground arith in
      ap (λ s. sum_words (λ i. r i) r 0 s sum) e
      ∙ sum_words_odd (λ i. r i) r 0 (size / 2) sum (size - 1) h (omega arith)
          (omega (arith, h (size - 1))) (omega arith)
      ∙ rw odd (omega arith)
]

in_cksum2-fold_sum :
    (ip r : Region) (len size : ℕ)
    → IsBytes ip
    → IsBytes r
    → len < 65536
    → size < 65536
    → in_cksum2 ip len r size ≡ fold_sum (pseudo_sum ip len + host_segment r size)
unfolding in_cksum2
in_cksum2-fold_sum ip r len size hip hr len_fits fits = ap fold_sum (
    sum_words_any r size (pseudo_sum ip len) hr fits
      (omega (arith, pseudo_sum-le ip len hip len_fits)))

-- In network order both sums are 256 times the host's, up to multiples of 65535.
wire_pseudo-pseudo_sum :
    (ip : Region) (size : ℕ)
    → IsBytes ip
    → size < 65536
    → wire_pseudo ip size % 65535 ≡ 256 * pseudo_sum ip (ntohs size) % 65535
unfolding pseudo_sum
wire_pseudo-pseudo_sum ip size h fits =
    omega (arith, h 9, h 12, h 13, h 14, h 15, h 16, h 17, h 18, h 19)

wire_segment-host_segment :
    (r : Region) (size : ℕ)
    → IsBytes r
    → wire_segment r size % 65535 ≡ 256 * host_segment r size % 65535
unfolding host_segment
wire_segment-host_segment r size h = ground (arith, wire_sum-word_sum r 0 (size / 2) h)

host_segment-put16 :
    (r : Region) (size k v : ℕ)
    → k + k + 2 ≤ size
    → v < 65536
    → le16 r (k + k) ≡ 0
    → host_segment (put16 r (k + k) v) size ≡ host_segment r size + v
unfolding host_segment
host_segment-put16 r size k v lt hv zero_field =
    let words : word_sum (put16 r (k + k) v) 0 (size / 2) + le16 r (k + k)
        ≡ word_sum r 0 (size / 2) + v =
      word_sum-put16 r 0 (size / 2) (k + k) k v (omega arith) (omega arith) hv in
    ground (arith)

-- Any value congruent to `in_cksum2` modulo 65535 will do: `set_udp` sends 0xffff for 0.
pub in_cksum2_congruent :
    (ip r : Region) (size k v : ℕ)
    → IsBytes ip
    → IsBytes r
    → size < 65536
    → k + k + 2 ≤ size
    → le16 r (k + k) ≡ 0
    → v < 65536
    → v % 65535 ≡ in_cksum2 ip (ntohs size) r size % 65535
    → (wire_pseudo ip size + wire_segment (put16 r (k + k) v) size) % 65535 ≡ 0
in_cksum2_congruent ip r size k v hip hr fits inside zero_field hv e = omega (
  arith,
  wire_pseudo-pseudo_sum ip size hip fits,
  wire_segment-host_segment (put16 r (k + k) v) size (put16-IsBytes r (k + k) v hr),
  host_segment-put16 r size k v inside hv zero_field,
  complement,
)
  where
    complement :
        (pseudo_sum ip (ntohs size) + host_segment r size + in_cksum2 ip (ntohs size) r size)
          % 65535
        ≡ 0
    complement =
        rw (in_cksum2-fold_sum ip r (ntohs size) size hip hr (omega arith) fits)
          (fold_sum_complements (pseudo_sum ip (ntohs size) + host_segment r size) (
            omega (
              arith,
              pseudo_sum-le ip (ntohs size) hip (omega arith),
              host_segment-le r size hr fits,
            ))).1

pub in_cksum2-lt : (ip : Region) (len : ℕ) (r : Region) (size : ℕ) → in_cksum2 ip len r size < 65536
unfolding in_cksum2
in_cksum2-lt ip len r size = fold_sum-lt _

-- Let the segment have fewer than 65536 bytes, an even or an odd number, and a checksum field of
-- zero at an even offset inside it. Once `in_cksum2`, given the size in network order, is stored
-- there, the words of the pseudo header and the segment in network order sum to a multiple of
-- 65535, as RFC 793 and RFC 768 ask.
pub in_cksum2_verifies :
    (ip r : Region) (size k : ℕ)
    → IsBytes ip
    → IsBytes r
    → size < 65536
    → k + k + 2 ≤ size
    → le16 r (k + k) ≡ 0
    → let r' = put16 r (k + k) (in_cksum2 ip (ntohs size) r size) in
      (wire_pseudo ip size + wire_segment r' size) % 65535 ≡ 0
in_cksum2_verifies ip r size k hip hr fits inside zero_field =
    in_cksum2_congruent ip r size k (in_cksum2 ip (ntohs size) r size) hip hr fits inside zero_field
      (in_cksum2-lt ip (ntohs size) r size) refl
