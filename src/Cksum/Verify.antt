-- ===== src/Cksum/Verify.antt =====
-- What a receiver computes over the bytes that `in_cksum` was stored into, and what `in_cksum` does
-- with a last odd byte.
use j_sdntrace.Base.{ℕ, suc, ◌+◌, ◌*◌, ◌%◌, ◌^◌, ◌≤◌, ◌<◌, ◌≡◌, sym, ap, ◌∙◌, arith}
use j_sdntrace.Wire.{Region, IsBytes, le16, poke, put16}
use j_sdntrace.Wire.Laws.{poke-IsBytes, put16-IsBytes}
use j_sdntrace.Cksum.{fold_sum, in_cksum}
use j_sdntrace.Cksum.Sum.{
  word_sum, wire_sum, word_sum-le, sum_words_even, sum_words_odd, wire_sum-word_sum, word_sum-put16,
  word_sum-poke_out,
}

pub fold_sum_complements :
    (s : ℕ) → s < 2 ^ 32 → (fold_sum s < 65536) × ((s + fold_sum s) % 65535 ≡ 0)
unfolding fold_sum
fold_sum_complements s h = (omega arith, omega arith)

pub fold_sum-lt : (s : ℕ) → fold_sum s < 65536
unfolding fold_sum
fold_sum-lt s = omega arith

pub fold_sum-zero : (s : ℕ) → s < 2 ^ 32 → 0 < s → s % 65535 ≡ 0 → fold_sum s ≡ 0
unfolding fold_sum
fold_sum-zero s h p e = omega arith

fold_sum-pos : (s : ℕ) → s < 2 ^ 32 → 0 < s + fold_sum s
unfolding fold_sum
fold_sum-pos s h = omega arith

pub in_cksum_even :
    (r : Region) (n : ℕ) → IsBytes r → n ≤ 32768 → in_cksum r (n + n) ≡ fold_sum (word_sum r 0 n)
unfolding in_cksum
in_cksum_even r n h fits = ap fold_sum (sum_words_even _ r 0 n 0 h (omega arith) ∙ omega arith)

-- Let the header have an even number of bytes, 65536 at most, and a checksum field of zero at an
-- even offset. Once `in_cksum` is stored there, the words of the header in network order sum to a
-- multiple of 65535, as RFC 1071 asks, and `in_cksum` over the header is 0.
pub in_cksum_verifies :
    (r : Region) (n k : ℕ)
    → IsBytes r
    → n ≤ 32768
    → k < n
    → le16 r (k + k) ≡ 0
    → let r' = put16 r (k + k) (in_cksum r (n + n)) in
      (wire_sum r' 0 n % 65535 ≡ 0) × (in_cksum r' (n + n) ≡ 0)
in_cksum_verifies r n k h fits lt zero_field = (wire, again)
  where
    c : ℕ
    c = in_cksum r (n + n)

    r' : Region
    r' = put16 r (k + k) c

    c_fits : (c < 65536) × ((word_sum r 0 n + c) % 65535 ≡ 0)
    c_fits =
        rw (in_cksum_even r n h fits)
          (fold_sum_complements (word_sum r 0 n) (omega (arith, word_sum-le r 0 n h)))

    stored : word_sum r' 0 n ≡ word_sum r 0 n + c
    stored = omega (arith, word_sum-put16 r 0 n (k + k) k c (omega arith) lt c_fits.0)

    bytes : IsBytes r'
    bytes = put16-IsBytes r (k + k) c h

    wire : wire_sum r' 0 n % 65535 ≡ 0
    wire = omega (arith, wire_sum-word_sum r' 0 n bytes, stored, c_fits)

    positive : 0 < word_sum r 0 n + c
    positive =
        rw (in_cksum_even r n h fits)
          (fold_sum-pos (word_sum r 0 n) (omega (arith, word_sum-le r 0 n h)))

    again : in_cksum r' (n + n) ≡ 0
    again =
        in_cksum_even r' n bytes fits
        ∙ ap fold_sum stored
        ∙ fold_sum-zero (word_sum r 0 n + c) (omega (arith, word_sum-le r 0 n h, c_fits)) positive
            c_fits.1

in_cksum_odd :
    (r : Region) (n : ℕ)
    → IsBytes r
    → n ≤ 32767
    → in_cksum r (suc (n + n)) ≡ fold_sum (word_sum r 0 n + 256 * r (n + n + 1))
unfolding in_cksum
in_cksum_odd r n h fits = ap fold_sum (
    sum_words_odd _ r 0 n 0 (n + n) h (omega arith) (omega (arith, h (n + n), h (n + n + 1)))
      (omega arith)
    ∙ omega (arith, h (n + n)))

-- On an odd size `in_cksum` does not depend on the last byte: it reads the one behind it instead.
pub in_cksum_odd_ignores_last :
    (r : Region) (n v : ℕ)
    → IsBytes r
    → n ≤ 32767
    → v < 256
    → in_cksum (poke r (n + n) v) (suc (n + n)) ≡ in_cksum r (suc (n + n))
in_cksum_odd_ignores_last r n v h fits hv =
    in_cksum_odd (poke r (n + n) v) n (poke-IsBytes r (n + n) v h hv) fits
    ∙ ap fold_sum (omega (arith, word_sum-poke_out r 0 n (n + n) v (omega arith), next_kept))
    ∙ sym (in_cksum_odd r n h fits)
  where
    next_kept : poke r (n + n) v (n + n + 1) ≡ r (n + n + 1)
    next_kept = ground arith
