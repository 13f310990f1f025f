-- ===== src/Cksum/Sum.antt =====
-- The sums that the checksums run through, as plain sums of 16-bit words.
use j_sdntrace.Base.{ℕ, zero, suc, ◌+◌, ◌*◌, ◌%◌, ◌^◌, ◌≤◌, ◌<◌, ◌≡◌, refl, ap, ◌∙◌, arith}
use j_sdntrace.Wire.{Region, IsBytes, le16, ntohs, poke, put16}
use j_sdntrace.Cksum.{sum_words}

-- n words from byte i on, as the host loads them and as they go over the wire.
abbrev pub word_sum : Region → ℕ → ℕ → ℕ
word_sum r i zero = 0
word_sum r i (suc n) = le16 r i + word_sum r (i + 2) n

-- RFC 1071 adds words in network order.
abbrev pub wire_sum : Region → ℕ → ℕ → ℕ
wire_sum r i zero = 0
wire_sum r i (suc n) = ntohs (le16 r i) + wire_sum r (i + 2) n

pub word_sum-le : (r : Region) (i n : ℕ) → IsBytes r → word_sum r i n ≤ 65535 * n
word_sum-le r i zero h = omega arith
word_sum-le r i (suc n) h = omega (arith, h i, h (i + 1), word_sum-le r (i + 2) n h)

sum_words_step :
    (tail : ℕ → ℕ) (r : Region) (i m n sum : ℕ)
    → IsBytes r
    → sum + 65536 ≤ 2 ^ 64
    → n ≡ suc (suc m)
    → sum_words tail r i n sum ≡ sum_words tail r (i + 2) m (sum + le16 r i)
unfolding sum_words
sum_words_step tail r i m n sum h fits e =
    let wrap : (sum + le16 r i) % 2 ^ 64 ≡ sum + le16 r i = omega (arith, h i, h (i + 1)) in
    rw e (ap (sum_words tail r (i + 2) m) wrap)

-- With fewer than 2 ^ 32 bytes nothing wraps: an even size gives the plain sum.
pub sum_words_even :
    (tail : ℕ → ℕ) (r : Region) (i n sum : ℕ)
    → IsBytes r
    → sum + 65536 * n < 2 ^ 64
    → sum_words tail r i (n + n) sum ≡ sum + word_sum r i n
sum_words_even tail r i zero sum h fits = unfold sum_words in omega arith
sum_words_even tail r i (suc n) sum h fits =
    sum_words_step tail r i (n + n) (suc n + suc n) sum h (omega arith) (omega arith)
    ∙ omega
        (arith, sum_words_even tail r (i + 2) n (sum + le16 r i) h (omega (arith, h i, h (i + 1))))

-- An odd size adds what the tail reads at the last byte.
pub sum_words_odd :
    (tail : ℕ → ℕ) (r : Region) (i n sum j : ℕ)
    → IsBytes r
    → j ≡ i + (n + n)
    → tail j < 65536
    → sum + 65536 * n + 65536 < 2 ^ 64
    → sum_words tail r i (suc (n + n)) sum ≡ sum + word_sum r i n + tail j
sum_words_odd tail r i zero sum j h e t fits =
    let e' : j ≡ i = omega arith in unfold sum_words in ground (arith, ap tail e')
sum_words_odd tail r i (suc n) sum j h e t fits =
    sum_words_step tail r i (suc (n + n)) (suc (suc n + suc n)) sum h (omega arith) (omega arith)
    ∙ omega (
      arith,
      sum_words_odd tail r (i + 2) n (sum + le16 r i) j h (omega arith) t
          (omega (arith, h i, h (i + 1))),
    )

-- Swapping the bytes of a word multiplies it by 256, up to a multiple of 65535.
pub wire_sum-word_sum :
    (r : Region) (i n : ℕ) → IsBytes r → wire_sum r i n % 65535 ≡ 256 * word_sum r i n % 65535
wire_sum-word_sum r i zero h = refl
wire_sum-word_sum r i (suc n) h = omega (arith, h i, h (i + 1), wire_sum-word_sum r (i + 2) n h)

-- A store into the word at byte j, which lies k words on.
pub word_sum-put16_out :
    (r : Region) (i n j v : ℕ) → j + 2 ≤ i → word_sum (put16 r j v) i n ≡ word_sum r i n
word_sum-put16_out r i zero j v h = refl
word_sum-put16_out r i (suc n) j v h =
    ground (arith, word_sum-put16_out r (i + 2) n j v (omega arith))

pub word_sum-put16 :
    (r : Region) (i n j k v : ℕ)
    → j ≡ i + (k + k)
    → k < n
    → v < 65536
    → word_sum (put16 r j v) i n + le16 r j ≡ word_sum r i n + v
word_sum-put16 r i zero j k v e lt hv = absurd (omega arith)
word_sum-put16 r i (suc n) j zero v e lt hv =
    ground (arith, word_sum-put16_out r (i + 2) n j v (omega arith))
word_sum-put16 r i (suc n) j (suc k) v e lt hv =
    ground (arith, word_sum-put16 r (i + 2) n j k v (omega arith) (omega arith) hv)

pub word_sum-poke_out :
    (r : Region) (i n j v : ℕ) → i + (n + n) ≤ j → word_sum (poke r j v) i n ≡ word_sum r i n
word_sum-poke_out r i zero j v h = refl
word_sum-poke_out r i (suc n) j v h =
    ground (arith, word_sum-poke_out r (i + 2) n j v (omega arith))
