-- ===== src/Cksum.antt =====
-- The Internet checksum of JpcapSender.c: `in_cksum` over a header, and `in_cksum2` over a TCP or
-- UDP segment behind its pseudo header.
pub mod Sum
pub mod Verify
pub mod Segment
use j_sdntrace.Base.{ℕ, zero, suc, ◌+◌, ◌-◌, ◌*◌, ◌/◌, ◌%◌, ◌^◌}
use j_sdntrace.Wire.{Region, le16, ntohs}

-- `while(size > 1){ sum += *(data++); size -= 2; }` and then, on one byte left, what `tail` reads.
-- `sum` is an `unsigned long` of 64 bits.
pub sum_words : (ℕ → ℕ) → Region → ℕ → ℕ → ℕ → ℕ
sum_words tail r i zero sum = sum
sum_words tail r i (suc zero) sum = (sum + tail i) % 2 ^ 64
sum_words tail r i (suc (suc size)) sum = sum_words tail r (i + 2) size ((sum + le16 r i) % 2 ^ 64)

-- Both functions end by folding the carries in twice and complementing.
pub fold_sum : ℕ → ℕ
fold_sum sum = let once = sum % 65536 + sum / 65536 in 65535 - (once / 65536 + once % 65536) % 65536

-- The tail of `in_cksum` is `(*data) & 0xff00`.
unfoldable pub in_cksum : Region → ℕ → ℕ
unfolding sum_words fold_sum
in_cksum r size = fold_sum (sum_words (λ i. le16 r i / 256 * 256) r 0 size 0)

-- What `in_cksum2` adds up before the segment: the addresses behind the `struct ip`, its protocol,
-- and `len`, which the caller has put in network order.
pub pseudo_sum : Region → ℕ → ℕ
pseudo_sum ip len = le16 ip 12 + le16 ip 14 + le16 ip 16 + le16 ip 18 + ntohs (ip 9) + len

-- The tail of `in_cksum2` is the last byte.
unfoldable pub in_cksum2 : Region → ℕ → Region → ℕ → ℕ
unfolding sum_words fold_sum pseudo_sum
in_cksum2 ip len r size = fold_sum (sum_words (λ i. r i) r 0 size (pseudo_sum ip len))
