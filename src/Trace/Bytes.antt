-- ===== src/Trace/Bytes.antt =====
-- Numbers in a buffer, and what is read back.
use j_sdntrace.Base.{ℕ, ◌+◌, ◌*◌, ◌/◌, ◌%◌, ◌^◌, ◌<◌, ◌≡◌, ap, some, List, ◌∷◌, ◌++◌, arith}
use j_sdntrace.Trace.{put_bytes, get_bytes}

-- The digits of base 256 of a number, put together again.
four_digits :
    (x : ℕ)
    → x < 2 ^ 32
    → (((0 + x / 16777216 % 256) * 256 + x / 65536 % 256) * 256 + x / 256 % 256) * 256 + x / 1 % 256
      ≡ x
four_digits x small = omega arith

eight_digits :
    (x : ℕ)
    → x < 2 ^ 64
    → (((((((0 + x / 72057594037927936 % 256) * 256 + x / 281474976710656 % 256) * 256
                            + x / 1099511627776 % 256)
                          * 256
                        + x / 4294967296 % 256)
                      * 256
                    + x / 16777216 % 256)
                  * 256
                + x / 65536 % 256)
              * 256
            + x / 256 % 256)
          * 256
        + x / 1 % 256
      ≡ x
eight_digits x small = omega arith

pub get_int :
    (x : ℕ) (rest : List ℕ) → x < 2 ^ 32 → get_bytes 4 0 (put_bytes 4 x ++ rest) ≡ some (x, rest)
unfolding get_bytes put_bytes
get_int x rest small = ap (λ k. some (k, rest)) (four_digits x small)

pub get_long :
    (x : ℕ) (rest : List ℕ) → x < 2 ^ 64 → get_bytes 8 0 (put_bytes 8 x ++ rest) ≡ some (x, rest)
unfolding get_bytes put_bytes
get_long x rest small = ap (λ k. some (k, rest)) (eight_digits x small)

pub get_byte : (x : ℕ) (rest : List ℕ) → get_bytes 1 0 (x ∷ rest) ≡ some (x, rest)
unfolding get_bytes
get_byte x rest = let same : 0 + x ≡ x = omega arith in ap (λ k. some (k, rest)) same
