-- ===== src/Tests/Checksum.antt =====
-- The checksums on concrete headers.
use j_sdntrace.Cksum.Sum.{wire_sum}
use j_sdntrace.Base.{◌+◌, ◌%◌, ◌≡◌, refl, arith}
use j_sdntrace.Wire.{Region, IsBytes, ntohs, put16}
use j_sdntrace.Cksum.{in_cksum, in_cksum2}
use j_sdntrace.Cksum.Verify.{in_cksum_verifies}
use j_sdntrace.Cksum.Segment.{wire_pseudo, wire_segment, in_cksum2_verifies}
use j_sdntrace.Tests.{zeros}

abbrev words : Region
words = put16 zeros 0 0x1234

words-IsBytes : IsBytes words
words-IsBytes k = ground arith

in_cksum_verifies_example :
    let r' = put16 words 10 (in_cksum words 20) in
    (wire_sum r' 0 10 % 65535 ≡ 0) × (in_cksum r' 20 ≡ 0)
in_cksum_verifies_example =
    in_cksum_verifies words 10 5 words-IsBytes (omega arith) (omega arith) refl

in_cksum2_verifies_example :
    let r' = put16 words 6 (in_cksum2 words (ntohs 11) words 11) in
    (wire_pseudo words 11 + wire_segment r' 11) % 65535 ≡ 0
in_cksum2_verifies_example =
    in_cksum2_verifies words words 11 3 words-IsBytes words-IsBytes (omega arith) (omega arith) refl
