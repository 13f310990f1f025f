-- ===== src/Icmp/Echo.antt =====
-- ICMP echo messages: what `set_icmp` writes, and what `analyze_icmp` reads back.
use mathlib.Core.Path.{subst}
use j_sdntrace.Base.{
  ◌==◌, le→leb, length, All, ℕ, ◌+◌, ◌%◌, ◌≤◌, ◌<◌, ◌≡◌, refl, ◌∙◌, ◌⊎◌, inl, inr, true, ◌||◌, some,
  List, arith,
}
use j_sdntrace.Wire.{Region, IsBytes, le16, put16, get_region, slice, View}
use j_sdntrace.Wire.Laws.{
  slice-ext, put16-IsBytes, get_region-IsBytes, get_region-below, slice-get_region_whole,
  copy_region-fits,
}
use j_sdntrace.Cksum.{in_cksum}
use j_sdntrace.Objects.{IcmpPacket}
use j_sdntrace.Icmp.{icmp_body, analyze_icmp, put_sum, set_icmp}
use j_sdntrace.Icmp.Message.{
  IsIcmp, high_signed-ntohs, head, head-IsBytes, put_sum-kept, put_sum-verifies, echo_value, IsHead,
  head-IsHead,
}

analyze_icmp-echo :
    (p : IcmpPacket) (v : View) (clen : ℕ)
    → (p.type ≡ 0) ⊎ (p.type ≡ 8)
    → IsHead p v.bytes
    → 8 ≤ v.size
    → analyze_icmp v clen ≡ some (echo_value p (le16 v.bytes 2))
unfolding analyze_icmp icmp_body
analyze_icmp-echo p v clen (inl t) is_head captured =
    rw
      (
        le→leb 4 v.size (omega arith),
        le→leb 8 v.size captured,
        is_head.0 ∙ t,
        is_head.1,
        is_head.2,
        is_head.3,
        high_signed-ntohs p.id,
        high_signed-ntohs p.seq,
        t,
      )
      refl
analyze_icmp-echo p v clen (inr t) is_head captured =
    rw
      (
        le→leb 4 v.size (omega arith),
        le→leb 8 v.size captured,
        is_head.0 ∙ t,
        is_head.1,
        is_head.2,
        is_head.3,
        high_signed-ntohs p.id,
        high_signed-ntohs p.seq,
        t,
      )
      refl

filled-IsHead :
    (p : IcmpPacket) (b : Region) (payload : List ℕ)
    → IsHead p b
    → IsHead p (get_region payload (length payload) b 8)
filled-IsHead p b payload is_head =
    let kept = get_region-below payload (length payload) b 8 in
    (
      kept 0 (omega arith) ∙ is_head.0,
      kept 1 (omega arith) ∙ is_head.1,
      omega (arith, kept 4 (omega arith), kept 5 (omega arith), is_head.2),
      omega (arith, kept 6 (omega arith), kept 7 (omega arith), is_head.3),
    )

echo_type :
    (p : IcmpPacket) → (p.type ≡ 0) ⊎ (p.type ≡ 8) → (p.type % 256 == 0 || p.type % 256 == 8) ≡ true
echo_type p echo = ground arith

-- An echo request or reply with a payload of an even number of bytes, 65528 at most, that fits in the
-- buffer: `set_icmp` writes the payload behind the 8 bytes of the header, reports 8 bytes, and stores
-- the checksum that makes `in_cksum` over the message 0. `analyze_icmp` reads the type, the code and
-- the checksum back; of the identifier and of the sequence number it hands over the lower byte with
-- its sign extended.
pub set_icmp_echo :
    (p : IcmpPacket) (r : Region) (room m clen size : ℕ) (payload : List ℕ)
    → IsIcmp p
    → (p.type ≡ 0) ⊎ (p.type ≡ 8)
    → IsBytes r
    → All (λ b. b < 256) payload
    → length payload ≡ m + m
    → m ≤ 32764
    → 8 + length payload ≤ room
    → 8 ≤ size
    → (r' : Region) × (set_icmp p room (some payload) r ≡ some (r', 8))
      × (in_cksum r' (8 + length payload) ≡ 0)
      × (slice r' 8 (length payload) ≡ payload)
      × (analyze_icmp (record { bytes = r'; size = size }) clen ≡ some (echo_value p (le16 r' 2)))
unfolding set_icmp
set_icmp_echo p r room m clen size payload fields echo hr hp even small fits captured =
    let filled = get_region payload (length payload) (head p r) 8 in
    let filled_bytes =
      get_region-IsBytes payload (length payload) (head p r) 8 (head-IsBytes p r hr) hp in
    (
      put_sum filled (8 + length payload),
      rw (echo_type p echo, copy_region-fits room payload (length payload) (head p r) 8 fits) refl,
      put_sum-verifies filled (4 + m) (8 + length payload) filled_bytes (omega arith) (omega arith)
          (omega (arith, even)),
      slice-ext (put_sum filled (8 + length payload)) filled 8 8 (length payload)
            (λ k lt. put_sum-kept filled (8 + length payload) (8 + k) (inr (omega arith)))
          ∙ slice-get_region_whole payload (length payload) (head p r) 8 refl,
      analyze_icmp-echo p _ clen echo
          (filled-IsHead p (head p r) payload (head-IsHead p r fields (omega (arith, echo))))
          captured,
    )

pub set_icmp_echo-IsBytes :
    (p : IcmpPacket) (r r' : Region) (room : ℕ) (payload : List ℕ)
    → (p.type ≡ 0) ⊎ (p.type ≡ 8)
    → IsBytes r
    → All (λ b. b < 256) payload
    → 8 + length payload ≤ room
    → set_icmp p room (some payload) r ≡ some (r', 8)
    → IsBytes r'
unfolding set_icmp
set_icmp_echo-IsBytes p r r' room payload echo hr hp fits made =
    let filled = get_region payload (length payload) (head p r) 8 in
    let filled_bytes =
      get_region-IsBytes payload (length payload) (head p r) 8 (head-IsBytes p r hr) hp in
    let result : some (put_sum filled (8 + length payload), 8) ≡ some (r', 8) =
      rw
        (
          set_icmp,
          echo_type p echo,
          copy_region-fits room payload (length payload) (head p r) 8 fits,
        )
        at made in
    let same : put_sum filled (8 + length payload) ≡ r' = cc result in
    subst IsBytes same (
      put16-IsBytes _ 2 (in_cksum (put16 filled 2 0) (8 + length payload))
        (put16-IsBytes filled 2 0 filled_bytes))
