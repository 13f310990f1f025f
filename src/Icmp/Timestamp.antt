-- ===== src/Icmp/Timestamp.antt =====
-- ICMP timestamp messages: what `set_icmp` writes, and what `analyze_icmp` reads back.
use j_sdntrace.Base.{
  ◌==◌, if◌then◌else◌, le→leb, ℕ, ◌%◌, ◌^◌, ◌≤◌, ◌<◌, ◌≡◌, refl, ap, ◌∙◌, ◌⊎◌, inl, inr, ◌||◌,
  Option, some, List, arith,
}
use j_sdntrace.Wire.{Region, IsBytes, le16, le32, ntohl, put32, View}
use j_sdntrace.Wire.Laws.{put32-IsBytes}
use j_sdntrace.Cksum.{in_cksum}
use j_sdntrace.Objects.{IcmpPacket}
use j_sdntrace.Icmp.{
  IcmpValue, icmp_timestamp, icmp_body, analyze_icmp, minus32, put_sum, payload_length, set_icmp,
}
use j_sdntrace.Icmp.Message.{
  IsIcmp, high_signed-ntohs, head, head-IsBytes, put_sum-verifies, echo_value, IsHead,
  put_sum-IsHead, head-IsHead,
}

-- What a timestamp message is read back as.
abbrev pub timestamp_value : IcmpPacket → ℕ → IcmpValue
timestamp_value p cksum = record (echo_value p cksum) {
  timestamp = some (ntohl p.orig_timestamp, ntohl p.recv_timestamp, ntohl p.trans_timestamp);
}

analyze_icmp-timestamp :
    (p : IcmpPacket) (v : View) (clen : ℕ)
    → (p.type ≡ 13) ⊎ (p.type ≡ 14)
    → IsHead p v.bytes
    → le32 v.bytes 8 ≡ ntohl p.orig_timestamp
    → le32 v.bytes 12 ≡ ntohl p.recv_timestamp
    → le32 v.bytes 16 ≡ ntohl p.trans_timestamp
    → 20 ≤ v.size
    → analyze_icmp v clen ≡ some (timestamp_value p (le16 v.bytes 2))
unfolding analyze_icmp icmp_body icmp_timestamp
analyze_icmp-timestamp p v clen (inl t) is_head orig recv trans captured =
    rw
      (
        le→leb 4 v.size (omega arith),
        le→leb 8 v.size (omega arith),
        le→leb 20 v.size captured,
        is_head.0 ∙ t,
        is_head.1,
        is_head.2,
        is_head.3,
        orig,
        recv,
        trans,
        high_signed-ntohs p.id,
        high_signed-ntohs p.seq,
        t,
      )
      refl
analyze_icmp-timestamp p v clen (inr t) is_head orig recv trans captured =
    rw
      (
        le→leb 4 v.size (omega arith),
        le→leb 8 v.size (omega arith),
        le→leb 20 v.size captured,
        is_head.0 ∙ t,
        is_head.1,
        is_head.2,
        is_head.3,
        orig,
        recv,
        trans,
        high_signed-ntohs p.id,
        high_signed-ntohs p.seq,
        t,
      )
      refl

abbrev stamps : Region → ℕ → ℕ → ℕ → Region
stamps b x y z = put32 (put32 (put32 b 8 x) 12 y) 16 z

stamps-kept : (b : Region) (x y z k : ℕ) → k < 8 → stamps b x y z k ≡ b k
stamps-kept b x y z k lt = ground arith

stamps-read :
    (b : Region) (x y z : ℕ)
    → x < 2 ^ 32
    → y < 2 ^ 32
    → z < 2 ^ 32
    → (le32 (stamps b x y z) 8 ≡ x)
      × (le32 (stamps b x y z) 12 ≡ y)
      × (le32 (stamps b x y z) 16 ≡ z)
stamps-read b x y z hx hy hz = (omega arith, omega arith, omega arith)

stamps-IsBytes : (b : Region) (x y z : ℕ) → IsBytes b → IsBytes (stamps b x y z)
stamps-IsBytes b x y z hb =
    put32-IsBytes (put32 (put32 b 8 x) 12 y) 16 z
      (put32-IsBytes (put32 b 8 x) 12 y (put32-IsBytes b 8 x hb))

stamps-IsHead : (p : IcmpPacket) (b : Region) (x y z : ℕ) → IsHead p b → IsHead p (stamps b x y z)
stamps-IsHead p b x y z is_head =
    let kept = stamps-kept b x y z in
    (
      kept 0 (omega arith) ∙ is_head.0,
      kept 1 (omega arith) ∙ is_head.1,
      omega (arith, kept 4 (omega arith), kept 5 (omega arith), is_head.2),
      omega (arith, kept 6 (omega arith), kept 7 (omega arith), is_head.3),
    )

put_sum-read :
    (b : Region) (n x y z : ℕ)
    → (le32 b 8 ≡ x) × (le32 b 12 ≡ y) × (le32 b 16 ≡ z)
    → (le32 (put_sum b n) 8 ≡ x) × (le32 (put_sum b n) 12 ≡ y) × (le32 (put_sum b n) 16 ≡ z)
put_sum-read b n x y z read = read

ntohl-lt : (x : ℕ) → ntohl x < 2 ^ 32
ntohl-lt x = omega arith

stamped :
    (p : IcmpPacket) (b : Region) (clen size : ℕ)
    → (p.type ≡ 13) ⊎ (p.type ≡ 14)
    → IsHead p b
    → IsBytes b
    → (le32 b 8 ≡ ntohl p.orig_timestamp)
      × (le32 b 12 ≡ ntohl p.recv_timestamp)
      × (le32 b 16 ≡ ntohl p.trans_timestamp)
    → 20 ≤ size
    → (in_cksum (put_sum b 20) 20 ≡ 0)
      × (analyze_icmp (record { bytes = put_sum b 20; size = size }) clen
          ≡ some (timestamp_value p (le16 (put_sum b 20) 2)))
stamped p b clen size stamp is_head hb read captured =
    let read' = put_sum-read b 20 _ _ _ read in
    (
      put_sum-verifies b 10 20 hb (omega arith) (omega arith) refl,
      analyze_icmp-timestamp p (record { bytes = put_sum b 20; size = size }) clen stamp
          (put_sum-IsHead p b 20 is_head) read'.0 read'.1 read'.2 captured,
    )

timestamp_type :
    (p : IcmpPacket) (A : Type 0) (echo error stamp mask other : A)
    → (p.type ≡ 13) ⊎ (p.type ≡ 14)
    → (let t = p.type % 256 in
        if t == 0 || t == 8
        then echo
        else if t == 5 || t == 3 || t == 4 || t == 11 || t == 12
        then error
        else if t == 13 || t == 14
        then stamp
        else if t == 17 || t == 18
        then mask
        else other)
      ≡ stamp
timestamp_type p A echo error stamp mask other (inl e) = rw e refl
timestamp_type p A echo error stamp mask other (inr e) = rw e refl

-- A timestamp request or reply, in a buffer of bytes: `set_icmp` stores the checksum that makes
-- `in_cksum` over the 20 bytes of the message 0, and what `set_packet` adds for it is 20 less the
-- payload's length. `analyze_icmp` reads the type, the code and the checksum back, and hands over
-- each timestamp with its four bytes in reverse.
pub set_icmp_timestamp :
    (p : IcmpPacket) (r : Region) (room clen size : ℕ) (payload : Option (List ℕ))
    → IsIcmp p
    → (p.type ≡ 13) ⊎ (p.type ≡ 14)
    → p.orig_timestamp < 2 ^ 32
    → p.recv_timestamp < 2 ^ 32
    → p.trans_timestamp < 2 ^ 32
    → IsBytes r
    → 20 ≤ size
    → (r' : Region) × (set_icmp p room payload r ≡ some (r', minus32 20 (payload_length payload)))
      × (in_cksum r' 20 ≡ 0)
      × (analyze_icmp (record { bytes = r'; size = size }) clen
          ≡ some (timestamp_value p (le16 r' 2)))
unfolding set_icmp
set_icmp_timestamp p r room clen size payload fields stamp orig recv trans hr captured =
    let x = ntohl (p.orig_timestamp % 2 ^ 32) in
    let y = ntohl (p.recv_timestamp % 2 ^ 32) in
    let z = ntohl (p.trans_timestamp % 2 ^ 32) in
    let b = stamps (head p r) x y z in
    let read = stamps-read (head p r) x y z (ntohl-lt _) (ntohl-lt _) (ntohl-lt _) in
    let same : (o : ℕ) → o < 2 ^ 32 → ntohl (o % 2 ^ 32) ≡ ntohl o =
      λ o lt. ap ntohl (omega arith) in
    let ok =
      stamped p b clen size stamp
        (stamps-IsHead p (head p r) x y z (head-IsHead p r fields (omega (arith, stamp))))
        (stamps-IsBytes (head p r) x y z (head-IsBytes p r hr))
        (read.0 ∙ same _ orig, read.1 ∙ same _ recv, read.2 ∙ same _ trans) captured in
    (put_sum b 20, timestamp_type p _ _ _ _ _ _ stamp, ok.0, ok.1)
