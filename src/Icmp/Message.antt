-- ===== src/Icmp/Message.antt =====
-- What the ICMP messages share: the first eight bytes, and the checksum.
use j_sdntrace.Base.{ltb, if◌then◌else◌, ℕ, ◌+◌, ◌%◌, ◌≤◌, ◌<◌, ◌≡◌, refl, ◌⊎◌, none, some, arith}
use j_sdntrace.Wire.{Region, IsBytes, le16, ntohs, poke, put16}
use j_sdntrace.Wire.Laws.{poke-IsBytes, put16-IsBytes}
use j_sdntrace.Cksum.{in_cksum}
use j_sdntrace.Cksum.Verify.{in_cksum_verifies}
use j_sdntrace.Objects.{IcmpPacket}
use j_sdntrace.Icmp.{IcmpValue, high_signed, put_ids, put_sum}

-- The fields of an ICMPPacket fit in those of the header.
abbrev pub IsIcmp : IcmpPacket → Type 0
IsIcmp p = (p.code < 256) × (p.id < 65536) × (p.seq < 65536)

-- The lower byte of an identifier, its sign extended, as the 16 bits of a `jshort`.
abbrev pub low_signed : ℕ → ℕ
low_signed x = if ltb (x % 256) 128 then x % 256 else x % 256 + 0xff00

pub high_signed-ntohs : (x : ℕ) → high_signed (ntohs x) ≡ low_signed x
high_signed-ntohs x = ground arith

abbrev pub head : IcmpPacket → Region → Region
head p r = put_ids p (poke (poke r 0 (p.type % 256)) 1 (p.code % 256))

pub head-IsBytes : (p : IcmpPacket) (r : Region) → IsBytes r → IsBytes (head p r)
head-IsBytes p r hr = put16-IsBytes _ 6 (ntohs (p.seq % 65536)) (
    put16-IsBytes _ 4 (ntohs (p.id % 65536)) (
      poke-IsBytes (poke r 0 (p.type % 256)) 1 (p.code % 256)
        (poke-IsBytes r 0 (p.type % 256) hr (omega arith)) (omega arith)))

-- The checksum's two bytes are all that changes, and the message sums up.
pub put_sum-kept : (b : Region) (n k : ℕ) → (k < 2) ⊎ (4 ≤ k) → put_sum b n k ≡ b k
put_sum-kept b n k out = ground (arith, out)

pub put_sum-verifies :
    (b : Region) (n size : ℕ)
    → IsBytes b
    → n ≤ 32768
    → 2 ≤ n
    → size ≡ n + n
    → in_cksum (put_sum b size) size ≡ 0
put_sum-verifies b n size hb fits some_words e =
    rw e (in_cksum_verifies (put16 b 2 0) n 1 (put16-IsBytes b 2 0 hb) fits (omega arith) refl).1

-- What an echo message is read back as.
abbrev pub echo_value : IcmpPacket → ℕ → IcmpValue
echo_value p cksum = record {
  type = p.type;
  code = p.code;
  cksum = cksum;
  id_seq = some (low_signed p.id, low_signed p.seq);
  redirect_ip = none;
  mtu = none;
  ippacket = none;
  router = none;
  timestamp = none;
  subnetmask = none;
}

-- A header whose first eight bytes, but for the checksum, are those that `set_icmp` stores.
abbrev pub IsHead : IcmpPacket → Region → Type 0
IsHead p r = (r 0 ≡ p.type) × (r 1 ≡ p.code) × (le16 r 4 ≡ ntohs p.id) × (le16 r 6 ≡ ntohs p.seq)

pub put_sum-IsHead : (p : IcmpPacket) (b : Region) (n : ℕ) → IsHead p b → IsHead p (put_sum b n)
put_sum-IsHead p b n is_head = is_head

pub head-IsHead : (p : IcmpPacket) (r : Region) → IsIcmp p → p.type < 256 → IsHead p (head p r)
head-IsHead p r fields typed =
    (omega arith, omega (arith, fields), omega (arith, fields), omega (arith, fields))
