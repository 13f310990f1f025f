-- ===== src/Trace/Sorted.antt =====
-- The order of the replies that the client has sorted, and of those that are left without repeated hops.
use j_sdntrace.Base.{
  ltb, ◌==◌, Bool-cases, ℕ, suc, ◌≤◌, ◌<◌, ◌≡◌, inl, inr, false, List, [], ◌∷◌, arith,
}
use mathlib.Core.Path.{subst}
use j_sdntrace.Trace.{TracePacket}
use j_sdntrace.Trace.Receiver.{hop_less, insert_packet, sort_packets, trimmed_hops}

-- Hops that are not negative as a `byte`.
pub data AreHops : List TracePacket → Type 0 where
  no_hop : AreHops []
  next_packet :
      (x : TracePacket) (rest : List TracePacket) → x.hop < 128 → AreHops rest → AreHops (x ∷ rest)

-- With hops of at least `b` - 1 in order, and with hops of at least `b` in order and once each.
pub data IsSorted : ℕ → List TracePacket → Type 0 where
  sorted_none : (b : ℕ) → IsSorted b []
  sorted_next :
      (b : ℕ) (x : TracePacket) (rest : List TracePacket)
      → b ≤ suc x.hop
      → IsSorted (suc x.hop) rest
      → IsSorted b (x ∷ rest)

pub data IsIncreasing : ℕ → List TracePacket → Type 0 where
  increasing_none : (b : ℕ) → IsIncreasing b []
  increasing_next :
      (b : ℕ) (x : TracePacket) (rest : List TracePacket)
      → b ≤ x.hop
      → IsIncreasing (suc x.hop) rest
      → IsIncreasing b (x ∷ rest)

hop_less-small : (a b : ℕ) → a < 128 → b < 128 → hop_less a b ≡ ltb a b
hop_less-small a b small_a small_b = ground arith

IsSorted-lower : (b c : ℕ) (ps : List TracePacket) → c ≤ b → IsSorted b ps → IsSorted c ps
IsSorted-lower b c [] low s = sorted_none c
IsSorted-lower b c (x ∷ rest) low (sorted_next d y later le s) =
    sorted_next c x rest (omega arith) s

insert_packet-IsSorted :
    (b : ℕ) (p : TracePacket) (ps : List TracePacket)
    → p.hop < 128
    → AreHops ps
    → b ≤ suc p.hop
    → IsSorted b ps
    → IsSorted b (insert_packet p ps)
unfolding insert_packet
insert_packet-IsSorted b p [] small a low s = sorted_next b p [] low (sorted_none (suc p.hop))
insert_packet-IsSorted b p (x ∷ rest) small (next_packet y later x_small a) low
      (sorted_next c z more le s) =
    let order = hop_less-small x.hop p.hop x_small small in
    elim (Bool-cases (ltb x.hop p.hop)) [
      | inl e ↦
          rw (insert_packet, order, e)
            (sorted_next b x _ le
              (insert_packet-IsSorted (suc x.hop) p rest small a (ground arith) s))
      | inr e ↦
          rw (insert_packet, order, e)
            (sorted_next b p _ low (sorted_next (suc p.hop) x rest (ground arith) s))
    ]

insert_packet-AreHops :
    (p : TracePacket) (ps : List TracePacket)
    → p.hop < 128
    → AreHops ps
    → AreHops (insert_packet p ps)
unfolding insert_packet
insert_packet-AreHops p [] small a = next_packet p [] small a
insert_packet-AreHops p (x ∷ rest) small (next_packet y later x_small a) =
    elim (Bool-cases (hop_less x.hop p.hop)) [
      | inl e ↦
          rw (insert_packet, e) (next_packet x _ x_small (insert_packet-AreHops p rest small a))
      | inr e ↦ rw (insert_packet, e) (next_packet p _ small (next_packet x rest x_small a))
    ]

pub sort_packets-IsSorted :
    (ps : List TracePacket) → AreHops ps → IsSorted 0 (sort_packets ps) × AreHops (sort_packets ps)
unfolding sort_packets
sort_packets-IsSorted [] a = (sorted_none 0, a)
sort_packets-IsSorted (x ∷ rest) (next_packet y later small a) =
    let (s, hops_small) = sort_packets-IsSorted rest a in
    (
      insert_packet-IsSorted 0 x (sort_packets rest) small hops_small (omega arith) s,
      insert_packet-AreHops x (sort_packets rest) small hops_small,
    )

trimmed_hops-IsIncreasing :
    (last : ℕ) (ps : List TracePacket)
    → IsSorted (suc last) ps
    → IsIncreasing (suc last) (trimmed_hops last ps)
unfolding trimmed_hops
trimmed_hops-IsIncreasing last [] s = increasing_none (suc last)
trimmed_hops-IsIncreasing last (x ∷ rest) (sorted_next c y later le s) =
    elim (Bool-cases (last == x.hop)) [
      | inl e ↦
          let same : x.hop ≡ last = ground arith in
          rw (trimmed_hops, e)
            (trimmed_hops-IsIncreasing last rest (subst (λ h. IsSorted (suc h) rest) same s))
      | inr e ↦
          rw (trimmed_hops, e)
            (increasing_next (suc last) x _ (ground arith) (trimmed_hops-IsIncreasing x.hop rest s))
    ]

pub trimmed_hops-first :
    (ps : List TracePacket) → AreHops ps → IsSorted 0 ps → IsIncreasing 0 (trimmed_hops 255 ps)
unfolding trimmed_hops
trimmed_hops-first [] a s = increasing_none 0
trimmed_hops-first (x ∷ rest) (next_packet y later small a) (sorted_next c z more le s) =
    let other : (255 == x.hop) ≡ false = ground arith in
    rw (trimmed_hops, other)
      (increasing_next 0 x _ (omega arith) (trimmed_hops-IsIncreasing x.hop rest s))
