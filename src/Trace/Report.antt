-- ===== src/Trace/Report.antt =====
-- The hops that the client reports: each one that it received, once and in order.
use j_sdntrace.Base.{
  leb, ◌==◌, if◌then◌else◌, leb→le, Bool-cases, ℕ, zero, suc, ◌+◌, ◌≤◌, ◌<◌, ◌≡◌, refl, sym, ◌∙◌,
  inl, inr, Bool, true, false, List, [], ◌∷◌, arith,
}
use mathlib.Core.Path.{subst}
use j_sdntrace.Trace.{TracePacket}
use j_sdntrace.Trace.Receiver.{insert_packet, sort_packets, trimmed_hops, report}
use j_sdntrace.Trace.Sorted.{
  AreHops, no_hop, next_packet, IsIncreasing, increasing_none, increasing_next,
  sort_packets-IsSorted, trimmed_hops-first,
}

unfoldable pub has_hop : ℕ → List TracePacket → Bool
has_hop h [] = false
has_hop h (x ∷ rest) = let later = has_hop h rest in if h == x.hop then true else later

abbrev pub hops : List TracePacket → List ℕ
hops [] = []
hops (x ∷ rest) = x.hop ∷ hops rest

-- The `n` numbers from `h` on that pass a test.
unfoldable pub passing : (ℕ → Bool) → ℕ → ℕ → List ℕ
passing f h zero = []
passing f h (suc n) = let later = passing f (suc h) n in if f h then h ∷ later else later

has_hop-insert_packet :
    (h : ℕ) (p : TracePacket) (ps : List TracePacket)
    → has_hop h (insert_packet p ps) ≡ has_hop h (p ∷ ps)
unfolding has_hop insert_packet
has_hop-insert_packet h p [] = refl
has_hop-insert_packet h p (x ∷ rest) = ground (arith, has_hop-insert_packet h p rest)

has_hop-sort_packets : (h : ℕ) (ps : List TracePacket) → has_hop h (sort_packets ps) ≡ has_hop h ps
unfolding has_hop sort_packets
has_hop-sort_packets h [] = refl
has_hop-sort_packets h (x ∷ rest) =
    has_hop-insert_packet h x (sort_packets rest) ∙ rw (has_hop-sort_packets h rest) refl

has_hop-trimmed_hops :
    (h last : ℕ) (ps : List TracePacket)
    → (h == last) ≡ false
    → has_hop h (trimmed_hops last ps) ≡ has_hop h ps
unfolding has_hop trimmed_hops
has_hop-trimmed_hops h last [] other = refl
has_hop-trimmed_hops h last (x ∷ rest) other =
    let found = has_hop-trimmed_hops h x.hop rest in
    elim (Bool-cases (last == x.hop)) [
      | inl e ↦
          let differs : (h == x.hop) ≡ false = ground arith in
          rw (trimmed_hops, has_hop, e, differs) (has_hop-trimmed_hops h last rest other)
      | inr e ↦ elim (Bool-cases (h == x.hop)) [
        | inl d ↦ rw (trimmed_hops, e, has_hop, d) refl
        | inr d ↦ rw (trimmed_hops, e, has_hop, d) (found d)
      ]
    ]

has_hop-below : (h b : ℕ) (ps : List TracePacket) → h < b → IsIncreasing b ps → has_hop h ps ≡ false
unfolding has_hop
has_hop-below h b [] low i = refl
has_hop-below h b (x ∷ rest) low (increasing_next c y later le i) =
    let differs : (h == x.hop) ≡ false = ground arith in
    rw (has_hop, differs) (has_hop-below h (suc x.hop) rest (omega arith) i)

hops-passing :
    (f : ℕ → Bool) (n b : ℕ) (ps : List TracePacket)
    → IsIncreasing b ps
    → ((h : ℕ) → b ≤ h → f h ≡ has_hop h ps)
    → ((h : ℕ) → b + n ≤ h → has_hop h ps ≡ false)
    → hops ps ≡ passing f b n
unfolding passing has_hop
hops-passing f zero b [] i same above = refl
hops-passing f zero b (x ∷ rest) (increasing_next c y later le i) same above =
    let no = above x.hop (omega arith) in ground arith
hops-passing f (suc n) b [] i same above =
    rw (passing, same b (omega arith))
      (hops-passing f n (suc b) [] (increasing_none (suc b)) (λ h low. same h (omega arith))
        (λ h high. refl))
hops-passing f (suc n) b (x ∷ rest) (increasing_next c y later le i) same above =
    elim (Bool-cases (b == x.hop)) [
      | inl e ↦
          let here : x.hop ≡ b = ground arith in
          let yes : f b ≡ true = same b (omega arith) ∙ rw (has_hop, e) refl in
          let tail =
            hops-passing f n (suc b) rest (subst (λ k. IsIncreasing (suc k) rest) here i)
              (λ h low.
                let differs : (h == x.hop) ≡ false = ground arith in
                same h (omega arith) ∙ rw (has_hop, differs) refl)
              (λ h high.
                let differs : (h == x.hop) ≡ false = ground arith in
                sym (rw (has_hop, differs) refl) ∙ above h (omega arith)) in
          rw (passing, yes, here, tail) refl
      | inr e ↦
          let whole = increasing_next (suc b) x rest (ground arith) i in
          let no : f b ≡ false =
            same b (omega arith) ∙ has_hop-below b (suc b) (x ∷ rest) (omega arith) whole in
          rw (passing, no)
            (hops-passing f n (suc b) (x ∷ rest) whole (λ h low. same h (omega arith))
              (λ h high. above h (omega arith)))
    ]

has_hop-above : (h : ℕ) (ps : List TracePacket) → 128 ≤ h → AreHops ps → has_hop h ps ≡ false
unfolding has_hop
has_hop-above h [] high a = refl
has_hop-above h (x ∷ rest) high (next_packet y later small a) =
    let differs : (h == x.hop) ≡ false = ground arith in
    rw (has_hop, differs) (has_hop-above h rest high a)

trimmed_hops-AreHops :
    (last : ℕ) (ps : List TracePacket) → AreHops ps → AreHops (trimmed_hops last ps)
unfolding trimmed_hops
trimmed_hops-AreHops last [] a = no_hop
trimmed_hops-AreHops last (x ∷ rest) (next_packet y later small a) =
    elim (Bool-cases (last == x.hop)) [
      | inl e ↦ rw (trimmed_hops, e) (trimmed_hops-AreHops last rest a)
      | inr e ↦ rw (trimmed_hops, e) (next_packet x _ small (trimmed_hops-AreHops x.hop rest a))
    ]

has_hop-report :
    (packets : List TracePacket) (h : ℕ)
    → AreHops packets
    → has_hop h packets ≡ has_hop h (report packets)
unfolding report
has_hop-report packets h a =
    let (s, small) = sort_packets-IsSorted packets a in
    elim (Bool-cases (leb 128 h)) [
      | inl e ↦
          let high = leb→le 128 h e in
          has_hop-above h packets high a
          ∙ sym (has_hop-above h _ high (trimmed_hops-AreHops 255 (sort_packets packets) small))
      | inr e ↦
          let other : (h == 255) ≡ false = ground arith in
          sym (
            has_hop-trimmed_hops h 255 (sort_packets packets) other
            ∙ has_hop-sort_packets h packets)
    ]

pub report-passing :
    (packets : List TracePacket)
    → AreHops packets
    → hops (report packets) ≡ passing (λ h. has_hop h packets) 0 128
unfolding report
report-passing packets a =
    let (s, small) = sort_packets-IsSorted packets a in
    let kept = trimmed_hops-AreHops 255 (sort_packets packets) small in
    hops-passing (λ h. has_hop h packets) 128 0 (report packets)
      (trimmed_hops-first (sort_packets packets) small s) (λ h low. has_hop-report packets h a)
      (λ h high. has_hop-above h (report packets) high kept)
