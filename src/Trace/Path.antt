-- ===== src/Trace/Path.antt =====
-- A whole trace: the controller's replies to the requests of one probe, and what the client reports of them.
use mathlib.Core.Path.{fun_ext}
use j_sdntrace.Trace.Collect.{receive_all, AreTracePackets, no_replies, report-receive_all}
use j_sdntrace.Trace.Receiver.{Receiver, report}
use j_sdntrace.Trace.RoundTrip.{HasValues}
use j_sdntrace.Trace.Sorted.{AreHops, no_hop, next_packet}
use j_sdntrace.Base.{
  ltb, leb, le→ltb, Bool-cases, length, ℕ, zero, suc, ◌+◌, ◌-◌, ◌%◌, ◌≤◌, ◌≡◌, refl, ap, ◌∙◌, inl,
  inr, false, ◌&&◌, some, List, [], ◌∷◌, arith,
}
use j_sdntrace.Trace.{TracePacket, OpenFlow}
use j_sdntrace.Trace.Controller.{Controller, Command, add_flow, send_trace_packet}
use j_sdntrace.Trace.Hops.{
  Incoming, handle_all, occurrences, replies, AreRequests, handle_all_refines,
}
use j_sdntrace.Trace.Report.{has_hop, hops, passing}

-- The packets that commands send, and `n` numbers from `h` on.
abbrev pub packets_of : List Command → List TracePacket
packets_of [] = []
packets_of (send_trace_packet dpid p port ∷ rest) = p ∷ packets_of rest
packets_of (add_flow dpid port ∷ rest) = packets_of rest

abbrev pub numbers : ℕ → ℕ → List ℕ
numbers h zero = []
numbers h (suc n) = h ∷ numbers (suc h) n

abbrev repeated : ℕ → ℕ → List ℕ
repeated k zero = []
repeated k (suc m) = k ∷ repeated k m

pub data AreOfProbe (k : ℕ) : List Incoming → Type 0 where
  no_more : AreOfProbe k []
  same_probe :
      (a : Incoming) (rest : List Incoming)
      → a.request.probe_id ≡ k
      → AreOfProbe k rest
      → AreOfProbe k (a ∷ rest)

occurrences-repeated : (k m : ℕ) → occurrences k (repeated k m) ≡ m
unfolding occurrences
occurrences-repeated k zero = refl
occurrences-repeated k (suc m) = ground (arith, occurrences-repeated k m)

hops-replies :
    (k m : ℕ) (arrivals : List Incoming)
    → AreOfProbe k arrivals
    → m + length arrivals ≤ 128
    → hops (packets_of (replies (repeated k m) arrivals)) ≡ numbers m (length arrivals)
unfolding replies
hops-replies k m [] a few = refl
hops-replies k m (b ∷ rest) (same_probe c later same a) few =
    let count : occurrences b.request.probe_id (repeated k m) % 256 ≡ m =
      rw (same, occurrences-repeated k m) (omega arith) in
    let more = hops-replies k (suc m) rest a (omega arith) in rw (replies, count, same, more) refl

has_hop-numbers :
    (h m n : ℕ) (ps : List TracePacket)
    → hops ps ≡ numbers m n
    → has_hop h ps ≡ (leb m h && ltb h (m + n))
unfolding has_hop
has_hop-numbers h m zero [] e = ground arith
has_hop-numbers h m (suc n) [] e = absurd (ground (arith, e))
has_hop-numbers h m zero (x ∷ rest) e = absurd (ground (arith, e))
has_hop-numbers h m (suc n) (x ∷ rest) e =
    let first : x.hop ≡ m = ground (arith, e) in
    let later : hops rest ≡ numbers (suc m) n = ground (arith, e) in
    let found = has_hop-numbers h (suc m) n rest later in ground (arith, found, first)

passing-numbers : (n b j : ℕ) → n ≤ b + j → passing (λ h. ltb h n) b j ≡ numbers b (n - b)
unfolding passing
passing-numbers n b zero few = let none_left : n - b ≡ 0 = omega arith in rw none_left refl
passing-numbers n b (suc j) few =
    let later = passing-numbers n (suc b) j (omega arith) in
    elim (Bool-cases (ltb b n)) [
      | inl e ↦
          let size : n - b ≡ suc (n - suc b) = ground arith in rw (passing, e, later, size) refl
      | inr e ↦
          let none_left : n - b ≡ 0 = ground arith in
          let none_later : n - suc b ≡ 0 = omega arith in
          rw (passing, e, none_left) (later ∙ rw none_later refl)
    ]

-- Hops that a test finds only below 128.
AreHops-has_hop : (ps : List TracePacket) → ((h : ℕ) → 128 ≤ h → has_hop h ps ≡ false) → AreHops ps
unfolding has_hop
AreHops-has_hop [] below = no_hop
AreHops-has_hop (x ∷ rest) below = elim (Bool-cases (ltb x.hop 128)) [
  | inl e ↦
      next_packet x rest (ground arith)
        (AreHops-has_hop rest (λ h high. let found = below h high in ground (arith, found)))
  | inr e ↦ let found = below x.hop (ground arith) in absurd (ground (arith, found))
]

-- A controller without hop counts is handed the bytes of `n` requests of one probe, at most 128, each
-- with fields of their widths, the lower half of the switch's number at most 0xffffff00, and an
-- identifier of its switch of at most 31 ASCII characters; it gives the network a reply to each. A
-- client without replies then receives, as the data of trace frames, the bytes of packets with such
-- fields and ASCII identifiers that have the hops of these replies and no others, in
-- whatever order and however often: it takes all of them in, and reports the hops from 0 to `n` - 1,
-- each of them once and in order.
pub report-handle_all :
    (flow : OpenFlow) (k start : ℕ) (arrivals : List Incoming) (s : Controller)
    (ps : List TracePacket)
    → HasValues flow
    → AreRequests arrivals
    → AreOfProbe k arrivals
    → s.hop_rec ≡ []
    → length arrivals ≤ 128
    → AreTracePackets ps
    → ((h : ℕ) → has_hop h ps ≡ has_hop h (packets_of (replies [] arrivals)))
    → (c : Controller) × (t : Receiver) × (handle_all flow arrivals s
        ≡ some (c, replies [] arrivals))
      × (receive_all flow start ps no_replies ≡ some t)
      × (hops (report t.packets) ≡ numbers 0 (length arrivals))
report-handle_all flow k start arrivals s ps h r same none_yet few good delivered =
    let n = length arrivals in
    let (c, handled) = handle_all_refines flow arrivals s h r none_yet in
    let sent = hops-replies k 0 arrivals same (omega arith) in
    let below : (j : ℕ) → has_hop j ps ≡ ltb j n = λ j.
      delivered j ∙ has_hop-numbers j 0 n (packets_of (replies [] arrivals)) sent ∙ ground arith in
    let small = AreHops-has_hop ps (λ j high. below j ∙ le→ltb j n (omega arith)) in
    let whole : n - 0 ≡ n = omega arith in
    let (t, taken, reported) = report-receive_all flow start ps h good small in
    (
      c,
      t,
      handled,
      taken,
      reported
          ∙ ap (λ f. passing f 0 128) (fun_ext below)
          ∙ passing-numbers n 0 128 (omega arith)
          ∙ ap (numbers 0) whole,
    )
