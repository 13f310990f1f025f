-- ===== src/Trace/Hops.antt =====
-- The hop numbers of the replies: what the controller promises of a sequence of requests.
use j_sdntrace.Base.{
  ◌==◌, if◌then◌else◌, Bool-cases, ℕ, suc, ◌%◌, ◌≡◌, refl, ◌∙◌, inl, inr, Option, some, List, [],
  ◌∷◌, arith,
}
use mathlib.Core.Path.{subst}
use j_sdntrace.Wire.{◌>>=◌}
use j_sdntrace.Trace.{SwitchInfo, TracePacket, serialize_packet, OpenFlow}
use j_sdntrace.Trace.Controller.{get, Controller, flood, Command, send_trace_packet, packet_in}
use j_sdntrace.Trace.RoundTrip.{HasValues, IsTracePacket, serialize_packet_lem}
use j_sdntrace.Trace.Reply.{next_hop, reply_to, counted, next_hop-counted, IsShort, packet_in_lem}

-- A request, the switch that hands it in, the time, and the identifier that the reply is given.
pub record Incoming : Type 0 where
  pub request : TracePacket
  pub switch : SwitchInfo
  pub now : ℕ
  pub probe : ℕ

-- The requests handed to `PacketIn` in turn, and the commands that it gives the network.
unfoldable pub handle_all :
    OpenFlow → List Incoming → Controller → Option (Controller × List Command)
handle_all flow [] s = some (s, [])
handle_all flow (a ∷ rest) s = do
  bytes ← serialize_packet a.request
  (s1, command) ← packet_in flow bytes a.switch a.now a.probe s
  (s2, commands) ← handle_all flow rest s1
  some (s2, command ∷ commands)

-- The promise, without a table: `seen` are the probes of the requests so far.
unfoldable pub occurrences : ℕ → List ℕ → ℕ
occurrences k [] = 0
occurrences k (j ∷ rest) = let later = occurrences k rest in if k == j then suc later else later

unfoldable pub replies : List ℕ → List Incoming → List Command
replies seen [] = []
replies seen (a ∷ rest) =
    let hop = occurrences a.request.probe_id seen % 256 in
    send_trace_packet a.switch.dpid (reply_to a.request a.switch a.now a.probe hop) flood
    ∷ replies (a.request.probe_id ∷ seen) rest

pub data AreRequests : List Incoming → Type 0 where
  no_request : AreRequests []
  one_more :
      (a : Incoming) (rest : List Incoming)
      → IsTracePacket a.request
      → IsShort a.request
      → AreRequests rest
      → AreRequests (a ∷ rest)

-- The table holds the number of requests for every probe, as a byte.
abbrev pub Counts : List ℕ → Controller → Type 0
Counts seen s = (k : ℕ) → next_hop k s ≡ occurrences k seen % 256

counted-Counts :
    (seen : List ℕ) (s : Controller) (probe : ℕ)
    → Counts seen s
    → Counts (probe ∷ seen) (counted probe s)
unfolding occurrences
counted-Counts seen s probe c k = next_hop-counted probe k s ∙ elim (Bool-cases (k == probe)) [
  | inl e ↦
      let same : k ≡ probe = ground arith in
      let there = subst (λ j. next_hop j s ≡ occurrences k seen % 256) same (c k) in
      rw (occurrences, e) (omega (arith, there))
  | inr e ↦ rw (occurrences, e) (c k)
]

handle_all-replies :
    (flow : OpenFlow) (seen : List ℕ) (arrivals : List Incoming) (s : Controller)
    → HasValues flow
    → AreRequests arrivals
    → Counts seen s
    → (t : Controller) × (handle_all flow arrivals s ≡ some (t, replies seen arrivals))
unfolding handle_all replies
handle_all-replies flow seen [] s h r c = (s, refl)
handle_all-replies flow seen (a ∷ rest) s h (one_more b later x short more) c =
    let p = a.request in
    let (t, after) =
      handle_all-replies flow (p.probe_id ∷ seen) rest (counted p.probe_id s) h more
        (counted-Counts seen s p.probe_id c) in
    let made = serialize_packet_lem p x in
    let first = packet_in_lem flow p _ a.switch a.now a.probe s h x short made in
    (t, rw (handle_all, made, first, after, c p.probe_id) refl)

-- A controller without hop counts that is handed the bytes of requests, each with fields of their
-- widths, the lower half of the switch's number at most 0xffffff00, and an identifier of its switch
-- of at most 31 ASCII characters, hands the network one reply for every request, to be flooded from
-- the switch that handed it in: the reply has the addresses of the request exchanged, and its hop is
-- the number of earlier requests of the same probe, mod 256.
pub handle_all_refines :
    (flow : OpenFlow) (arrivals : List Incoming) (s : Controller)
    → HasValues flow
    → AreRequests arrivals
    → s.hop_rec ≡ []
    → (t : Controller) × (handle_all flow arrivals s ≡ some (t, replies [] arrivals))
unfolding get occurrences
handle_all_refines flow arrivals s h r none_yet =
    handle_all-replies flow [] arrivals s h r (λ k. rw none_yet refl)
