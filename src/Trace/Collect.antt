-- ===== src/Trace/Collect.antt =====
-- The client from the bytes of the replies to the hops that it reports.
use j_sdntrace.Trace.Report.{has_hop, hops, passing, report-passing}
use j_sdntrace.Trace.Sorted.{AreHops, no_hop, next_packet}
use j_sdntrace.Base.{
  if◌then◌else◌, ℕ, ◌<◌, ◌≡◌, refl, ap, ◌∙◌, Bool, true, Option, some, List, [], ◌∷◌, arith,
}
use j_sdntrace.Wire.{◌>>=◌}
use j_sdntrace.Trace.{TracePacket, zero_bytes, serialize_packet, OpenFlow}
use j_sdntrace.Trace.RoundTrip.{
  HasValues, IsTracePacket, packet_bytes, packet_length, serialize_packet_lem,
}
use mathlib.Core.Path.{fun_ext}
use j_sdntrace.Trace.Misread.{misread, deserialize_packet_lem}
use j_sdntrace.Trace.Controller.{put}
use j_sdntrace.Trace.Receiver.{
  Receiver, trace_request, sub64, append_packet, receive_packet, report,
}

-- The bytes of packets, received one after another as the data of trace frames.
unfoldable pub receive_all : OpenFlow → ℕ → List TracePacket → Receiver → Option Receiver
receive_all flow start [] s = some s
receive_all flow start (p ∷ rest) s = do
  bytes ← serialize_packet p
  s1 ← receive_packet flow start (some trace_request) bytes s
  receive_all flow start rest s1

pub data AreTracePackets : List TracePacket → Type 0 where
  no_packet : AreTracePackets []
  one_packet :
      (p : TracePacket) (rest : List TracePacket)
      → IsTracePacket p
      → AreTracePackets rest
      → AreTracePackets (p ∷ rest)

-- The client after a packet whose switch was read as `misread`, and after all.
abbrev pub received : ℕ → TracePacket → Receiver → Receiver
received start p s =
    let latency = sub64 p.timestamp start in
    record {
      packets = append_packet s.packets (record p { sw_info = misread p });
      worst_latencies = put p.hop latency s.worst_latencies;
      best_latencies = put p.hop (sub64 latency (misread p).link_latency) s.best_latencies;
    }

abbrev pub collected : ℕ → List TracePacket → Receiver → Receiver
collected start [] s = s
collected start (p ∷ rest) s = collected start rest (received start p s)

pub receive_packet_lem :
    (flow : OpenFlow) (start : ℕ) (p : TracePacket) (s : Receiver)
    → HasValues flow
    → IsTracePacket p
    → receive_packet flow start
        (some trace_request)
        (packet_bytes p (packet_length p) (zero_bytes p.sw_info.cont_id.chars))
        s
      ≡ some (received start p s)
unfolding receive_packet
receive_packet_lem flow start p s h x =
    let rest = zero_bytes p.sw_info.cont_id.chars in
    rw (receive_packet, deserialize_packet_lem flow p (packet_length p) rest h x) refl

pub receive_all_lem :
    (flow : OpenFlow) (start : ℕ) (ps : List TracePacket) (s : Receiver)
    → HasValues flow
    → AreTracePackets ps
    → receive_all flow start ps s ≡ some (collected start ps s)
unfolding receive_all
receive_all_lem flow start [] s h a = refl
receive_all_lem flow start (p ∷ rest) s h (one_packet q later x a) =
    rw (receive_all, serialize_packet_lem p x, receive_packet_lem flow start p s h x)
      (receive_all_lem flow start rest (received start p s) h a)

has_hop-append_packet :
    (h : ℕ) (xs : List TracePacket) (p : TracePacket)
    → has_hop h (append_packet xs p) ≡ has_hop h (p ∷ xs)
unfolding has_hop
has_hop-append_packet h [] p = refl
has_hop-append_packet h (x ∷ xs) p = ground (arith, has_hop-append_packet h xs p)

AreHops-append_packet :
    (xs : List TracePacket) (p : TracePacket)
    → AreHops xs
    → p.hop < 128
    → AreHops (append_packet xs p)
AreHops-append_packet [] p a small = next_packet p [] small a
AreHops-append_packet (x ∷ xs) p (next_packet y later x_small a) small =
    next_packet x _ x_small (AreHops-append_packet xs p a small)

has_hop-collected :
    (h start : ℕ) (ps : List TracePacket) (s : Receiver)
    → has_hop h (collected start ps s).packets
      ≡ (if has_hop h s.packets then true else has_hop h ps)
unfolding has_hop
has_hop-collected h start [] s = ground arith
has_hop-collected h start (p ∷ rest) s =
    let first = has_hop-append_packet h s.packets (record p { sw_info = misread p }) in
    let later = has_hop-collected h start rest (received start p s) in
    later ∙ rw first (ground arith)

AreHops-collected :
    (start : ℕ) (ps : List TracePacket) (s : Receiver)
    → AreHops ps
    → AreHops s.packets
    → AreHops (collected start ps s).packets
AreHops-collected start [] s a b = b
AreHops-collected start (p ∷ rest) s (next_packet y later small a) b =
    AreHops-collected start rest (received start p s) a (AreHops-append_packet s.packets _ b small)

abbrev pub no_replies : Receiver
no_replies = record { packets = []; worst_latencies = []; best_latencies = [] }

passing-same : (f g : ℕ → Bool) (b n : ℕ) → ((h : ℕ) → f h ≡ g h) → passing f b n ≡ passing g b n
passing-same f g b n same = ap (λ k. passing k b n) (fun_ext same)

-- A client that has no replies yet and receives the bytes of packets with fields of their widths, the
-- lower half of the switch's number at most 0xffffff00, an identifier of ASCII characters and hops
-- below 128, as the data of frames of type 0x8220 and in whatever order and number, takes all of them
-- in, and then reports the hops from 0 to 127 that some of the packets has: each of them once, and in
-- order.
pub report-receive_all :
    (flow : OpenFlow) (start : ℕ) (ps : List TracePacket)
    → HasValues flow
    → AreTracePackets ps
    → AreHops ps
    → (t : Receiver) × (receive_all flow start ps no_replies ≡ some t)
      × (hops (report t.packets) ≡ passing (λ h. has_hop h ps) 0 128)
unfolding has_hop
report-receive_all flow start ps h a small =
    let t = collected start ps no_replies in
    (
      t,
      receive_all_lem flow start ps no_replies h a,
      report-passing t.packets (AreHops-collected start ps no_replies small no_hop)
          ∙ passing-same _ _ 0 128 (λ k. has_hop-collected k start ps no_replies),
    )
