-- ===== src/Trace/Reply.antt =====
-- The replies of the controller to the requests that come in, one after another.
use j_sdntrace.Trace.Misread.{misread, deserialize_packet_lem}
use mathlib.Core.Path.{subst}
use j_sdntrace.Trace.RoundTrip.{
  HasValues, IsTracePacket, packet_bytes, packet_length, serialize_packet_lem, length-packet_bytes,
}
use j_sdntrace.Base.{
  ltb, ◌==◌, if◌then◌else◌, lt→ltb, le→ltb, Bool-cases, Option-cases, length, ℕ, ◌+◌, ◌%◌, ◌≤◌, ◌≡◌,
  refl, sym, ap, ◌∙◌, inl, inr, true, false, Option, none, some, List, [], ◌∷◌, arith,
}
use j_sdntrace.Wire.{◌>>=◌}
use j_sdntrace.Trace.{
  SwitchInfo, TracePacket, zero_bytes, serialize_packet, OpenFlow, deserialize_packet,
}
use j_sdntrace.Trace.Controller.{
  mac_key, get, put, get_object, Controller, flood, send_trace_packet, search_for_switch,
  send_reply, handle_trace, packet_in,
}

module _ {ℓ} {A : Type ℓ} where
  pub get-put :
      (k j : ℕ) (y : A) (map : List (ℕ × A))
      → get j (put k y map) ≡ (if j == k then some y else get j map)
  unfolding get put
  get-put k j y [] = elim (Bool-cases (j == k)) [
    | inl e ↦ rw (get, e) refl
    | inr e ↦ rw (get, e) refl
  ]
  get-put k j y ((i, x) ∷ rest) = ground (arith, get-put k j y rest)

-- The hop of the next reply to a probe.
abbrev pub or_zero : Option ℕ → ℕ
or_zero none = 0
or_zero (some h) = h

abbrev pub next_hop : ℕ → Controller → ℕ
next_hop probe s = or_zero (get probe s.hop_rec)

abbrev pub reply_to : TracePacket → SwitchInfo → ℕ → ℕ → ℕ → TracePacket
reply_to p info now probe hop = record {
  destination_mac = p.source_mac;
  source_mac = p.destination_mac;
  version = 1;
  max_hops = 255;
  probe_id = probe;
  timestamp = now;
  hop = hop;
  sw_info = info;
  request = false;
}

abbrev pub counted : ℕ → Controller → Controller
counted probe s = record s { hop_rec = put probe ((next_hop probe s + 1) % 256) s.hop_rec }

pub next_hop-counted :
    (probe j : ℕ) (s : Controller)
    → next_hop j (counted probe s)
      ≡ (if j == probe then (next_hop probe s + 1) % 256 else next_hop j s)
next_hop-counted probe j s =
    let found = get-put probe j ((next_hop probe s + 1) % 256) s.hop_rec in
    elim (Bool-cases (j == probe)) [
      | inl e ↦ ap or_zero found ∙ rw e refl
      | inr e ↦ ap or_zero found ∙ rw e refl
    ]

mac_key-missing :
    (m : ℕ) (ports : Option (List (ℕ × ℕ))) → (do map ← ports; get_object (mac_key m) map) ≡ none
mac_key-missing m ports = elim (Option-cases ports) [ inl e ↦ rw e refl | inr (x, e) ↦ rw e refl ]

pub handle_trace_lem :
    (p : TracePacket) (info : SwitchInfo) (now probe : ℕ) (s : Controller)
    → handle_trace p info now probe s ≡ (
      counted p.probe_id s,
      send_trace_packet info.dpid (reply_to p info now probe (next_hop p.probe_id s)) flood,
    )
unfolding handle_trace send_reply
handle_trace_lem p info now probe s =
    rw
      (
        handle_trace,
        mac_key-missing p.source_mac (get (search_for_switch p.source_mac s.net_map) s.net_map),
      )
      refl

-- A request whose bytes are read in full: the length byte is not negative.
abbrev pub IsShort : TracePacket → Type 0
IsShort p = p.sw_info.cont_id.chars ≤ 31

abbrev pub IsLong : TracePacket → Type 0
IsLong p = (32 ≤ p.sw_info.cont_id.chars) × (p.sw_info.cont_id.chars ≤ 95)

pub packet_in_lem :
    (flow : OpenFlow) (p : TracePacket) (bytes : List ℕ) (info : SwitchInfo) (now probe : ℕ)
    (s : Controller)
    → HasValues flow
    → IsTracePacket p
    → IsShort p
    → serialize_packet p ≡ some bytes
    → packet_in flow bytes info now probe s
      ≡ some (
        counted p.probe_id s,
        send_trace_packet info.dpid (reply_to p info now probe (next_hop p.probe_id s)) flood,
      )
unfolding packet_in
packet_in_lem flow p bytes info now probe s h x short e =
    let rest = zero_bytes p.sw_info.cont_id.chars in
    let n = packet_length p in
    let made : packet_bytes p n rest ≡ bytes = cc (e, serialize_packet_lem p x) in
    let byte : n % 256 ≡ length (packet_bytes p n rest) = omega (arith, length-packet_bytes p x) in
    let read =
      subst
        (λ k.
          deserialize_packet flow (packet_bytes p n rest) 0 k
          ≡ some (record p { sw_info = misread p }))
        (sym byte) (deserialize_packet_lem flow p n rest h x) in
    let small : ltb (n % 256) 128 ≡ true = lt→ltb (n % 256) 128 (omega arith) in
    subst
      (λ b.
        packet_in flow b info now probe s
        ≡ some (
          counted p.probe_id s,
          send_trace_packet info.dpid (reply_to p info now probe (next_hop p.probe_id s)) flood,
        ))
      made (rw (packet_in, small, read, handle_trace_lem) refl)

-- `PacketIn` of the bytes of a packet with fields of their widths, the lower half of the switch's
-- number at most 0xffffff00, and an identifier of its switch of 32 to 95 ASCII characters is an
-- exception: as a `byte` the length is negative.
pub packet_in-long :
    (flow : OpenFlow) (p : TracePacket) (bytes : List ℕ) (info : SwitchInfo) (now probe : ℕ)
    (s : Controller)
    → IsTracePacket p
    → IsLong p
    → serialize_packet p ≡ some bytes
    → packet_in flow bytes info now probe s ≡ none
unfolding packet_in
packet_in-long flow p bytes info now probe s x long e =
    let n = packet_length p in
    let made : packet_bytes p n (zero_bytes p.sw_info.cont_id.chars) ≡ bytes =
      cc (e, serialize_packet_lem p x) in
    let big : ltb (n % 256) 128 ≡ false = le→ltb (n % 256) 128 (omega (arith, long)) in
    subst (λ b. packet_in flow b info now probe s ≡ none) made (rw (packet_in, big) refl)
