-- ===== src/Capture/Split.antt =====
-- How `get_packet` splits the captured bytes, on every branch.
use j_sdntrace.Wire.Laws.{length-slice, slice-append, slice-from}
use mathlib.Core.List.{append-nil}
use mathlib.Core.Path.{ap₂}
use j_sdntrace.Base.{
  ◌==◌, if◌then◌else◌, length, ℕ, zero, suc, ◌+◌, ◌-◌, ◌%◌, ◌≤◌, ◌<◌, ◌≡◌, refl, sym, ap, ◌∙◌, ◌⊎◌,
  inl, inr, Option, none, some, List, [], ◌++◌, arith,
}
use j_sdntrace.Wire.{Region, slice, View, skip, ◌>>=◌}
use j_sdntrace.Datalink.{analyze_datalink}
use j_sdntrace.Protocol.{
  unknown_proto, sub16, offset_data, classify, transport_proto, checked_proto,
}
use j_sdntrace.Capture.{
  PacketHeader, Captured, advance, network_layer, trimmed, transport_layer, less16, cut_arrays,
  set_arrays, captured_view, get_packet,
}

-- The header and the data are adjacent, begin with the first captured byte and lie in the capture.
abbrev pub IsSplit : View → List ℕ → List ℕ → Type 0
IsSplit v header payload =
    (header ++ payload ≡ slice v.bytes 0 (length header + length payload))
    × (length header + length payload ≤ v.size)

split_lem :
    (v : View) (pos n h : ℕ)
    → (h ≡ pos) ⊎ (n ≡ 0)
    → h ≤ v.size
    → (n ≡ 0) ⊎ (pos + n ≤ v.size)
    → IsSplit v (slice v.bytes 0 h) (slice (skip v pos).bytes 0 n)
split_lem v pos zero h adjacent fits room =
    rw (length-slice v.bytes 0 h) (append-nil _ ∙ ap (slice v.bytes 0) (omega arith), omega arith)
split_lem v pos (suc n) h (inr e) fits room = absurd (omega arith)
split_lem v pos (suc n) h (inl e) fits room =
    let data_slice : slice (skip v pos).bytes 0 (suc n) ≡ slice v.bytes pos (suc n) =
      slice-from v.bytes pos 0 (suc n) pos (omega arith) in
    let whole : slice v.bytes 0 h ++ slice v.bytes pos (suc n) ≡ slice v.bytes 0 (h + suc n) =
      slice-append v.bytes 0 h (suc n) pos (h + suc n) (omega arith) refl in
    let sizes : length (slice v.bytes 0 h) + length (slice (skip v pos).bytes 0 (suc n))
        ≡ h + suc n =
      omega (arith, length-slice v.bytes 0 h, length-slice (skip v pos).bytes 0 (suc n)) in
    (
      ap (λ l. slice v.bytes 0 h ++ l) data_slice ∙ whole ∙ ap (slice v.bytes 0) (sym sizes),
      omega (arith, sizes),
    )

cut_arrays_inversion :
    (v : View) (pos clen : ℕ) (header payload : List ℕ)
    → cut_arrays v pos clen ≡ some (header, some payload)
    → (header ≡ slice v.bytes 0 (pos % 65536))
      × (payload ≡ slice (skip v pos).bytes 0 clen)
      × (pos % 65536 ≤ v.size)
      × (clen ≤ v.size - pos)
unfolding cut_arrays
cut_arrays_inversion v pos clen header payload e = ground arith

pub cut_arrays-IsSplit :
    (v : View) (pos clen : ℕ) (header payload : List ℕ)
    → v.size < 65536
    → cut_arrays v pos clen ≡ some (header, some payload)
    → IsSplit v header payload
cut_arrays-IsSplit v pos clen header payload small e =
    let shape = cut_arrays_inversion v pos clen header payload e in
    rw (shape.0, shape.1)
      (split_lem v pos clen (pos % 65536) (omega (arith, shape.2, shape.3)) shape.2
        (omega (arith, shape.2, shape.3)))

bind_inversion {ℓ κ} :
    {A : Type ℓ} {B : Type κ} (x : Option A) (f : A → Option B) (b : B)
    → (x >>= f) ≡ some b
    → (a : A) × (x ≡ some a) × (f a ≡ some b)
bind_inversion none f b e = absurd (ground arith)
bind_inversion (some a) f b e = (a, refl, e)

abbrev header_of : Option Captured → List ℕ
header_of none = []
header_of (some c) = c.header

abbrev payload_of : Option Captured → Option (List ℕ)
payload_of none = none
payload_of (some c) = c.payload

arrays_lem :
    (v : View) (pos clen : ℕ) (arrays : List ℕ × Option (List ℕ)) (c : Captured) (payload : List ℕ)
    → v.size < 65536
    → cut_arrays v pos clen ≡ some arrays
    → arrays.0 ≡ c.header
    → arrays.1 ≡ c.payload
    → c.payload ≡ some payload
    → IsSplit v c.header payload
arrays_lem v pos clen (header, data_array) c payload small found same_header same_data data_set =
    cut_arrays-IsSplit v pos clen c.header payload small
      (found ∙ ap some (ap₂ (λ a b. (a, b)) same_header (same_data ∙ data_set)))

-- Of fewer than 65536 captured bytes, whatever they are, on every link type: where `get_packet`
-- returns a packet with data, its header and its data are adjacent, begin with the first captured
-- byte, and lie in the capture.
pub get_packet-IsSplit :
    (value : PacketHeader) (bytes : Region) (linktype junk : ℕ) (c : Captured) (payload : List ℕ)
    → value.caplen < 65536
    → get_packet value bytes linktype junk ≡ some c
    → c.payload ≡ some payload
    → IsSplit (captured_view value bytes) c.header payload
unfolding get_packet set_arrays
get_packet-IsSplit value bytes linktype junk c payload small e data_set =
    let v = captured_view value bytes in
    let (classified, _, e1) = bind_inversion (classify v linktype) _ c e in
    let (protocol, _, e2) =
      bind_inversion (transport_proto v linktype classified.0 classified.1 junk) _ c e1 in
    let (datalink, _, e3) = bind_inversion (analyze_datalink v linktype) _ c e2 in
    let (network, _, e4) =
      bind_inversion (network_layer v value.caplen linktype classified.0) _ c e3 in
    let base : ℕ = if classified.0 == unknown_proto then 0 else offset_data linktype in
    let tproto = checked_proto protocol.0 protocol.1 in
    let pos = advance base network.2 in
    let clen = sub16 (trimmed value.caplen linktype classified.0 tproto network.1) network.2 in
    let (transport, _, e5) = bind_inversion (transport_layer (skip v pos) tproto clen) _ c e4 in
    let (arrays, found, e6) = bind_inversion (set_arrays v pos clen transport.1) _ c e5 in
    let hlen : ℕ = if less16 clen transport.1 then clen else transport.1 in
    arrays_lem v (advance pos hlen) (sub16 clen hlen) arrays c payload small found (ap header_of e6)
      (ap payload_of e6) data_set
