-- ===== src/Trace/Misread.antt =====
-- What `deserialize` makes of the bytes of a trace packet: its own fields, and a switch that is read at
-- the wrong place.
use j_sdntrace.Base.{
  leb, ◌==◌, le→leb, length, take, ℕ, ◌+◌, ◌*◌, ◌/◌, ◌%◌, ◌^◌, ◌≤◌, ◌<◌, ◌≡◌, refl, Bool, true,
  false, some, List, [], ◌∷◌, arith,
}
use j_sdntrace.Trace.{
  empty_string, SwitchInfo, TracePacket, switch_len, put_bytes, zero_bytes, serialize_packet,
  get_bytes, drop, wrap, OpenFlow, deserialize_switch, deserialize_packet,
}
use j_sdntrace.Trace.Bytes.{get_long, get_byte}
use j_sdntrace.Trace.RoundTrip.{
  HasValues, IsTracePacket, kind_byte, packet_bytes, packet_length, serialize_packet_lem,
  length-packet_bytes, wrap-whole,
}

-- The 28 bytes at 21 begin within the probe's identifier: they hold its lower six bytes, the hop, the
-- timestamp, the byte for the kind, and the identifier of the switch.
abbrev pub misread : TracePacket → SwitchInfo
misread p = record {
  dpid = p.probe_id % 2 ^ 48 * 2 ^ 16 + p.hop * 2 ^ 8 + p.timestamp / 2 ^ 56;
  ip_addr =
      p.timestamp / 2 ^ 48 % 256
      ∷ p.timestamp / 2 ^ 40 % 256
      ∷ p.timestamp / 2 ^ 32 % 256
      ∷ p.timestamp / 2 ^ 24 % 256
      ∷ [];
  link_latency =
      p.timestamp % 2 ^ 24 * 2 ^ 40 + kind_byte p.request * 2 ^ 32 + p.sw_info.dpid / 2 ^ 32;
  ingress = p.sw_info.dpid % 2 ^ 32;
  cont_id = empty_string;
}

kind_byte-small : (b : Bool) → kind_byte b < 2
kind_byte-small true = omega arith
kind_byte-small false = omega arith

kind_byte-request : (b : Bool) → (kind_byte b == 1) ≡ b
kind_byte-request true = refl
kind_byte-request false = refl

length-inside :
    (p : TracePacket)
    → IsTracePacket p
    → (n : ℕ) (rest : List ℕ) → 49 ≤ length (packet_bytes p n rest)
unfolding put_bytes
length-inside p x n rest = rw x.ipv4 (omega arith)

wrap-inside :
    (p : TracePacket)
    → IsTracePacket p
    → (n : ℕ) (rest : List ℕ)
    → wrap (packet_bytes p n rest) 21 switch_len
      ≡ some (take switch_len (drop 21 (packet_bytes p n rest)))
unfolding wrap
wrap-inside p x n rest =
    let inside : leb (21 + switch_len) (length (packet_bytes p n rest)) ≡ true =
      le→leb (21 + switch_len) (length (packet_bytes p n rest)) (length-inside p x n rest) in
    rw (wrap, inside) refl

module _ (p : TracePacket) (x : IsTracePacket p) where
  misread_dpid :
      (((((((0 + p.probe_id / 1099511627776 % 256) * 256 + p.probe_id / 4294967296 % 256) * 256
                            + p.probe_id / 16777216 % 256)
                          * 256
                        + p.probe_id / 65536 % 256)
                      * 256
                    + p.probe_id / 256 % 256)
                  * 256
                + p.probe_id / 1 % 256)
              * 256
            + p.hop)
          * 256
        + p.timestamp / 72057594037927936 % 256
      ≡ (misread p).dpid
  misread_dpid = omega (arith, x.probe_fits, x.time_fits, x.hop_fits)

  misread_latency :
      (((((((0 + p.timestamp / 65536 % 256) * 256 + p.timestamp / 256 % 256) * 256
                            + p.timestamp / 1 % 256)
                          * 256
                        + kind_byte p.request)
                      * 256
                    + p.sw_info.dpid / 72057594037927936 % 256)
                  * 256
                + p.sw_info.dpid / 281474976710656 % 256)
              * 256
            + p.sw_info.dpid / 1099511627776 % 256)
          * 256
        + p.sw_info.dpid / 4294967296 % 256
      ≡ (misread p).link_latency
  misread_latency = omega (arith, x.dpid_fits, x.time_fits)

  misread_ingress :
      (((0 + p.sw_info.dpid / 16777216 % 256) * 256 + p.sw_info.dpid / 65536 % 256) * 256
            + p.sw_info.dpid / 256 % 256)
          * 256
        + p.sw_info.dpid / 1 % 256
      ≡ (misread p).ingress
  misread_ingress = omega arith

  misread_small :
      ((misread p).dpid < 2 ^ 64)
      × ((misread p).link_latency < 2 ^ 64)
      × ((misread p).ingress ≤ 0xffff_ff00)
  misread_small =
      let kind = kind_byte-small p.request in
      (omega (arith, x.hop_fits, x.time_fits), omega (arith, kind, x.dpid_fits), x.dpid_low)

  deserialize_switch_lem :
      (flow : OpenFlow) (n : ℕ) (rest : List ℕ)
      → HasValues flow
      → deserialize_switch flow (packet_bytes p n rest) 21 switch_len ≡ some (misread p)
  unfolding deserialize_switch wrap get_bytes put_bytes
  deserialize_switch_lem flow n rest h =
      let (dpid_small, latency_small, ingress_small) = misread_small in
      let zero_add : (y : ℕ) → 0 + y ≡ y = λ y. omega arith in
      let t = p.timestamp in
      rw
        (
          deserialize_switch,
          wrap-inside p x n rest,
          x.ipv4,
          misread_dpid,
          misread_latency,
          misread_ingress,
          zero_add (t / 2 ^ 48 % 256),
          zero_add (t / 2 ^ 40 % 256),
          zero_add (t / 2 ^ 32 % 256),
          zero_add (t / 2 ^ 24 % 256),
          h.datapath_of_same (misread p).dpid dpid_small,
          h.u64_of_same (misread p).link_latency latency_small,
          h.port_of_same (misread p).ingress ingress_small,
        )
        refl

pub deserialize_packet_lem :
    (flow : OpenFlow) (p : TracePacket) (n : ℕ) (rest : List ℕ)
    → HasValues flow
    → IsTracePacket p
    → deserialize_packet flow (packet_bytes p n rest) 0 (length (packet_bytes p n rest))
      ≡ some (record p { sw_info = misread p })
unfolding deserialize_packet
deserialize_packet_lem flow p n rest h x =
    rw
      (
        deserialize_packet,
        wrap-whole (packet_bytes p n rest),
        deserialize_switch_lem p x flow n rest h,
        get_byte (n % 256) _,
        get_long p.destination_mac _ (omega (arith, x.destination_fits)),
        get_long p.source_mac _ (omega (arith, x.source_fits)),
        get_byte p.version _,
        get_byte p.max_hops _,
        get_long p.probe_id _ x.probe_fits,
        get_byte p.hop _,
        get_long p.timestamp _ x.time_fits,
        get_byte (kind_byte p.request) _,
        kind_byte-request p.request,
        h.mac_of_same p.destination_mac x.destination_fits,
        h.mac_of_same p.source_mac x.source_fits,
      )
      refl

-- A packet with fields of their widths, the lower half of the switch's number at most 0xffffff00, a
-- switch with an IPv4 address and an identifier of `L` ASCII characters is serialized to 65 + 2 L
-- bytes; what is deserialized from all of them has the addresses, the version, both hop counts, the
-- probe's identifier, the timestamp and the kind of the packet, but not its switch: the identifier of
-- the switch that is read is made up of the lower six bytes of the probe's identifier, the hop and
-- the highest byte of the timestamp, the address and the latency of bytes of the timestamp, and the
-- port of the lower half of the identifier of the switch.
pub deserialize-serialize :
    (flow : OpenFlow) (p : TracePacket)
    → HasValues flow
    → IsTracePacket p
    → (bytes : List ℕ) × (serialize_packet p ≡ some bytes)
      × (length bytes ≡ packet_length p)
      × (deserialize_packet flow bytes 0 (length bytes) ≡ some (record p { sw_info = misread p }))
deserialize-serialize flow p h x =
    let rest = zero_bytes p.sw_info.cont_id.chars in
    (
      packet_bytes p (packet_length p) rest,
      serialize_packet_lem p x,
      length-packet_bytes p x,
      deserialize_packet_lem flow p (packet_length p) rest h x,
    )
