-- ===== src/Trace/Receiver.antt =====
-- TraceClient: the replies that it collects, and the hops that it reports.
use j_sdntrace.Base.{
  ltb, ◌==◌, if◌then◌else◌, length, ℕ, ◌+◌, ◌-◌, ◌%◌, ◌^◌, Bool, Option, none, some, List, [], ◌∷◌,
}
use j_sdntrace.Wire.{◌>>=◌}
use j_sdntrace.Objects.{EthernetPacket, ethernet, other_body, Packet}
use j_sdntrace.Trace.{TracePacket, put_bytes, serialize_packet, OpenFlow, deserialize_packet}
use j_sdntrace.Trace.Controller.{put}

pub record Receiver : Type 0 where
  pub packets : List TracePacket
  pub worst_latencies : List (ℕ × ℕ)
  pub best_latencies : List (ℕ × ℕ)

-- The ethernet type 0x8220, as the 16 bits of a `short`.
abbrev pub trace_request : ℕ
trace_request = 0x8220

-- `x - y` of `long`s.
abbrev pub sub64 : ℕ → ℕ → ℕ
sub64 x y = (x + 2 ^ 64 - y) % 2 ^ 64

abbrev pub append_packet : List TracePacket → TracePacket → List TracePacket
append_packet [] p = p ∷ []
append_packet (x ∷ rest) p = x ∷ append_packet rest p

-- `receivePacket`, of a packet with the frame type of its Ethernet header, if it has one, and its data. A
-- `none` result is an exception that is not a PacketParsingException.
unfoldable pub receive_packet : OpenFlow → ℕ → Option ℕ → List ℕ → Receiver → Option Receiver
receive_packet flow start none bytes s = some s
receive_packet flow start (some frametype) bytes s =
    let received = do
      response ← deserialize_packet flow bytes 0 (length bytes)
      let latency = sub64 response.timestamp start
      some (record {
        packets = append_packet s.packets response;
        worst_latencies = put response.hop latency s.worst_latencies;
        best_latencies =
            put response.hop (sub64 latency response.sw_info.link_latency) s.best_latencies;
      })
    in if frametype == trace_request then received else some s

-- `this.hop < o.hop` of two `byte`s.
abbrev pub hop_less : ℕ → ℕ → Bool
hop_less a b = ltb ((a + 128) % 256) ((b + 128) % 256)

-- `Arrays.sort`, which is stable, by `compareTo`.
unfoldable pub insert_packet : TracePacket → List TracePacket → List TracePacket
insert_packet p [] = p ∷ []
insert_packet p (x ∷ rest) =
    let later = insert_packet p rest in if hop_less x.hop p.hop then x ∷ later else p ∷ x ∷ rest

unfoldable pub sort_packets : List TracePacket → List TracePacket
sort_packets [] = []
sort_packets (x ∷ rest) = insert_packet x (sort_packets rest)

-- The loop over the sorted replies: one whose hop is the last one is left out. `lastHop` begins as -1, which
-- is the byte 255.
unfoldable pub trimmed_hops : ℕ → List TracePacket → List TracePacket
trimmed_hops last [] = []
trimmed_hops last (x ∷ rest) =
    let skipped = trimmed_hops last rest in
    let kept = trimmed_hops x.hop rest in if last == x.hop then skipped else x ∷ kept

unfoldable pub report : List TracePacket → List TracePacket
report packets = trimmed_hops 255 (sort_packets packets)

-- `translateToPcap`; `getBytes` of a MacAddress has its six bytes, the highest first.
unfoldable pub translate_to_pcap : TracePacket → Option Packet
translate_to_pcap p = do
  bytes ← serialize_packet p
  let eth : EthernetPacket = record {
    src_mac = put_bytes 6 p.source_mac;
    dst_mac = put_bytes 6 p.destination_mac;
    frametype = trace_request;
  }
  some (record { payload = some bytes; datalink = some (ethernet eth); body = other_body })
