-- ===== src/Instances/Writer.antt =====
-- The methods of JpcapWriter.
use j_sdntrace.Base.{leb, if◌then◌else◌, length, ℕ, Option, none, some, List}
use j_sdntrace.Wire.{Region, copy_region, slice, ◌>>=◌}
use j_sdntrace.Sender.{max_packet_size}
use j_sdntrace.Capture.{PacketHeader}
use j_sdntrace.Instances.{
  Native, Message, no_message, pcap_error, not_instantiated, release, handle,
}

-- `opened` is what `pcap_dump_open` returns; the globals are set before the test.
unfoldable pub native_open_dump_file : ℕ → Option ℕ → Native → Option (Message × Native)
native_open_dump_file id opened s = elim (s.pcds id) [
  | none ↦ some (not_instantiated, s)
  | some c ↦ do
    h ← handle s id
    let s1 : Native = record s { pcdd = some h; pdt = opened }
    some (elim opened [ none ↦ pcap_error | some d ↦ no_message ], s1)
]

-- `free(pcdd)`: freeing a freed handle is a fault, freeing NULL is none.
abbrev pub free_handle : Option ℕ → Native → Option Native
free_handle none s = some (record s { pdt = none })
free_handle (some h) s =
    if s.live h then some (record (release h s) { pcdd = none; pdt = none }) else none

unfoldable pub writer_close : Native → Option Native
writer_close s = elim s.pdt [ none ↦ some s | some d ↦ free_handle s.pcdd s ]

-- The record that `pcap_dump` is handed: the header, and `caplen` bytes of the buffer. A null array
-- or dumper, and a copy or a read past the buffer, are faults.
unfoldable pub write_packet :
    PacketHeader
    → Option (List ℕ)
    → Option (List ℕ)
    → Region
    → Native
    → Option (PacketHeader × List ℕ)
write_packet value (some header) (some body) buf s = do
  r1 ← copy_region max_packet_size header (length header) buf 0
  r2 ← copy_region max_packet_size body (length body) r1 (length header)
  d ← s.pdt
  if leb value.caplen max_packet_size then some (value, slice r2 0 value.caplen) else none
write_packet value (some header) none buf s = none
write_packet value none body buf s = none
