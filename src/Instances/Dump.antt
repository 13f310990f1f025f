-- ===== src/Instances/Dump.antt =====
-- What JpcapWriter writes of a packet, and the read timeout.
use mathlib.Core.Path.{ap₂}
use j_sdntrace.Base.{
  le→leb, length, ℕ, ◌+◌, ◌*◌, ◌/◌, ◌%◌, ◌^◌, ◌≤◌, ◌<◌, ◌≡◌, refl, sym, ap, ◌∙◌, inl, some, List,
  ◌++◌, arith,
}
use j_sdntrace.Wire.{Region, get_region, slice}
use j_sdntrace.Wire.Laws.{
  slice-append, slice-get_region_whole, slice-get_region_off, copy_region-fits,
}
use j_sdntrace.Capture.{PacketHeader, Captured, get_packet}
use j_sdntrace.Capture.Split.{get_packet-IsSplit}
use j_sdntrace.Instances.{Native, handle}
use j_sdntrace.Instances.Captor.{Timeval, set_packet_read_timeout, get_packet_read_timeout}
use j_sdntrace.Instances.Writer.{write_packet}

-- With an open dump file, a header and data of 1600 bytes at most together, as many as `caplen` says:
-- what is written is the packet's record header, and the header followed by the data.
pub write_packet-append :
    (value : PacketHeader) (header body : List ℕ) (buf : Region) (d : ℕ) (s : Native)
    → s.pdt ≡ some d
    → length header + length body ≡ value.caplen
    → value.caplen ≤ 1600
    → write_packet value (some header) (some body) buf s ≡ some (value, header ++ body)
unfolding write_packet
write_packet-append value header body buf d s opened whole small =
    let n = length header in
    let m = length body in
    let r1 = get_region header n buf 0 in
    let r2 = get_region body m r1 n in
    let written : slice r2 0 value.caplen ≡ header ++ body =
      sym (slice-append r2 0 n m n value.caplen (omega arith) (sym whole))
      ∙ ap₂ ◌++◌
          (slice-get_region_off body m r1 n 0 n (inl (omega arith))
            ∙ slice-get_region_whole header n buf 0 refl)
          (slice-get_region_whole body m r1 n refl) in
    rw
      (
        copy_region-fits 1600 header n buf 0 (omega arith),
        copy_region-fits 1600 body m r1 n (omega arith),
        opened,
        le→leb value.caplen 1600 small,
        written,
      )
      refl

-- A packet that `get_packet` has made, with data, whose header and data together are as many bytes as
-- were captured, 1600 at most, is written to an open dump file with exactly the captured bytes.
pub write_packet-get_packet :
    (value : PacketHeader) (bytes : Region) (linktype junk d : ℕ) (c : Captured) (payload : List ℕ)
    (buf : Region) (s : Native)
    → get_packet value bytes linktype junk ≡ some c
    → c.payload ≡ some payload
    → length c.header + length payload ≡ value.caplen
    → value.caplen ≤ 1600
    → s.pdt ≡ some d
    → write_packet value (some c.header) c.payload buf s ≡ some (value, slice bytes 0 value.caplen)
write_packet-get_packet value bytes linktype junk d c payload buf s made data_set whole small
      opened =
    let split =
      get_packet-IsSplit value bytes linktype junk c payload (omega arith) made data_set in
    rw data_set (
      write_packet-append value c.header payload buf d s opened whole small
      ∙ ap (λ bs. some (value, bs)) (split.0 ∙ ap (slice bytes 0) whole))

-- A timeout of at most 2 ^ 31 - 1 milliseconds that was set on an instance with an allocated handle, and
-- that the socket reports back as it was set, is read back in milliseconds unchanged.
pub packet_read_timeout-roundtrip :
    (s : Native) (id h millis : ℕ)
    → handle s id ≡ some h
    → millis < 2 ^ 31
    → (tv : Timeval) × (set_packet_read_timeout id millis s ≡ some tv)
      × (get_packet_read_timeout id (some tv) s ≡ some millis)
unfolding set_packet_read_timeout get_packet_read_timeout
packet_read_timeout-roundtrip s id h millis found small =
    let tv : Timeval = record { tv_sec = millis / 1000; tv_usec = millis % 1000 * 1000 } in
    (tv, rw found refl, rw found (ap some (omega arith)))
