-- ===== src/Instances/Transmit.antt =====
-- What nativeSendPacket hands to libpcap for a TCP packet.
use j_sdntrace.Base.{
  ltb, if◌then◌else◌, le→leb, Bool-cases, length, take, All, ℕ, zero, suc, ◌+◌, ◌≤◌, ◌<◌, ◌≡◌, refl,
  ap, ◌∙◌, inl, inr, Bool, true, some, List, ◌∷◌, arith,
}
use j_sdntrace.Wire.{Region, IsBytes, slice}
use j_sdntrace.Wire.Laws.{length-slice, slice-ext}
use j_sdntrace.Objects.{IpPacket, TcpPacket, EthernetPacket, tcp_packet, Packet}
use j_sdntrace.Tcp.Header.{IsTcp}
use j_sdntrace.Sender.{set_packet, frame_of}
use j_sdntrace.Sender.Segment.{IsEthernet, IsAddressed, IsDelivered, frame}
use j_sdntrace.Sender.Frame.{packet, set_packet_tcp}
use j_sdntrace.Instances.{Native, no_message, pcap_error, handle}
use j_sdntrace.Instances.Sender.{native_send_packet}

take-slice : (r : Region) (i m n : ℕ) → m ≤ n → take m (slice r i n) ≡ slice r i m
take-slice r i zero n le = refl
take-slice r i (suc m) zero le = absurd (omega arith)
take-slice r i (suc m) (suc n) le = ap (◌∷◌ (r i)) (take-slice r (i + 1) m n (omega arith))

-- The bytes for a packet of n bytes, which fits in the buffer: at least 60, and the packet first.
frame_of-padded :
    (p : Packet) (buf r : Region) (n : ℕ)
    → set_packet true p buf ≡ some (r, n)
    → n ≤ 1600
    → (frame : List ℕ) × (frame_of p buf ≡ some frame)
      × (60 ≤ length frame)
      × (length frame ≤ 1600)
      × (take n frame ≡ slice r 0 n)
unfolding frame_of
frame_of-padded p buf r n made fits =
    let padded : Region = λ j. if ltb j n then r j else 0 in
    elim (Bool-cases (ltb n 60)) [
      | inl short ↦
          let lt : n < 60 = ground arith in
          (
            slice padded 0 60,
            rw (made, short) refl,
            omega (arith, length-slice padded 0 60),
            omega (arith, length-slice padded 0 60),
            take-slice padded 0 n 60 (omega arith)
                ∙ slice-ext padded r 0 0 n (λ k below. ground arith),
          )
      | inr long ↦
          let le : 60 ≤ n = ground arith in
          (
            slice r 0 n,
            rw (made, long, le→leb n 1600 fits) refl,
            omega (arith, length-slice r 0 n),
            omega (arith, length-slice r 0 n),
            take-slice r 0 n n (omega arith),
          )
    ]

-- On an instance with an allocated handle, a TCP packet over IPv4 with an Ethernet header and a payload
-- of at most 1546 bytes: `nativeSendPacket` hands pcap at least 60 and at most 1600 bytes, which begin
-- with a frame that is delivered, and throws exactly if pcap fails to send them.
pub native_send_packet_tcp :
    (e : EthernetPacket) (p : IpPacket) (t : TcpPacket) (bytes : List ℕ) (buf : Region) (s : Native)
    (id h : ℕ) (sent : Bool)
    → IsEthernet e
    → IsAddressed p
    → IsTcp t
    → All (λ b. b < 256) bytes
    → IsBytes buf
    → length bytes ≤ 1546
    → s.pcds id ≡ some h
    → s.live h ≡ true
    → (frame : List ℕ) × (r : Region) × (native_send_packet id
          (packet e p (tcp_packet t) bytes)
          buf
          sent
          s
        ≡ some (if sent then no_message else pcap_error, some frame))
      × (60 ≤ length frame)
      × (length frame ≤ 1600)
      × (take (length bytes + 54) frame ≡ slice r 0 (length bytes + 54))
      × IsDelivered e p 6 (length bytes + 40) r
unfolding native_send_packet
native_send_packet_tcp e p t bytes buf s id h sent he hp ht hb hbuf small found allocated =
    let (r, made, delivered, read, payload) =
      set_packet_tcp e p t bytes buf he hp ht hb hbuf small in
    let total : 14 + (length bytes + 40) ≡ length bytes + 54 = omega arith in
    let (frame, handed, low, high, first) =
      frame_of-padded (packet e p (tcp_packet t) bytes) buf r (length bytes + 54)
        (made ∙ ap (λ n. some (r, n)) total) (omega arith) in
    let in_use : handle s id ≡ some h = rw (found, allocated) refl in
    (frame, r, rw (native_send_packet, found, handed, in_use) refl, low, high, first, delivered)
