-- ===== src/Sender/Segment.antt =====
-- A TCP or UDP segment in an IPv4 header in an Ethernet frame, as `set_packet` lays it out and as the
-- analyzers and a receiver read it.
use j_sdntrace.Datalink.RoundTrip.{analyze_datalink-set_ether}
use j_sdntrace.Base.{length, All, ℕ, ◌+◌, ◌-◌, ◌%◌, ◌≤◌, ◌<◌, ◌≡◌, refl, ap, ◌∙◌, none, some, arith}
use j_sdntrace.Wire.{Region, IsBytes, ntohs, from, over}
use j_sdntrace.Wire.Laws.{poke-IsBytes, put16-IsBytes, get_region-IsBytes, from-over, over-IsBytes}
use j_sdntrace.Cksum.Sum.{wire_sum}
use j_sdntrace.Cksum.Segment.{wire_pseudo, wire_segment}
use j_sdntrace.Objects.{IpPacket, EthernetPacket, ethernet}
use j_sdntrace.Ip.{IpValue, ip_value, analyze_ip, set_ip}
use j_sdntrace.Ip.Laws.{IsIpv4, set_ip-IsBytes}
use j_sdntrace.Datalink.{ethernet_value, analyze_datalink, set_ether}
use j_sdntrace.Sender.{put_v4, finish_v4}
use j_sdntrace.Sender.Ipv4.{
  finish_v4_checksum, finish_v4-above, IsHeader, IsReadBack, read_back, analyze_finished,
}
use mathlib.Core.Path.{fun_ext, ap₂}

-- Addresses of six bytes and a 16-bit type.
pub record IsEthernet (e : EthernetPacket) : Type 0 where
  pub src_six : length e.src_mac ≡ 6
  pub dst_six : length e.dst_mac ≡ 6
  pub frametype_fits : e.frametype < 65536
  pub src_bytes : All (λ b. b < 256) e.src_mac
  pub dst_bytes : All (λ b. b < 256) e.dst_mac

pub record IsAddressed (p : IpPacket) : Type 0 where
  pub header : IsIpv4 p
  pub source_bytes : All (λ b. b < 256) p.source_address
  pub destination_bytes : All (λ b. b < 256) p.destination_address

-- `r` holds a frame with an IPv4 packet of n bytes: the headers are read back, but for the flags and
-- a fragment offset other than 0, and the header's checksum passes the receiver's test.
pub record IsCarried (e : EthernetPacket) (p : IpPacket) (protocol n : ℕ) (r : Region)
    : Type 0 where
  pub link :
      analyze_datalink (record { bytes = r; size = 14 + n }) 1
      ≡ some (ethernet_value e.dst_mac e.src_mac e.frametype)
  pub value : IpValue
  pub network : analyze_ip (record { bytes = from r 14; size = n }) ≡ some (value, 20)
  pub same : IsReadBack p protocol n value
  pub header_sum : wire_sum (from r 14) 0 10 % 65535 ≡ 0

-- And the checksum of the segment in it passes the receiver's test.
pub record IsDelivered (e : EthernetPacket) (p : IpPacket) (protocol n : ℕ) (r : Region)
    : Type 0 where
  pub carried : IsCarried e p protocol n r
  pub segment_sum :
      (wire_pseudo (from r 14) (n - 20) + wire_segment (from r 34) (n - 20)) % 65535 ≡ 0

-- The memory behind the Ethernet header, the IP header in it, the datagram, and the whole frame.
abbrev pub framed : EthernetPacket → Region → Region
framed e buf = (set_ether (some (ethernet e)) buf).1

abbrev pub ip_header : EthernetPacket → IpPacket → ℕ → ℕ → Region → Region
ip_header e p protocol n buf = put_v4 protocol n (set_ip p (from (framed e buf) 14))

abbrev pub datagram : EthernetPacket → IpPacket → ℕ → ℕ → Region → Region → Region
datagram e p protocol n buf s = finish_v4 (over (ip_header e p protocol n buf) 20 s)

abbrev pub frame : EthernetPacket → IpPacket → ℕ → ℕ → Region → Region → Region
frame e p protocol n buf s = over (framed e buf) 14 (datagram e p protocol n buf s)

module _ (e : EthernetPacket) (p : IpPacket) (protocol n : ℕ) (buf s : Region) where
  framed-IsBytes : IsEthernet e → IsBytes buf → IsBytes (framed e buf)
  unfolding set_ether
  framed-IsBytes he hb = put16-IsBytes _ 12 (ntohs (e.frametype % 65536)) (
      get_region-IsBytes e.dst_mac 6 _ 0 (get_region-IsBytes e.src_mac 6 buf 6 hb he.src_bytes)
        he.dst_bytes)

  pub start-IsBytes :
      IsEthernet e → IsAddressed p → IsBytes buf → IsBytes (set_ip p (from (framed e buf) 14))
  start-IsBytes he hp hb =
      set_ip-IsBytes p (from (framed e buf) 14) (λ k. framed-IsBytes he hb (14 + k)) hp.source_bytes
        hp.destination_bytes

  pub ip_header-IsBytes :
      IsEthernet e → IsAddressed p → IsBytes buf → IsBytes (ip_header e p protocol n buf)
  ip_header-IsBytes he hp hb =
      put16-IsBytes _ 2 (n % 65536)
        (poke-IsBytes _ 9 (protocol % 256) (start-IsBytes he hp hb) (omega arith))

  frame-datagram : from (frame e p protocol n buf s) 14 ≡ (datagram e p protocol n buf s)
  frame-datagram = from-over (framed e buf) (datagram e p protocol n buf s) 14

  pub frame_segment : from (frame e p protocol n buf s) 34 ≡ s
  frame_segment = fun_ext λ k.
      let shifted : 34 + k ≡ 14 + (20 + k) = omega arith in
      ap (frame e p protocol n buf s) shifted
      ∙ ap (λ (f : Region). f (20 + k)) frame-datagram
      ∙ finish_v4-above (over (ip_header e p protocol n buf) 20 s) (20 + k) (omega arith)
      ∙ ap (λ (f : Region). f k) (from-over (ip_header e p protocol n buf) s 20)

  link_back :
      IsEthernet e
      → analyze_datalink (record { bytes = (frame e p protocol n buf s); size = 14 + n }) 1
        ≡ some (ethernet_value e.dst_mac e.src_mac e.frametype)
  unfolding analyze_datalink
  link_back he =
      (analyze_datalink-set_ether e buf (14 + n) he.src_six he.dst_six he.frametype_fits
        (omega arith)).1

  begins : IsHeader p protocol n (from (framed e buf) 14) (over (ip_header e p protocol n buf) 20 s)
  begins k lt = ground arith

  -- The checksum was made before `finish_v4`, which keeps what the pseudo header holds.
  same_pseudo :
      (size : ℕ)
      → wire_pseudo (datagram e p protocol n buf s) size
        ≡ wire_pseudo (ip_header e p protocol n buf) size
  unfolding finish_v4
  same_pseudo size = refl

  pub frame-IsCarried :
      IsEthernet e
      → IsAddressed p
      → IsBytes buf
      → IsBytes s
      → protocol < 256
      → n < 65536
      → 20 ≤ n
      → IsCarried e p protocol n (frame e p protocol n buf s)
  frame-IsCarried he hp hb hs protocol_fits n_fits enough =
      let body_bytes =
        over-IsBytes (ip_header e p protocol n buf) s 20 (ip_header-IsBytes he hp hb) hs in
      record {
        link = link_back he;
        value = ip_value (datagram e p protocol n buf s) none;
        network = rw frame-datagram (
            analyze_finished p protocol n (from (framed e buf) 14)
              (over (ip_header e p protocol n buf) 20 s) hp.header body_bytes begins protocol_fits
              n_fits n enough);
        same =
            read_back p protocol n (from (framed e buf) 14)
              (over (ip_header e p protocol n buf) 20 s) hp.header body_bytes begins protocol_fits
              n_fits;
        header_sum =
            ap (λ (f : Region). wire_sum f 0 10 % 65535) frame-datagram
            ∙ finish_v4_checksum (over (ip_header e p protocol n buf) 20 s) body_bytes;
      }

  pub frame-IsDelivered :
      IsEthernet e
      → IsAddressed p
      → IsBytes buf
      → IsBytes s
      → protocol < 256
      → n < 65536
      → 20 ≤ n
      → (wire_pseudo (ip_header e p protocol n buf) (n - 20) + wire_segment s (n - 20)) % 65535 ≡ 0
      → IsDelivered e p protocol n (frame e p protocol n buf s)
  frame-IsDelivered he hp hb hs protocol_fits n_fits enough sum = record {
    carried = frame-IsCarried he hp hb hs protocol_fits n_fits enough;
    segment_sum =
        ap₂ (λ (f g : Region). (wire_pseudo f (n - 20) + wire_segment g (n - 20)) % 65535)
          frame-datagram frame_segment
        ∙ ap (λ (x : ℕ). (x + wire_segment s (n - 20)) % 65535) (same_pseudo (n - 20))
        ∙ sum;
  }
