-- ===== src/Tests/Headers.antt =====
-- Headers of concrete packets, written and read back.
use j_sdntrace.Base.{All, ◌<◌, refl, arith}
use j_sdntrace.Tcp.Header.{IsTcp}
use j_sdntrace.Udp.RoundTrip.{IsUdp}
use j_sdntrace.Arp.RoundTrip.{IsEtherArp}
use j_sdntrace.Tests.{four_bytes, host_a, host_b, syn, query, request}

pub syn-IsTcp : IsTcp syn
syn-IsTcp = record {
  src_port_fits = omega arith;
  dst_port_fits = omega arith;
  sequence_fits = omega arith;
  ack_num_fits = omega arith;
  window_fits = omega arith;
  urgent_pointer_fits = omega arith;
}

pub query-IsUdp : IsUdp query
query-IsUdp = record { src_port_fits = omega arith; dst_port_fits = omega arith }

pub four_bytes-small : All (λ b. b < 256) four_bytes
four_bytes-small = (omega arith, (omega arith, (omega arith, (omega arith, tt))))

pub request-IsEtherArp : IsEtherArp request
request-IsEtherArp = record {
  hardtype_fits = omega arith;
  prototype_fits = omega arith;
  operation_fits = omega arith;
  hlen_six = refl;
  plen_four = refl;
  sender_hardaddr_six = refl;
  sender_protoaddr_four = refl;
  target_hardaddr_six = refl;
  target_protoaddr_four = refl;
}

pub hosts : All (λ b. b < 256) host_a × All (λ b. b < 256) host_b
hosts = (
  (omega arith, (omega arith, (omega arith, (omega arith, tt)))),
  (omega arith, (omega arith, (omega arith, (omega arith, tt)))),
)
