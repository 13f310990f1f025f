-- ===== src/Trace/RoundTrip.antt =====
-- The bytes of a trace packet, and what `deserialize` makes of them.
use j_sdntrace.Base.{
  if◌then◌else◌, le→leb, length, take-length, ℕ, zero, suc, ◌+◌, ◌-◌, ◌%◌, ◌^◌, ◌≤◌, ◌<◌, ◌≡◌, refl,
  ap, ◌∙◌, Bool, some, List, [], ◌∷◌, ◌++◌, arith,
}
use j_sdntrace.Trace.{
  SwitchInfo, TracePacket, put_bytes, zero_bytes, filled_buffer, serialize_switch, serialize_packet,
  wrap, OpenFlow,
}

-- What the `of` methods make of the values that they can hold; a port is no reserved number.
pub record HasValues (flow : OpenFlow) : Type 0 where
  pub mac_of_same : (x : ℕ) → x < 2 ^ 48 → flow.mac_of x ≡ x
  pub datapath_of_same : (x : ℕ) → x < 2 ^ 64 → flow.datapath_of x ≡ x
  pub u64_of_same : (x : ℕ) → x < 2 ^ 64 → flow.u64_of x ≡ x
  pub port_of_same : (x : ℕ) → x ≤ 0xffff_ff00 → flow.port_of x ≡ x

-- The fields have their widths, the address is IPv4, and the identifier is ASCII. The lower half of the
-- number of the switch is read as a port, and is no reserved one.
pub record IsTracePacket (p : TracePacket) : Type 0 where
  pub destination_fits : p.destination_mac < 2 ^ 48
  pub source_fits : p.source_mac < 2 ^ 48
  pub probe_fits : p.probe_id < 2 ^ 64
  pub time_fits : p.timestamp < 2 ^ 64
  pub hop_fits : p.hop < 256
  pub dpid_fits : p.sw_info.dpid < 2 ^ 64
  pub dpid_low : p.sw_info.dpid % 2 ^ 32 ≤ 0xffff_ff00
  pub addr0 : ℕ
  pub addr1 : ℕ
  pub addr2 : ℕ
  pub addr3 : ℕ
  pub ipv4 : p.sw_info.ip_addr ≡ addr0 ∷ addr1 ∷ addr2 ∷ addr3 ∷ []
  pub ascii : length p.sw_info.cont_id.encoded ≡ p.sw_info.cont_id.chars

-- The bytes of the switch, with `rest` behind them, and those of the packet.
abbrev pub switch_bytes : SwitchInfo → List ℕ → List ℕ
switch_bytes s rest =
    put_bytes 8 s.dpid
    ++ (s.ip_addr
        ++ (put_bytes 8 s.link_latency
            ++ (put_bytes 4 s.ingress
                ++ (put_bytes 4 s.cont_id.chars ++ (s.cont_id.encoded ++ rest)))))

abbrev pub kind_byte : Bool → ℕ
kind_byte request = if request then 1 else 0

abbrev pub packet_bytes : TracePacket → ℕ → List ℕ → List ℕ
packet_bytes p n rest =
    n % 256
    ∷ (put_bytes 8 p.destination_mac
        ++ (put_bytes 8 p.source_mac
            ++ (p.version
                ∷ p.max_hops
                ∷ (put_bytes 8 p.probe_id
                    ++ (p.hop
                        ∷ (put_bytes 8 p.timestamp
                            ++ (kind_byte p.request ∷ switch_bytes p.sw_info rest)))))))

abbrev pub packet_length : TracePacket → ℕ
packet_length p = 65 + p.sw_info.cont_id.chars + p.sw_info.cont_id.chars

length-append : (xs ys : List ℕ) → length (xs ++ ys) ≡ length xs + length ys
length-append [] ys = omega arith
length-append (x ∷ xs) ys = omega (arith, length-append xs ys)

append-none : (xs : List ℕ) → xs ++ [] ≡ xs
append-none [] = refl
append-none (x ∷ xs) = ap (◌∷◌ x) (append-none xs)

length-zero_bytes : (n : ℕ) → length (zero_bytes n) ≡ n
length-zero_bytes zero = refl
length-zero_bytes (suc n) = omega (arith, length-zero_bytes n)

filled_buffer-exact :
    (bytes : List ℕ) (n k : ℕ)
    → length bytes + k ≡ n
    → filled_buffer n bytes ≡ some (bytes ++ zero_bytes k)
unfolding filled_buffer
filled_buffer-exact bytes n k e =
    let left : n - length bytes ≡ k = omega arith in
    rw (filled_buffer, le→leb (length bytes) n (omega arith), left) refl

serialize_switch_lem :
    (p : TracePacket)
    → IsTracePacket p
    → serialize_switch p.sw_info ≡ some (switch_bytes p.sw_info [])
unfolding serialize_switch put_bytes
serialize_switch_lem p x =
    let s = p.sw_info in
    let body =
      put_bytes 8 s.dpid
      ++ ((x.addr0 ∷ x.addr1 ∷ x.addr2 ∷ x.addr3 ∷ [])
          ++ (put_bytes 8 s.link_latency
              ++ (put_bytes 4 s.ingress ++ (put_bytes 4 s.cont_id.chars ++ s.cont_id.encoded)))) in
    rw (serialize_switch, x.ipv4)
      (filled_buffer-exact body (28 + s.cont_id.chars) 0 (omega (arith, x.ascii)))

packet_bytes-append :
    (p : TracePacket)
    → IsTracePacket p
    → (n : ℕ) (rest : List ℕ) → packet_bytes p n [] ++ rest ≡ packet_bytes p n rest
unfolding put_bytes
packet_bytes-append p x n rest = rw (x.ipv4, append-none p.sw_info.cont_id.encoded) refl

pub serialize_packet_lem :
    (p : TracePacket)
    → IsTracePacket p
    → serialize_packet p
      ≡ some (packet_bytes p (packet_length p) (zero_bytes p.sw_info.cont_id.chars))
unfolding serialize_packet put_bytes
serialize_packet_lem p x =
    let s = p.sw_info in
    let made =
      filled_buffer-exact (packet_bytes p (packet_length p) []) (packet_length p) s.cont_id.chars
        (rw x.ipv4 (omega (arith, x.ascii, length-append s.cont_id.encoded []))) in
    rw (serialize_packet, serialize_switch_lem p x)
      (made ∙ ap some (packet_bytes-append p x (packet_length p) (zero_bytes s.cont_id.chars)))

pub length-packet_bytes :
    (p : TracePacket)
    → IsTracePacket p
    → length (packet_bytes p (packet_length p) (zero_bytes p.sw_info.cont_id.chars))
      ≡ packet_length p
unfolding put_bytes
length-packet_bytes p x =
    let s = p.sw_info in
    rw x.ipv4 (
      omega (
        arith,
        x.ascii,
        length-append s.cont_id.encoded (zero_bytes s.cont_id.chars),
        length-zero_bytes s.cont_id.chars,
      ))

pub wrap-whole : (bytes : List ℕ) → wrap bytes 0 (length bytes) ≡ some bytes
unfolding wrap
wrap-whole bytes =
    rw (wrap, le→leb (0 + length bytes) (length bytes) (omega arith)) (ap some (take-length bytes))
