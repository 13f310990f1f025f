-- ===== src/Trace.antt =====
-- The trace application, traceapp: trace packets and their bytes (TracePacket, SwitchInfo). The value
-- classes of OpenFlowJ are the numbers that they hold; what their `of` methods make of a number is
-- an argument.
pub mod Bytes
pub mod RoundTrip
pub mod Misread
pub mod Controller
pub mod Receiver
pub mod Reply
pub mod Hops
pub mod Sorted
pub mod Report
pub mod Collect
pub mod Sent
pub mod Path
pub mod Floodlight
pub mod Ports
use j_sdntrace.Base.{
  leb, ◌==◌, if◌then◌else◌, length, take, ℕ, zero, suc, ◌+◌, ◌-◌, ◌*◌, ◌/◌, ◌%◌, ◌^◌, Bool, true,
  false, ◌&&◌, Option, none, some, List, [], ◌∷◌, ◌++◌,
}
use j_sdntrace.Wire.{◌>>=◌}

-- What `length` and `getBytes` of a string return.
pub record JavaString : Type 0 where
  pub chars : ℕ
  pub encoded : List ℕ

abbrev pub empty_string : JavaString
empty_string = record { chars = 0; encoded = [] }

pub record SwitchInfo : Type 0 where
  pub dpid : ℕ
  pub ip_addr : List ℕ
  pub link_latency : ℕ
  pub ingress : ℕ
  pub cont_id : JavaString

pub record TracePacket : Type 0 where
  pub destination_mac : ℕ
  pub source_mac : ℕ
  pub version : ℕ
  pub max_hops : ℕ
  pub probe_id : ℕ
  pub timestamp : ℕ
  pub hop : ℕ
  pub sw_info : SwitchInfo
  pub request : Bool

-- `SwitchInfo.len`, and `packSize`.
abbrev pub switch_len : ℕ
switch_len = 28

abbrev pub pack_size : ℕ
pack_size = 37 + switch_len

-- `putLong` and `putInt`: the lower `n` bytes, the highest first.
unfoldable pub put_bytes : ℕ → ℕ → List ℕ
put_bytes zero x = []
put_bytes (suc n) x = x / 256 ^ n % 256 ∷ put_bytes n x

-- What a buffer of `n` bytes holds once `bytes` were put: more bytes are a BufferOverflowException.
abbrev pub zero_bytes : ℕ → List ℕ
zero_bytes zero = []
zero_bytes (suc n) = 0 ∷ zero_bytes n

unfoldable pub filled_buffer : ℕ → List ℕ → Option (List ℕ)
filled_buffer n bytes =
    if leb (length bytes) n then some (bytes ++ zero_bytes (n - length bytes)) else none

-- `SwitchInfo.serialize`, with the first four bytes of the address; a shorter one is an exception.
unfoldable pub serialize_switch : SwitchInfo → Option (List ℕ)
serialize_switch s =
    let bytes =
      put_bytes 8 s.dpid
      ++ (take 4 s.ip_addr
          ++ (put_bytes 8 s.link_latency
              ++ (put_bytes 4 s.ingress ++ (put_bytes 4 s.cont_id.chars ++ s.cont_id.encoded)))) in
    if leb 4 (length s.ip_addr) then filled_buffer (switch_len + s.cont_id.chars) bytes else none

-- `TracePacket.serialize`. The length counts the identifier twice and is put as one byte.
unfoldable pub serialize_packet : TracePacket → Option (List ℕ)
serialize_packet p = do
  let n = pack_size + p.sw_info.cont_id.chars + p.sw_info.cont_id.chars
  swinf ← serialize_switch p.sw_info
  let kind : ℕ = if p.request then 1 else 0
  filled_buffer n (
      n % 256
      ∷ (put_bytes 8 p.destination_mac
          ++ (put_bytes 8 p.source_mac
              ++ (p.version
                  ∷ p.max_hops
                  ∷ (put_bytes 8 p.probe_id
                      ++ (p.hop ∷ (put_bytes 8 p.timestamp ++ (kind ∷ swinf))))))))

-- `getLong` and `getInt` of what is left of a buffer; `acc` is what was read before. Too few bytes are a
-- BufferUnderflowException.
unfoldable pub get_bytes : ℕ → ℕ → List ℕ → Option (ℕ × List ℕ)
get_bytes zero acc bytes = some (acc, bytes)
get_bytes (suc n) acc [] = none
get_bytes (suc n) acc (b ∷ bytes) = get_bytes n (acc * 256 + b) bytes

abbrev pub drop : ℕ → List ℕ → List ℕ
drop zero bytes = bytes
drop (suc n) [] = []
drop (suc n) (b ∷ bytes) = drop n bytes

-- `ByteBuffer.wrap`: a part that does not lie in the array is an IndexOutOfBoundsException.
unfoldable pub wrap : List ℕ → ℕ → ℕ → Option (List ℕ)
wrap array offset n =
    if leb (offset + n) (length array) then some (take n (drop offset array)) else none

-- What the `of` methods of MacAddress, DatapathId, U64 and OFPort hold.
pub record OpenFlow : Type 0 where
  pub mac_of : ℕ → ℕ
  pub datapath_of : ℕ → ℕ
  pub u64_of : ℕ → ℕ
  pub port_of : ℕ → ℕ

-- `SwitchInfo.deserialize`: the identifier stays empty.
unfoldable pub deserialize_switch : OpenFlow → List ℕ → ℕ → ℕ → Option SwitchInfo
deserialize_switch flow array offset n = do
  bb ← wrap array offset n
  (dpid, bb1) ← get_bytes 8 0 bb
  (addr0, bb2) ← get_bytes 1 0 bb1
  (addr1, bb3) ← get_bytes 1 0 bb2
  (addr2, bb4) ← get_bytes 1 0 bb3
  (addr3, bb5) ← get_bytes 1 0 bb4
  (latency, bb6) ← get_bytes 8 0 bb5
  (ingress, bb7) ← get_bytes 4 0 bb6
  (len, bb8) ← get_bytes 4 0 bb7
  some (record {
    dpid = flow.datapath_of dpid;
    ip_addr = addr0 ∷ addr1 ∷ addr2 ∷ addr3 ∷ [];
    link_latency = flow.u64_of latency;
    ingress = flow.port_of ingress;
    cont_id = empty_string;
  })

-- `TracePacket.deserialize`. The switch is read at 21, whatever `offset` is.
unfoldable pub deserialize_packet : OpenFlow → List ℕ → ℕ → ℕ → Option TracePacket
deserialize_packet flow array offset n = do
  bb ← wrap array offset n
  (len, bb0) ← get_bytes 1 0 bb
  (destination, bb1) ← get_bytes 8 0 bb0
  (source, bb2) ← get_bytes 8 0 bb1
  (version, bb3) ← get_bytes 1 0 bb2
  (max_hops, bb4) ← get_bytes 1 0 bb3
  (probe_id, bb5) ← get_bytes 8 0 bb4
  (hop, bb6) ← get_bytes 1 0 bb5
  (time, bb7) ← get_bytes 8 0 bb6
  (req, bb8) ← get_bytes 1 0 bb7
  sw_info ← deserialize_switch flow array 21 switch_len
  some (record {
    destination_mac = flow.mac_of destination;
    source_mac = flow.mac_of source;
    version = version;
    max_hops = max_hops;
    probe_id = probe_id;
    timestamp = time;
    hop = hop;
    sw_info = sw_info;
    request = req == 1;
  })

-- `equals`: the last test compares the switch with the packet `q`, two objects of different classes, so
-- that `Object.equals` is false.
unfoldable pub packet_equals : TracePacket → TracePacket → Bool
packet_equals p q =
    let objects_equal = false in
    p.destination_mac == q.destination_mac
    && p.source_mac == q.source_mac
    && p.version == q.version
    && p.max_hops == q.max_hops
    && p.probe_id == q.probe_id
    && p.hop == q.hop
    && objects_equal

-- `ConvertToReply`, which is null for a reply.
unfoldable pub convert_to_reply : TracePacket → Option TracePacket
convert_to_reply p =
    if p.request
    then some (record p {
      request = false;
      source_mac = p.destination_mac;
      destination_mac = p.source_mac;
    })
    else none

-- `SwitchInfo.equals`; the port of the address is always 0.
abbrev pub bytes_equal : List ℕ → List ℕ → Bool
bytes_equal [] [] = true
bytes_equal (x ∷ xs) (y ∷ ys) = x == y && bytes_equal xs ys
bytes_equal [] (y ∷ ys) = false
bytes_equal (x ∷ xs) [] = false

unfoldable pub switch_equals : SwitchInfo → SwitchInfo → Bool
switch_equals s t =
    s.dpid == t.dpid
    && s.ingress == t.ingress
    && bytes_equal s.ip_addr t.ip_addr
    && s.link_latency == t.link_latency
    && s.cont_id.chars == t.cont_id.chars
    && bytes_equal s.cont_id.encoded t.cont_id.encoded
