-- ===== src/Trace/Controller.antt =====
-- TraceAppController: the map of the network, the hop counts, and the replies. A HashMap is a list
-- of keys and values, in the order in which it is walked; the order that the hashes give is not
-- followed, and a new key comes last; the commands to the network are values.
use j_sdntrace.Base.{
  ltb, ◌==◌, if◌then◌else◌, ℕ, ◌+◌, ◌-◌, ◌%◌, ◌^◌, Bool, true, false, Option, none, some, List, [],
  ◌∷◌,
}
use j_sdntrace.Wire.{◌>>=◌}
use j_sdntrace.Trace.{SwitchInfo, TracePacket, OpenFlow, deserialize_packet}

-- An object that is looked up: a MacAddress equals no key that is a Long.
pub data Key : Type 0 where
  long_key mac_key : ℕ → Key

module _ {ℓ} {A : Type ℓ} where
  unfoldable pub get : ℕ → List (ℕ × A) → Option A
  get k [] = none
  get k ((j, x) ∷ rest) = let later = get k rest in if k == j then some x else later

  unfoldable pub put : ℕ → A → List (ℕ × A) → List (ℕ × A)
  put k y [] = (k, y) ∷ []
  put k y ((j, x) ∷ rest) =
      let later = put k y rest in if k == j then (k, y) ∷ rest else (j, x) ∷ later

  unfoldable pub remove : ℕ → List (ℕ × A) → List (ℕ × A)
  remove k [] = []
  remove k ((j, x) ∷ rest) = let later = remove k rest in if k == j then rest else (j, x) ∷ later

  abbrev pub get_object : Key → List (ℕ × A) → Option A
  get_object (long_key k) map = get k map
  get_object (mac_key m) map = none

abbrev pub has_key {ℓ} : {A : Type ℓ} → ℕ → List (ℕ × A) → Bool
has_key k map = elim (get k map) [ none ↦ false | some x ↦ true ]

-- From the identifier of a switch and a MAC address to a port, and from a probe to its hop count.
pub record Controller : Type 0 where
  pub net_map : List (ℕ × List (ℕ × ℕ))
  pub hop_rec : List (ℕ × ℕ)

pub data OutPort : Type 0 where
  out_port : ℕ → OutPort
  flood to_controller : OutPort

-- The calls of INetwork; the match of a flow is built by the network for the switch.
pub data Command : Type 0 where
  add_flow : ℕ → OutPort → Command
  send_trace_packet : ℕ → TracePacket → OutPort → Command

-- -1 as a `long`.
abbrev pub minus_one64 : ℕ
minus_one64 = 2 ^ 64 - 1

unfoldable pub search_for_switch : ℕ → List (ℕ × List (ℕ × ℕ)) → ℕ
search_for_switch mac [] = minus_one64
search_for_switch mac ((l, m) ∷ rest) =
    let later = search_for_switch mac rest in if has_key mac m then l else later

-- The new TracePacket has an identifier of its own, `probe`; the time is `now`.
unfoldable pub send_reply :
    ℕ → TracePacket → OutPort → SwitchInfo → ℕ → ℕ → Controller → Controller × Command
send_reply dpid request port info now probe s =
    let hop : ℕ = elim (get request.probe_id s.hop_rec) [ none ↦ 0 | some h ↦ h ] in
    let reply : TracePacket = record {
      destination_mac = request.source_mac;
      source_mac = request.destination_mac;
      version = 1;
      max_hops = 255;
      probe_id = probe;
      timestamp = now;
      hop = hop;
      sw_info = info;
      request = false;
    } in
    (
      record s { hop_rec = put request.probe_id ((hop + 1) % 256) s.hop_rec },
      send_trace_packet dpid reply port,
    )

-- A null map or a null port is a NullPointerException, and caught.
unfoldable pub handle_trace : TracePacket → SwitchInfo → ℕ → ℕ → Controller → Controller × Command
handle_trace p info now probe s =
    let return_sw = search_for_switch p.source_mac s.net_map in
    let return_port = do ports ← get return_sw s.net_map; get_object (mac_key p.source_mac) ports
    in elim return_port [
      | some port ↦ send_reply return_sw p (out_port port) info now probe s
      | none ↦ send_reply info.dpid p flood info now probe s
    ]

-- `data[0]` is the length, with its sign: a negative one is an IndexOutOfBoundsException.
unfoldable pub packet_in :
    OpenFlow → List ℕ → SwitchInfo → ℕ → ℕ → Controller → Option (Controller × Command)
packet_in flow [] info now probe s = none
packet_in flow (n ∷ bytes) info now probe s = do
  pkt ← if ltb n 128 then deserialize_packet flow (n ∷ bytes) 0 n else none
  some (handle_trace pkt info now probe s)

unfoldable pub port_map : List (ℕ × ℕ) → List (ℕ × ℕ) → List (ℕ × ℕ)
port_map [] map = map
port_map ((mac, port) ∷ rest) map = port_map rest (put mac port map)

unfoldable pub switch_info_received : ℕ → List (ℕ × ℕ) → Controller → Controller × Command
switch_info_received dpid pairs s =
    (record s { net_map = put dpid (port_map pairs []) s.net_map }, add_flow dpid to_controller)

unfoldable pub on_port_status_change : ℕ → ℕ → ℕ → Controller → Controller
on_port_status_change dpid port mac s = elim (get dpid s.net_map) [
  | none ↦ record s { net_map = put dpid ((mac, port) ∷ []) s.net_map }
  | some map ↦
      let known = put mac port (remove mac map) in
      let changed = if has_key mac map then known else put mac port map in
      record s { net_map = put dpid changed s.net_map }
]
