-- ===== src/Trace/Floodlight.antt =====
-- TraceModule: the devices that Floodlight reports, and the switches and ports that it hands to the
-- controller. A SwitchPort is its switch and its port; a MAC address is its number.
use j_sdntrace.Base.{
  leb, ◌==◌, if◌then◌else◌, Bool-cases, All, ℕ, ◌^◌, ◌≡◌, refl, ◌∙◌, ◌≢◌, inl, inr, Bool, true,
  false, not, ◌&&◌, none, some, List, [], ◌∷◌, arith,
}
use j_sdntrace.Trace.Controller.{
  get, put, remove, Controller, Command, port_map, switch_info_received, on_port_status_change,
}
use j_sdntrace.Trace.Ports.{port_of, port_of-put, port_of-on_port_status_change}
use j_sdntrace.Trace.Reply.{get-put}

pub record TraceModule : Type 0 where
  pub devices : List (ℕ × List (ℕ × ℕ))
  pub tracer : Controller

-- MacAddress.NONE
abbrev pub no_mac : ℕ
no_mac = 0

unfoldable pub device_added : ℕ → List (ℕ × ℕ) → TraceModule → TraceModule
device_added mac [] s = record s { devices = put mac [] s.devices }
device_added mac ((dpid, port) ∷ []) s = record {
  devices = put mac ((dpid, port) ∷ []) s.devices;
  tracer = on_port_status_change dpid port mac s.tracer;
}
device_added mac (a ∷ b ∷ rest) s = record s { devices = put mac (a ∷ b ∷ rest) s.devices }

unfoldable pub device_removed : ℕ → TraceModule → TraceModule
device_removed mac s = record s { devices = remove mac s.devices }

-- The key that is removed is the device and not its address: no entry has it.
unfoldable pub device_moved : ℕ → List (ℕ × ℕ) → TraceModule → TraceModule
device_moved mac ports s = record s { devices = put mac ports s.devices }

-- `Arrays.equals` of the one port and a device's ports.
abbrev pub is_only_port : ℕ → ℕ → List (ℕ × ℕ) → Bool
is_only_port dpid port [] = false
is_only_port dpid port ((d, p) ∷ []) = d == dpid && p == port
is_only_port dpid port (a ∷ b ∷ rest) = false

unfoldable pub find_mac_on_port : List (ℕ × List (ℕ × ℕ)) → ℕ → ℕ → ℕ
find_mac_on_port [] port dpid = no_mac
find_mac_on_port ((addr, current) ∷ rest) port dpid =
    let later = find_mac_on_port rest port dpid in
    if is_only_port dpid port current then addr else later

-- The loop over a switch's ports, each with its number and its own address.
unfoldable pub port_pairs : List (ℕ × List (ℕ × ℕ)) → ℕ → List (ℕ × ℕ) → List (ℕ × ℕ)
port_pairs devices dpid [] = []
port_pairs devices dpid ((port, hw_addr) ∷ rest) =
    let later = port_pairs devices dpid rest in
    if leb (2 ^ 63) hw_addr
    then later
    else if not (find_mac_on_port devices port dpid == no_mac)
    then (hw_addr, port) ∷ later
    else later

unfoldable pub switch_added : ℕ → List (ℕ × ℕ) → TraceModule → TraceModule × Command
switch_added dpid ports s =
    let (tracer, command) = switch_info_received dpid (port_pairs s.devices dpid ports) s.tracer in
    (record s { tracer = tracer }, command)

pub data PortChange : Type 0 where
  port_up port_add port_other : PortChange

unfoldable pub switch_port_changed : ℕ → ℕ → ℕ → PortChange → TraceModule → TraceModule
switch_port_changed dpid port hw_addr change s = elim change [
  | port_other ↦ s
  | _ ↦ record s { tracer = on_port_status_change dpid port hw_addr s.tracer }
]

-- The addresses that a switch's own ports have.
abbrev pub IsNoPort : ℕ → List (ℕ × ℕ) → Type 0
IsNoPort mac ports = All (λ p. p.1 ≢ mac) ports

get-port_map :
    (mac : ℕ) (pairs map : List (ℕ × ℕ))
    → All (λ p. p.0 ≢ mac) pairs
    → get mac (port_map pairs map) ≡ get mac map
unfolding port_map
get-port_map mac [] map a = refl
get-port_map mac ((m, port) ∷ rest) map (differs, a) =
    let other : (mac == m) ≡ false = ground arith in
    get-port_map mac rest (put m port map) a ∙ get-put m mac port map ∙ rw other refl

port_pairs-other :
    (mac dpid : ℕ) (devices : List (ℕ × List (ℕ × ℕ))) (ports : List (ℕ × ℕ))
    → IsNoPort mac ports
    → All (λ p. p.0 ≢ mac) (port_pairs devices dpid ports)
unfolding port_pairs
port_pairs-other mac dpid devices [] a = tt
port_pairs-other mac dpid devices ((port, hw) ∷ rest) (differs, a) =
    let later = port_pairs-other mac dpid devices rest a in
    elim (Bool-cases (leb (2 ^ 63) hw)) [
      | inl e ↦ rw (port_pairs, e) later
      | inr e ↦ elim (Bool-cases (find_mac_on_port devices port dpid == no_mac)) [
        | inl d ↦ rw (port_pairs, e, d) later
        | inr d ↦ rw (port_pairs, e, d) (differs, later)
      ]
    ]

-- A device with one attachment point is added, and then a switch with ports of other addresses than the
-- device's: after the first, the controller has the device on its port; after the second, the controller has
-- the device nowhere on this switch, although it is attached to it, and what it has of the other switches is
-- unchanged.
pub port_of-switch_added :
    (dpid port mac d m : ℕ) (ports : List (ℕ × ℕ)) (s : TraceModule)
    → IsNoPort mac ports
    → (d == dpid) ≡ false
    → let added = device_added mac ((dpid, port) ∷ []) s in
      let after = (switch_added dpid ports added).0 in
      (port_of dpid mac added.tracer ≡ some port)
      × (port_of dpid mac after.tracer ≡ none)
      × (port_of d m after.tracer ≡ port_of d m s.tracer)
unfolding device_added switch_added switch_info_received get
port_of-switch_added dpid port mac d m ports s a other =
    let added = device_added mac ((dpid, port) ∷ []) s in
    let same : (dpid == dpid) ≡ true = ground arith in
    let same_mac : (mac == mac) ≡ true = ground arith in
    let pairs = port_pairs added.devices dpid ports in
    (
      port_of-on_port_status_change dpid port mac dpid mac s.tracer ∙ rw (same, same_mac) refl,
      port_of-put dpid (port_map pairs []) dpid mac added.tracer
          ∙ rw same (get-port_map mac pairs [] (port_pairs-other mac dpid added.devices ports a)),
      port_of-put dpid (port_map pairs []) d m added.tracer
          ∙ rw other (port_of-on_port_status_change dpid port mac d m s.tracer ∙ rw other refl),
    )
