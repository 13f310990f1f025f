-- ===== src/Trace/Ports.antt =====
-- The map of the network as a function from switches and MAC addresses to ports.
use j_sdntrace.Base.{
  ◌==◌, if◌then◌else◌, Bool-cases, Option-cases, ℕ, ◌≡◌, refl, ◌∙◌, inl, inr, false, ◌&&◌, Option,
  none, some, List, [], ◌∷◌, arith,
}
use j_sdntrace.Wire.{◌>>=◌}
use j_sdntrace.Trace.Controller.{get, put, remove, has_key, Controller, on_port_status_change}
use j_sdntrace.Trace.Reply.{get-put}

-- The port on which a switch has a MAC address.
unfoldable pub port_of : ℕ → ℕ → Controller → Option ℕ
port_of dpid mac s = do ports ← get dpid s.net_map; get mac ports

get-remove : (k j : ℕ) (map : List (ℕ × ℕ)) → (j == k) ≡ false → get j (remove k map) ≡ get j map
unfolding get remove
get-remove k j [] other = refl
get-remove k j ((i, x) ∷ rest) other = ground (arith, get-remove k j rest other)

get-changed :
    (mac m port : ℕ) (map : List (ℕ × ℕ))
    → get m (if has_key mac map then put mac port (remove mac map) else put mac port map)
      ≡ (if m == mac then some port else get m map)
get-changed mac m port map = elim (Bool-cases (has_key mac map)) [
  | inl e ↦ elim (Bool-cases (m == mac)) [
    | inl d ↦ rw e (get-put mac m port (remove mac map) ∙ rw d refl)
    | inr d ↦ rw e (get-put mac m port (remove mac map) ∙ rw d (get-remove mac m map d))
  ]
  | inr e ↦ rw e (get-put mac m port map)
]

pub port_of-put :
    (dpid : ℕ) (changed : List (ℕ × ℕ)) (d m : ℕ) (s : Controller)
    → port_of d m (record s { net_map = put dpid changed s.net_map })
      ≡ (if d == dpid then get m changed else port_of d m s)
unfolding port_of
port_of-put dpid changed d m s =
    let found = get-put dpid d changed s.net_map in
    elim (Bool-cases (d == dpid)) [
      | inl e ↦ rw (port_of, found, e) refl
      | inr e ↦ rw (port_of, found, e) refl
    ]

-- After `OnPortStatusChange`, the switch has the MAC address on the port; every other MAC address of this
-- switch, one that was on the same port too, is where it was, as are those of the other switches. There is no
-- exception for any address: -1 is entered like the others.
pub port_of-on_port_status_change :
    (dpid port mac d m : ℕ) (s : Controller)
    → port_of d m (on_port_status_change dpid port mac s)
      ≡ (if (d == dpid) && (m == mac) then some port else port_of d m s)
unfolding port_of on_port_status_change get
port_of-on_port_status_change dpid port mac d m s = elim (Option-cases (get dpid s.net_map)) [
  | inl none_yet ↦
      let entered = port_of-put dpid ((mac, port) ∷ []) d m s in
      elim (Bool-cases (d == dpid)) [
        | inl e ↦
            let same : d ≡ dpid = ground arith in
            let before : port_of d m s ≡ none = rw (port_of, same, none_yet) refl in
            rw (on_port_status_change, none_yet) (entered ∙ rw (e, before) refl)
        | inr e ↦ rw (on_port_status_change, none_yet) (entered ∙ rw e refl)
      ]
  | inr (map, found) ↦
      let changed = get-changed mac m port map in
      elim (Bool-cases (d == dpid)) [
        | inl e ↦
            let same : d ≡ dpid = ground arith in
            rw (on_port_status_change, found)
              (port_of-put dpid _ d m s ∙ rw (e, changed, port_of, same, found) refl)
        | inr e ↦ rw (on_port_status_change, found) (port_of-put dpid _ d m s ∙ rw e refl)
      ]
]
