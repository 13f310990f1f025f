-- ===== src/Instances/DeviceList.antt =====
-- getDeviceList: the arrays, and what they are to hold.
use j_sdntrace.Wire.{◌>>=◌}
use j_sdntrace.Base.{
  Option-cases, length, ℕ, suc, ◌≡◌, refl, sym, ap, ◌∙◌, inl, inr, true, Option, none, some, List,
  [], ◌∷◌, ◌++◌,
}
use j_sdntrace.Instances.Devices.{
  PcapAddr, PcapIf, AddressObject, Interface, get_address_byte_array, count_addresses,
  new_object_array, set_element, address_object, set_addresses, System, make_interface, set_devices,
  get_device_list,
}

-- The addresses that can be shown, in order, and the interface of a device.
abbrev pub shown : List PcapAddr → List (Option AddressObject)
shown [] = []
shown (a ∷ rest) = elim (get_address_byte_array a.addr) [
  | none ↦ shown rest
  | some bytes ↦ some (address_object a bytes) ∷ shown rest
]

abbrev pub interface_of : System → PcapIf → Interface
interface_of system d = record {
  name = d.name;
  description = d.description;
  loopback = d.loopback;
  link = system.datalink d.name;
  mac = system.hwaddr d.name;
  addresses = shown d.addresses;
}

abbrev pub interfaces : System → List PcapIf → List (Option Interface)
interfaces system [] = []
interfaces system (d ∷ rest) = some (interface_of system d) ∷ interfaces system rest

module _ {ℓ} {A : Type ℓ} where
  snoc-append : (xs : List A) (y : A) (zs : List A) → (xs ++ (y ∷ [])) ++ zs ≡ xs ++ (y ∷ zs)
  snoc-append [] y zs = refl
  snoc-append (x ∷ xs) y zs = ap (◌∷◌ x) (snoc-append xs y zs)

  length-snoc : (xs : List A) (y : A) → length (xs ++ (y ∷ [])) ≡ suc (length xs)
  length-snoc [] y = refl
  length-snoc (x ∷ xs) y = ap suc (length-snoc xs y)

  set_element-here :
      (xs : List (Option A)) (a : A) (zs : List (Option A))
      → set_element (xs ++ (none ∷ zs)) (length xs) a ≡ some (xs ++ (some a ∷ zs))
  set_element-here [] a zs = refl
  set_element-here (x ∷ xs) a zs = rw (set_element-here xs a zs) refl

count_none : count_addresses [] ≡ 0
unfolding count_addresses
count_none = refl

count_hidden :
    (a : PcapAddr) (rest : List PcapAddr)
    → get_address_byte_array a.addr ≡ none
    → count_addresses (a ∷ rest) ≡ count_addresses rest
unfolding count_addresses
count_hidden a rest hidden = rw hidden refl

count_found :
    (a : PcapAddr) (rest : List PcapAddr) (bytes : List ℕ)
    → get_address_byte_array a.addr ≡ some bytes
    → count_addresses (a ∷ rest) ≡ suc (count_addresses rest)
unfolding count_addresses
count_found a rest bytes found = rw found refl

set_hidden :
    (a : PcapAddr) (rest : List PcapAddr) (j : ℕ) (array : List (Option AddressObject))
    → get_address_byte_array a.addr ≡ none
    → (set_addresses (a ∷ rest) j array ≡ set_addresses rest j array)
      × (shown (a ∷ rest) ≡ shown rest)
unfolding set_addresses
set_hidden a rest j array hidden = (rw (set_addresses, hidden) refl, rw (shown, hidden) refl)

set_found :
    (a : PcapAddr) (rest : List PcapAddr) (j : ℕ) (array : List (Option AddressObject))
    (bytes : List ℕ)
    → get_address_byte_array a.addr ≡ some bytes
    → (set_addresses (a ∷ rest) j array
        ≡ ◌>>=◌ {B = List (Option AddressObject)}
            (set_element array j (address_object a bytes))
            (λ array'. set_addresses rest (suc j) array'))
      × (shown (a ∷ rest) ≡ some (address_object a bytes) ∷ shown rest)
unfolding set_addresses
set_found a rest j array bytes found = (rw (set_addresses, found) refl, rw (shown, found) refl)

set_addresses-shown :
    (list : List PcapAddr) (before : List (Option AddressObject)) (n : ℕ)
    → count_addresses list ≡ n
    → set_addresses list (length before) (before ++ new_object_array n)
      ≡ some (before ++ shown list)
unfolding set_addresses
set_addresses-shown [] before n e = rw (sym e ∙ count_none) refl
set_addresses-shown (a ∷ rest) before n e = elim (Option-cases (get_address_byte_array a.addr)) [
  | inl hidden ↦
      let step = set_hidden a rest (length before) (before ++ new_object_array n) hidden in
      step.0
      ∙ set_addresses-shown rest before n (sym (count_hidden a rest hidden) ∙ e)
      ∙ ap (λ l. some (before ++ l)) (sym step.1)
  | inr found ↦
      let m = count_addresses rest in
      let x = some (address_object a found.0) in
      let step =
        set_found a rest (length before) (before ++ new_object_array (suc m)) found.0 found.1 in
      rw (sym e ∙ count_found a rest found.0 found.1) (
        step.0
        ∙ rw (set_element-here before (address_object a found.0) (new_object_array m)) (
            rw
              (
                length-snoc before x,
                snoc-append before x (new_object_array m),
                snoc-append before x (shown rest),
              )
              at (set_addresses-shown rest (before ++ (x ∷ [])) m refl))
        ∙ ap (λ l. some (before ++ l)) (sym step.1))
]

make_interface-all :
    (system : System) (d : PcapIf) → make_interface system d ≡ some (interface_of system d)
unfolding make_interface
make_interface-all system d =
    rw (set_addresses-shown d.addresses [] (count_addresses d.addresses) refl) refl

set_devices-all :
    (system : System) (devs : List PcapIf) (before : List (Option Interface))
    → system.can_open ≡ true
    → set_devices system devs (length before) (before ++ new_object_array (length devs))
      ≡ some (before ++ interfaces system devs)
unfolding set_devices make_interface
set_devices-all system [] before can = refl
set_devices-all system (d ∷ rest) before can =
    let x = some (interface_of system d) in
    rw
      (
        can,
        make_interface-all system d,
        set_element-here before (interface_of system d) (new_object_array (length rest)),
      )
      (rw
        (
          length-snoc before x,
          snoc-append before x (new_object_array (length rest)),
          snoc-append before x (interfaces system rest),
        )
        at (set_devices-all system rest (before ++ (x ∷ [])) can))

-- Where a socket can be made, `getDeviceList` returns one interface for each device that
-- `pcap_findalldevs` finds, in order, and each has, in order, those of the device's addresses that are
-- IPv4 or IPv6, with their mask, broadcast and destination addresses: no element of an array is left
-- null, and none is stored past an array's end.
pub get_device_list-all :
    (system : System) (devs : List PcapIf)
    → system.can_open ≡ true
    → get_device_list system (some devs) ≡ some (interfaces system devs)
unfolding get_device_list
get_device_list-all system devs can = set_devices-all system devs [] can
