-- ===== src/Instances/Devices.antt =====
-- getDeviceList and getAddressByteArray in JpcapCaptor.c, as they are built on Linux.
use j_sdntrace.Base.{
  if◌then◌else◌, length, ℕ, zero, suc, Bool, true, false, Option, none, some, List, [], ◌∷◌,
}
use j_sdntrace.Wire.{◌>>=◌}

-- `struct sockaddr`: its family, and the address it holds.
pub data Sockaddr : Type 0 where
  inet : List ℕ → Sockaddr
  inet6 : List ℕ → Sockaddr
  other_family : Sockaddr

-- `pcap_addr_t`; a null pointer is `none`.
pub record PcapAddr : Type 0 where
  pub addr : Option Sockaddr
  pub netmask : Option Sockaddr
  pub broadaddr : Option Sockaddr
  pub dstaddr : Option Sockaddr

-- `pcap_if_t`: its name, its flags and its addresses.
pub record PcapIf : Type 0 where
  pub name : List ℕ
  pub description : Option (List ℕ)
  pub loopback : Bool
  pub addresses : List PcapAddr

-- The arguments of the constructors of NetworkInterfaceAddress and NetworkInterface; `link` is the
-- link type whose names are given, and `none` stands for "Unknown".
pub record AddressObject : Type 0 where
  pub addr : Option (List ℕ)
  pub netmask : Option (List ℕ)
  pub broadaddr : Option (List ℕ)
  pub dstaddr : Option (List ℕ)

pub record Interface : Type 0 where
  pub name : List ℕ
  pub description : Option (List ℕ)
  pub loopback : Bool
  pub link : Option ℕ
  pub mac : List ℕ
  pub addresses : List (Option AddressObject)

unfoldable pub get_address_byte_array : Option Sockaddr → Option (List ℕ)
get_address_byte_array none = none
get_address_byte_array (some (inet bytes)) = some bytes
get_address_byte_array (some (inet6 bytes)) = some bytes
get_address_byte_array (some other_family) = none

abbrev pub is_set {ℓ} : {A : Type ℓ} → Option A → Bool
is_set none = false
is_set (some a) = true

-- `for(j=0,a=d->addresses;a;a=a->next) if(getAddressByteArray(env,a->addr)) j++;`
unfoldable pub count_addresses : List PcapAddr → ℕ
count_addresses [] = 0
count_addresses (a ∷ rest) =
    let n = count_addresses rest in if is_set (get_address_byte_array a.addr) then suc n else n

-- `NewObjectArray`: j null elements. `SetObjectArrayElement` throws on an index past the end.
abbrev pub new_object_array {ℓ} : {A : Type ℓ} → ℕ → List (Option A)
new_object_array zero = []
new_object_array (suc n) = none ∷ new_object_array n

abbrev pub set_element {ℓ} : {A : Type ℓ} → List (Option A) → ℕ → A → Option (List (Option A))
set_element [] i a = none
set_element (x ∷ xs) zero a = some (some a ∷ xs)
set_element (x ∷ xs) (suc i) a = do ys ← set_element xs i a; some (x ∷ ys)

abbrev pub address_object : PcapAddr → List ℕ → AddressObject
address_object a bytes = record {
  addr = some bytes;
  netmask = get_address_byte_array a.netmask;
  broadaddr = get_address_byte_array a.broadaddr;
  dstaddr = get_address_byte_array a.dstaddr;
}

-- The loop that fills the array, from its j-th element on.
unfoldable pub set_addresses :
    List PcapAddr → ℕ → List (Option AddressObject) → Option (List (Option AddressObject))
set_addresses [] j array = some array
set_addresses (a ∷ rest) j array = elim (get_address_byte_array a.addr) [
  | none ↦ set_addresses rest j array
  | some bytes ↦ do
    array' ← set_element array j (address_object a bytes)
    set_addresses rest (suc j) array'
]

-- What the system answers: whether a socket can be made, the hardware address of a name, and the link
-- type that `pcap_open_live` and `pcap_datalink` find.
pub record System : Type 0 where
  pub can_open : Bool
  pub hwaddr : List ℕ → List ℕ
  pub datalink : List ℕ → Option ℕ

unfoldable pub make_interface : System → PcapIf → Option Interface
make_interface system d = do
  addresses ← set_addresses d.addresses 0 (new_object_array (count_addresses d.addresses))
  some (record {
    name = d.name;
    description = d.description;
    loopback = d.loopback;
    link = system.datalink d.name;
    mac = system.hwaddr d.name;
    addresses = addresses;
  })

unfoldable pub set_devices :
    System → List PcapIf → ℕ → List (Option Interface) → Option (List (Option Interface))
set_devices system [] i devices = some devices
set_devices system (d ∷ rest) i devices =
    let next = do
      device ← make_interface system d
      devices' ← set_element devices i device
      set_devices system rest (suc i) devices'
    in if system.can_open then next else none

-- `found` is the list that `pcap_findalldevs` makes; `none` is null, with or without an exception.
unfoldable pub get_device_list : System → Option (List PcapIf) → Option (List (Option Interface))
get_device_list system none = none
get_device_list system (some alldevs) =
    set_devices system alldevs 0 (new_object_array (length alldevs))
