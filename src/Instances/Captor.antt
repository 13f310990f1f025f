-- ===== src/Instances/Captor.antt =====
-- The methods of JpcapCaptor.
use j_sdntrace.Base.{
  ◌==◌, if◌then◌else◌, ℕ, ◌+◌, ◌-◌, ◌*◌, ◌/◌, ◌%◌, ◌^◌, Bool, not, Option, none, some, List, [],
  ◌∷◌,
}
use j_sdntrace.Wire.{Region, ◌>>=◌}
use j_sdntrace.Capture.{PacketHeader, Captured, get_packet}
use j_sdntrace.Instances.{
  Native, Message, no_message, another_instance, no_device, pcap_error, filter_failed, update,
  allocate, handle,
}

-- `pcds[id]=pcap_open_…`, and the link type once that has worked.
abbrev pub opened_handle : ℕ → Option ℕ → ℕ → Native → Message × Native
opened_handle id none linktype s = (pcap_error, record s { pcds = update s.pcds id none })
opened_handle id (some h) linktype s = (
  no_message,
  record s { pcds = update s.pcds id (some h); linktypes = update s.linktypes id linktype },
)

-- `pcap_lookupnet`: on -1 the mask is 0.
abbrev pub looked_up : ℕ → Option (ℕ × ℕ) → Native → Native
looked_up id none s = record s { netmasks = update s.netmasks id 0 }
looked_up id (some (net, mask)) s = record s {
  netnums = update s.netnums id net;
  netmasks = update s.netmasks id mask;
}

-- `device` tells whether a name was given; `opened` is what `pcap_open_live` returns.
unfoldable pub native_open_live :
    ℕ → ℕ → Bool → Option ℕ → Option (ℕ × ℕ) → ℕ → Native → Message × Native
native_open_live id env device opened net linktype s = elim (s.pcds id) [
  | some h ↦ (another_instance, s)
  | none ↦
      let s1 : Native = record s { jni_envs = update s.jni_envs id env } in
      if device
      then opened_handle id opened linktype (looked_up id net (allocate opened s1))
      else (no_device, s1)
]

unfoldable pub native_open_offline : ℕ → ℕ → Option ℕ → ℕ → Native → Message × Native
native_open_offline id env opened linktype s = elim (s.pcds id) [
  | some h ↦ (another_instance, s)
  | none ↦
      let s1 : Native = record s { jni_envs = update s.jni_envs id env } in
      opened_handle id opened linktype (allocate opened s1)
]

-- A packet as libpcap hands it over, and what the stack of `get_packet` held.
abbrev pub Arrival : Type 0
Arrival = PacketHeader × Region × ℕ

-- The object that `dispatcher_handler` gives to the handler.
unfoldable pub dispatcher_handler : Native → ℕ → Arrival → Option Captured
dispatcher_handler s id (value, bytes, junk) = get_packet value bytes (s.linktypes id) junk

-- The handler's calls, one for each packet, in order.
unfoldable pub dispatch : Native → ℕ → List Arrival → Option (List Captured)
dispatch s id [] = some []
dispatch s id (a ∷ rest) = do
  c ← dispatcher_handler s id a
  others ← dispatch s id rest
  some (c ∷ others)

-- `processPacket`; `loopPacket` differs in the call of pcap only. The result is what the handler
-- received, and the state.
unfoldable pub process_packet : ℕ → ℕ → ℕ → List Arrival → Native → Option (List Captured × Native)
process_packet id env handler arrivals s = do
  let s1 : Native = record s {
    jni_envs = update s.jni_envs id env;
    jpcap_handlers = update s.jpcap_handlers id handler;
  }
  h ← handle s1 id
  received ← dispatch s1 id arrivals
  some (received, s1)

-- What `pcap_next_ex` answers, and what `getPacket` returns.
pub data Next : Type 0 where
  timed_out failed end_of_file : Next
  arrived : Option Arrival → Next

pub data Returned : Type 0 where
  null_packet eof_packet : Returned
  packet_of : Captured → Returned

unfoldable pub get_one_packet : ℕ → ℕ → Next → Native → Option (Returned × Native)
get_one_packet id env next s = do
  h ← handle s id
  let s1 : Native = record s { jni_envs = update s.jni_envs id env }
  elim next [
    | timed_out ↦ some (null_packet, s)
    | failed ↦ some (null_packet, s)
    | end_of_file ↦ some (eof_packet, s)
    | arrived none ↦ some (null_packet, s1)
    | arrived (some a) ↦ do c ← dispatcher_handler s1 id a; some (packet_of c, s1)
  ]

-- `setFilter`: the mask handed to `pcap_compile`, and whether an exception is thrown.
unfoldable pub set_filter : ℕ → (ℕ → Bool) → Bool → Native → Option Message
set_filter id compiles installs s = do
  h ← handle s id
  some (
      if compiles (s.netmasks id)
      then (if installs then no_message else filter_failed)
      else filter_failed)

-- `updateStat`: the two counters are `jint`s.
unfoldable pub update_stat : ℕ → ℕ × ℕ → Native → Option (ℕ × ℕ)
update_stat id (received, dropped) s = do
  h ← handle s id
  some (received % 2 ^ 32, dropped % 2 ^ 32)

-- `struct timeval` from milliseconds that are not negative, and back, as a `jint`.
pub record Timeval : Type 0 where
  pub tv_sec : ℕ
  pub tv_usec : ℕ

unfoldable pub set_packet_read_timeout : ℕ → ℕ → Native → Option Timeval
set_packet_read_timeout id millis s = do
  h ← handle s id
  some (record { tv_sec = millis / 1000; tv_usec = millis % 1000 * 1000 })

-- -1 stands where `getsockopt` fails.
unfoldable pub get_packet_read_timeout : ℕ → Option Timeval → Native → Option ℕ
get_packet_read_timeout id tv s = do
  h ← handle s id
  elim tv [
    | none ↦ some (2 ^ 32 - 1)
    | some t ↦ some ((t.tv_usec / 1000 + t.tv_sec * 1000) % 2 ^ 32)
  ]

-- `breakLoop` and `setNonBlockingMode` hand the handle to pcap, and `isNonBlockinMode` tells whether
-- what pcap answers is not 0.
unfoldable pub break_loop : ℕ → Native → Option ℕ
break_loop id s = handle s id

unfoldable pub set_non_blocking_mode : ℕ → Bool → Native → Option (ℕ × Bool)
set_non_blocking_mode id non_blocking s = do h ← handle s id; some (h, non_blocking)

unfoldable pub is_non_blockin_mode : ℕ → ℕ → Native → Option Bool
is_non_blockin_mode id nonblocking s = do h ← handle s id; some (not (nonblocking == 0))
