-- ===== src/Client.antt =====
-- The Java classes JpcapInstance, JpcapCaptor, JpcapSender and JpcapWriter: how they give out the
-- instance numbers, and call the native methods with them.
pub mod Reserve
pub mod Keep
pub mod Reach
pub mod Opening
pub mod Leak
use j_sdntrace.Base.{
  ltb, ◌==◌, if◌then◌else◌, ℕ, zero, suc, ◌+◌, Bool, true, false, Option, none, some,
}
use j_sdntrace.Wire.{Region, ◌>>=◌}
use j_sdntrace.Objects.{Packet}
use j_sdntrace.Instances.{
  Native, Message, no_message, another_instance, no_device, pcap_error, not_instantiated,
  filter_failed, another_sender, socket_open, socket_failed, non_ip, socket_closed, sendto_failed,
  update, native_close,
}
use j_sdntrace.Instances.Captor.{native_open_live, native_open_offline}
use j_sdntrace.Instances.Sender.{
  native_open_device, native_open_raw_socket, native_close_raw_socket, native_send_packet,
  native_send_packet_via_raw_socket,
}
use j_sdntrace.Instances.Writer.{native_open_dump_file}

-- The static array `instanciatedFlag`, and the native globals.
pub record Client : Type 0 where
  pub flags : ℕ → Bool
  pub native : Native

-- MAX_NUMBER_OF_INSTANCE, and the number that stands for the raw socket.
abbrev pub max_instances : ℕ
max_instances = 255

abbrev pub raw_socket_id : ℕ
raw_socket_id = 99999

-- An exception: no number is free, what a native method says, or an index past the flags.
pub data Thrown : Type 0 where
  too_many : Thrown
  native_says : Message → Thrown
  out_of_bounds : Thrown

-- An object with its field `ID`, or an exception.
pub data Outcome : Type 0 where
  instance_of : ℕ → Outcome
  thrown : Thrown → Outcome

-- The loop of `reserveID`, with `n` numbers from `i` on left to try.
unfoldable pub first_free : ℕ → ℕ → (ℕ → Bool) → Option ℕ
first_free zero i flags = none
first_free (suc n) i flags =
    let rest = first_free n (i + 1) flags in if flags i then rest else some i

unfoldable pub reserve_id : Client → Option (ℕ × Client)
reserve_id s = do
  id ← first_free max_instances 0 s.flags
  some (id, record s { flags = update s.flags id true })

-- `instanciatedFlag[ID]=false`
unfoldable pub unreserve_id : ℕ → Client → Option Thrown × Client
unreserve_id id s =
    if ltb id max_instances
    then (none, record s { flags = update s.flags id false })
    else (some out_of_bounds, s)

-- A string that is not null is thrown.
abbrev pub checked : ℕ → Message → Outcome
checked id no_message = instance_of id
checked id another_instance = thrown (native_says another_instance)
checked id no_device = thrown (native_says no_device)
checked id pcap_error = thrown (native_says pcap_error)
checked id not_instantiated = thrown (native_says not_instantiated)
checked id filter_failed = thrown (native_says filter_failed)
checked id another_sender = thrown (native_says another_sender)
checked id socket_open = thrown (native_says socket_open)
checked id socket_failed = thrown (native_says socket_failed)
checked id non_ip = thrown (native_says non_ip)
checked id socket_closed = thrown (native_says socket_closed)
checked id sendto_failed = thrown (native_says sendto_failed)

-- A constructor that reserves a number, and the native method that opens it. On an exception the number
-- stays reserved.
abbrev pub constructed : (ℕ → Native → Message × Native) → Client → Outcome × Client
constructed open_native s = elim (reserve_id s) [
  | none ↦ (thrown too_many, s)
  | some r ↦
      let made = open_native r.0 r.1.native in (checked r.0 made.0, record r.1 { native = made.1 })
]

-- `JpcapCaptor.openDevice`, `JpcapCaptor.openFile` and `JpcapSender.openDevice`, with what the system
-- answers.
unfoldable pub captor_open_device :
    ℕ → Bool → Option ℕ → Option (ℕ × ℕ) → ℕ → Client → Outcome × Client
captor_open_device env device opened net linktype =
    constructed (λ id. native_open_live id env device opened net linktype)

unfoldable pub captor_open_file : ℕ → Option ℕ → ℕ → Client → Outcome × Client
captor_open_file env opened linktype =
    constructed (λ id. native_open_offline id env opened linktype)

unfoldable pub sender_open_device : ℕ → Bool → Option ℕ → Client → Outcome × Client
sender_open_device env device opened = constructed (λ id. native_open_device id env device opened)

-- `JpcapSender.openRawSocket`: the object's `ID` is overwritten.
unfoldable pub sender_open_raw_socket : Option ℕ → Client → Outcome × Client
sender_open_raw_socket made s =
    let opened = constructed (λ id. native_open_raw_socket made) s in
    (elim opened.0 [ instance_of id ↦ instance_of raw_socket_id | thrown t ↦ thrown t ], opened.1)

-- `JpcapCaptor.close`
unfoldable pub captor_close : ℕ → Client → Option (Option Thrown × Client)
captor_close id s = do
  native ← native_close id s.native
  some (unreserve_id id (record s { native = native }))

-- `JpcapSender.close`
unfoldable pub sender_close : ℕ → Client → Option (Option Thrown × Client)
sender_close id s =
    let raw = unreserve_id id (record s { native = (native_close_raw_socket s.native).1 }) in
    if id == raw_socket_id then some raw else captor_close id s

-- `getJpcapSenderInstance`: a sender with the captor's number.
unfoldable pub get_jpcap_sender_instance : ℕ → ℕ
get_jpcap_sender_instance id = id

-- `JpcapSender.sendPacket`
unfoldable pub send_packet : ℕ → Packet → Region → Bool → Client → Option Message
send_packet id p buf sent s =
    let raw = do (m, handed) ← native_send_packet_via_raw_socket p buf sent s.native; some m
    in let live = do (m, handed) ← native_send_packet id p buf sent s.native; some m
      in if id == raw_socket_id then raw else live

-- `JpcapWriter.openDumpFile`
unfoldable pub open_dump_file : ℕ → Option ℕ → Client → Option (Option Thrown × Client)
open_dump_file id opened s = do
  (m, native) ← native_open_dump_file id opened s.native
  some (
    elim (checked id m) [ instance_of i ↦ none | thrown t ↦ some t ],
    record s { native = native },
  )
