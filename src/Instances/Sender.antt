-- ===== src/Instances/Sender.antt =====
-- The methods of JpcapSender.
use j_sdntrace.Base.{leb, if◌then◌else◌, ℕ, Bool, true, false, Option, none, some, List}
use j_sdntrace.Wire.{Region, slice, ◌>>=◌}
use j_sdntrace.Objects.{Body, ip_body, arp_body, other_body, Packet}
use j_sdntrace.Sender.{max_packet_size, set_packet, frame_of}
use j_sdntrace.Instances.{
  Native, Message, no_message, another_instance, no_device, pcap_error, another_sender, socket_open,
  socket_failed, non_ip, socket_closed, sendto_failed, update, allocate, handle,
}

-- The environment is stored before the test. The link type is left as it was.
unfoldable pub native_open_device : ℕ → ℕ → Bool → Option ℕ → Native → Message × Native
native_open_device id env device opened s =
    let s1 : Native = record s { jni_envs = update s.jni_envs id env } in
    elim (s.pcds id) [
      | some h ↦ (another_instance, s1)
      | none ↦
          if device
          then (elim opened [
            | none ↦ (pcap_error, s1)
            | some h ↦
                (no_message, record (allocate (some h) s1) { pcds = update s.pcds id (some h) })
          ])
          else (no_device, s1)
    ]

-- `made` is what `socket` returns.
unfoldable pub native_open_raw_socket : Option ℕ → Native → Message × Native
native_open_raw_socket made s = elim s.soc_num [
  | some n ↦ (socket_open, s)
  | none ↦ elim made [
    | none ↦ (socket_failed, s)
    | some n ↦ (no_message, record s { soc_num = some n })
  ]
]

-- `close(soc_num)`: nothing else changes. The result is the descriptor that is closed.
unfoldable pub native_close_raw_socket : Native → Option ℕ × Native
native_close_raw_socket s = (s.soc_num, s)

-- The bytes handed to `pcap_sendpacket`; `buf` is the stack buffer before, `sent` what pcap answers.
unfoldable pub native_send_packet :
    ℕ → Packet → Region → Bool → Native → Option (Message × Option (List ℕ))
native_send_packet id p buf sent s = elim (s.pcds id) [
  | none ↦ some (another_sender, none)
  | some h ↦ do
    bytes ← frame_of p buf
    live ← handle s id
    some (if sent then no_message else pcap_error, some bytes)
]

abbrev pub is_ip : Body → Bool
is_ip (ip_body p t) = true
is_ip (arp_body a) = false
is_ip other_body = false

-- The bytes handed to `sendto`, and the destination, read back from the buffer at `ip_dst`.
unfoldable pub native_send_packet_via_raw_socket :
    Packet → Region → Bool → Native → Option (Message × Option (List ℕ × List ℕ))
native_send_packet_via_raw_socket p buf sent s =
    let transmit = do
      (r, n) ← set_packet false p buf
      if leb n max_packet_size
          then some (if sent then no_message else sendto_failed, some (slice r 0 n, slice r 16 4))
          else none
    in if is_ip p.body
      then (elim s.soc_num [ none ↦ some (socket_closed, none) | some n ↦ transmit ])
      else some (non_ip, none)
