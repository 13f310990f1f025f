-- ===== src/Tests/States.antt =====
-- The native state after concrete calls.
use j_sdntrace.Base.{ℕ, ◌≡◌, refl, true, false, none, some, [], ◌∷◌, arith}
use j_sdntrace.Instances.Devices.{inet, other_family, PcapAddr, PcapIf, System, get_device_list}
use j_sdntrace.Instances.DeviceList.{interface_of, get_device_list-all}
use j_sdntrace.Wire.{slice}
use j_sdntrace.Instances.{Native, no_message, handle, native_close}
use j_sdntrace.Instances.Captor.{native_open_live}
use j_sdntrace.Instances.Writer.{native_open_dump_file, writer_close, write_packet}
use j_sdntrace.Instances.Sound.{IsSoundState}
use j_sdntrace.Instances.Reach.{open_live, Reached, loaded, after, reached_handles}
use j_sdntrace.Instances.Dangling.{writer_close_dangling}
use j_sdntrace.Instances.Dump.{write_packet-get_packet}
use j_sdntrace.Tests.{zeros, host_a, mac_a}
use j_sdntrace.Tests.Captures.{captured, unknown_captured, unknown_captured_made}

-- The library as it is loaded, and then with the handle 100 for instance 0, and a dump file.
abbrev pub fresh : Native
fresh = record {
  pcds = λ i. none;
  linktypes = λ i. 0;
  netnums = λ i. 0;
  netmasks = λ i. 0;
  jni_envs = λ i. 0;
  jpcap_handlers = λ i. 0;
  pcdd = none;
  pdt = none;
  soc_num = none;
  live = λ h. false;
}

abbrev pub opened : Native
opened = (native_open_live 0 7 true (some 100) none 1 fresh).1

abbrev dumping : Native
dumping = record fresh { pdt = some 5 }

opened-Reached : Reached opened
opened-Reached = after (loaded (λ i. refl)) (open_live 0 7 true (some 100) none 1 (λ h e. refl))

reached_handles_example :
    ((id h : ℕ) → opened.pcds id ≡ some h → handle opened id ≡ some h)
    × ((i j h : ℕ) → opened.pcds i ≡ some h → opened.pcds j ≡ some h → i ≡ j)
    × ((id : ℕ)
        → (t : Native) × (native_close id opened ≡ some t) × IsSoundState t × (t.pcds id ≡ none))
reached_handles_example = reached_handles opened opened-Reached

pub opened_handle_found : opened.pcds 0 ≡ some 100
unfolding native_open_live
opened_handle_found = refl

pub opened_handle_live : opened.live 100 ≡ true
unfolding native_open_live
opened_handle_live = refl

writer_close_dangling_example :
    (s1 : Native) × (s2 : Native) × (native_open_dump_file 0 (some 5) opened
      ≡ some (no_message, s1))
    × (writer_close s1 ≡ some s2)
    × (s2.pcds 0 ≡ some 100)
    × (handle s2 0 ≡ none)
    × (native_close 0 s2 ≡ none)
writer_close_dangling_example =
    writer_close_dangling opened 0 100 5 opened_handle_found opened_handle_live

write_packet-get_packet_example :
    write_packet (captured 8) (some []) (some (slice zeros 0 8)) zeros dumping
    ≡ some (captured 8, slice zeros 0 8)
write_packet-get_packet_example =
    write_packet-get_packet (captured 8) zeros 113 0 5 unknown_captured (slice zeros 0 8) zeros
      dumping unknown_captured_made refl refl (omega arith) refl

abbrev address_a : PcapAddr
address_a = record { addr = some (inet host_a); netmask = none; broadaddr = none; dstaddr = none }

abbrev packet_address : PcapAddr
packet_address = record {
  addr = some other_family;
  netmask = none;
  broadaddr = none;
  dstaddr = none;
}

abbrev eth0 : PcapIf
eth0 = record {
  name = 101 ∷ 116 ∷ 104 ∷ 48 ∷ [];
  description = none;
  loopback = false;
  addresses = packet_address ∷ address_a ∷ [];
}

abbrev host : System
host = record { can_open = true; hwaddr = λ n. mac_a; datalink = λ n. some 1 }

get_device_list-all_example :
    get_device_list host (some (eth0 ∷ [])) ≡ some (some (interface_of host eth0) ∷ [])
get_device_list-all_example = get_device_list-all host (eth0 ∷ []) refl
