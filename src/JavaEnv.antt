-- ===== src/JavaEnv.antt =====
-- set_Java_env of JpcapCaptor.c: the classes, the methods and the field that the native code looks up
-- in the Java VM. What the VM answers is an argument.
pub mod Declared
pub mod Methods
pub mod Passed
pub mod Lookup
pub mod Stale
use Prim.Native.String.{String}
use j_sdntrace.Base.{if◌then◌else◌, ℕ, Bool, true, false, Option, none, some, List, [], ◌∷◌}
use j_sdntrace.Wire.{◌>>=◌}

-- The globals for classes and for methods.
pub data JavaClass : Type 0 where
  jpcap_class : JavaClass
  jpcap_handler_class : JavaClass
  packet_class : JavaClass
  datalink_packet_class : JavaClass
  ethernet_packet_class : JavaClass
  ip_packet_class : JavaClass
  tcp_packet_class : JavaClass
  udp_packet_class : JavaClass
  icmp_packet_class : JavaClass
  ipv6_option_class : JavaClass
  arp_packet_class : JavaClass
  string_class : JavaClass
  thread_class : JavaClass
  unknown_host_exception_class : JavaClass
  io_exception_class : JavaClass

pub data MethodId : Type 0 where
  handle_mid : MethodId
  set_packet_value_mid : MethodId
  set_datalink_packet_mid : MethodId
  set_packet_header_mid : MethodId
  set_packet_data_mid : MethodId
  set_ethernet_value_mid : MethodId
  set_ip_value_mid : MethodId
  set_ipv4_option_mid : MethodId
  set_ipv6_value_mid : MethodId
  add_ipv6_opt_hdr_mid : MethodId
  set_tcp_value_mid : MethodId
  set_tcp_option_mid : MethodId
  set_udp_value_mid : MethodId
  set_icmp_value_mid : MethodId
  set_icmp_id_mid : MethodId
  set_icmp_timestamp_mid : MethodId
  set_icmp_redirect_ip_mid : MethodId
  get_icmp_redirect_ip_mid : MethodId
  set_icmp_router_ad_mid : MethodId
  set_v6_opt_value_mid : MethodId
  set_v6_opt_option_mid : MethodId
  set_v6_opt_routing_mid : MethodId
  set_v6_opt_fragment_mid : MethodId
  set_v6_opt_ah_mid : MethodId
  get_source_address_mid : MethodId
  get_destination_address_mid : MethodId
  set_arp_value_mid : MethodId

-- The texts that `FindClass` is given.
abbrev pub class_text : JavaClass → String
class_text jpcap_class = "jpcap/JpcapCaptor"
class_text jpcap_handler_class = "jpcap/PacketReceiver"
class_text packet_class = "jpcap/packet/Packet"
class_text datalink_packet_class = "jpcap/packet/DatalinkPacket"
class_text ethernet_packet_class = "jpcap/packet/EthernetPacket"
class_text ip_packet_class = "jpcap/packet/IPPacket"
class_text tcp_packet_class = "jpcap/packet/TCPPacket"
class_text udp_packet_class = "jpcap/packet/UDPPacket"
class_text icmp_packet_class = "jpcap/packet/ICMPPacket"
class_text ipv6_option_class = "jpcap/packet/IPv6Option"
class_text arp_packet_class = "jpcap/packet/ARPPacket"
class_text string_class = "java/lang/String"
class_text thread_class = "java/lang/Thread"
class_text unknown_host_exception_class = "java/net/UnknownHostException"
class_text io_exception_class = "java/io/IOException"

-- The class, the name and the signature that `GetMethodID` is given.
unfoldable pub method_text : MethodId → JavaClass × String × String
method_text handle_mid = (jpcap_handler_class, "receivePacket", "(Ljpcap/packet/Packet;)V")
method_text set_packet_value_mid = (packet_class, "setPacketValue", "(JJII)V")
method_text set_datalink_packet_mid =
    (packet_class, "setDatalinkPacket", "(Ljpcap/packet/DatalinkPacket;)V")
method_text set_packet_header_mid = (packet_class, "setPacketHeader", "([B)V")
method_text set_packet_data_mid = (packet_class, "setPacketData", "([B)V")
method_text set_ethernet_value_mid = (ethernet_packet_class, "setValue", "([B[BS)V")
method_text set_ip_value_mid = (ip_packet_class, "setIPv4Value", "(BBZZZBZZZSSSSS[B[B)V")
method_text set_ipv4_option_mid = (ip_packet_class, "setOption", "([B)V")
method_text set_ipv6_value_mid = (ip_packet_class, "setIPv6Value", "(BBISBS[B[B)V")
method_text add_ipv6_opt_hdr_mid =
    (ip_packet_class, "addOptionHeader", "(Ljpcap/packet/IPv6Option;)V")
method_text set_tcp_value_mid = (tcp_packet_class, "setValue", "(IIJJZZZZZZZZIS)V")
method_text set_tcp_option_mid = (tcp_packet_class, "setOption", "([B)V")
method_text set_udp_value_mid = (udp_packet_class, "setValue", "(III)V")
method_text set_icmp_value_mid = (icmp_packet_class, "setValue", "(BBSSS)V")
method_text set_icmp_id_mid = (icmp_packet_class, "setID", "(SS)V")
method_text set_icmp_timestamp_mid = (icmp_packet_class, "setTimestampValue", "(III)V")
method_text set_icmp_redirect_ip_mid = (icmp_packet_class, "setRedirectIP", "([B)V")
method_text get_icmp_redirect_ip_mid = (icmp_packet_class, "getRedirectIP", "()[B")
method_text set_icmp_router_ad_mid =
    (icmp_packet_class, "setRouterAdValue", "(BBS[Ljava/lang/String;[I)V")
method_text set_v6_opt_value_mid = (ipv6_option_class, "setValue", "(BBB)V")
method_text set_v6_opt_option_mid = (ipv6_option_class, "setOptionData", "([B)V")
method_text set_v6_opt_routing_mid = (ipv6_option_class, "setRoutingOption", "(BB[[B)V")
method_text set_v6_opt_fragment_mid = (ipv6_option_class, "setFragmentOption", "(SZI)V")
method_text set_v6_opt_ah_mid = (ipv6_option_class, "setAHOption", "(II)V")
method_text get_source_address_mid = (ip_packet_class, "getSourceAddress", "()[B")
method_text get_destination_address_mid = (ip_packet_class, "getDestinationAddress", "()[B")
method_text set_arp_value_mid = (arp_packet_class, "setValue", "(SSSSS[B[B[B[B)V")

-- `FindClass`, `GetMethodID` and `GetFieldID`: NULL, with an exception pending, is `none`.
pub record JavaVm : Type 0 where
  pub find_class : String → Option ℕ
  pub get_method_id : ℕ → String → String → Option ℕ
  pub get_field_id : ℕ → String → String → Option ℕ

pub record JavaEnv : Type 0 where
  pub classes : JavaClass → Option ℕ
  pub methods : MethodId → Option ℕ
  pub jpcap_id : Option ℕ

-- The classes, in the order in which they are looked up.
abbrev pub all_classes : List JavaClass
all_classes =
    jpcap_class ∷ jpcap_handler_class ∷ packet_class ∷ datalink_packet_class ∷ ethernet_packet_class
    ∷ ip_packet_class ∷ tcp_packet_class ∷ udp_packet_class ∷ icmp_packet_class ∷ ipv6_option_class
    ∷ arp_packet_class ∷ string_class ∷ thread_class ∷ unknown_host_exception_class
    ∷ io_exception_class ∷ []

-- Whether an exception is pending once the classes have been looked up.
abbrev pub any_missing : (JavaClass → Option ℕ) → List JavaClass → Bool
any_missing classes [] = false
any_missing classes (c ∷ rest) = elim (classes c) [
  | none ↦ true
  | some r ↦ any_missing classes rest
]

abbrev pub found_method : JavaVm → (JavaClass → Option ℕ) → MethodId → Option ℕ
found_method vm classes m = do
  c ← classes (method_text m).0
  vm.get_method_id c (method_text m).1 (method_text m).2

unfoldable pub set_java_env : JavaVm → JavaEnv → JavaEnv
set_java_env vm s = elim (s.classes jpcap_class) [
  | some r ↦ s
  | none ↦
      let found : JavaClass → Option ℕ = λ c. vm.find_class (class_text c) in
      if any_missing found all_classes then record s { classes = found } else record {
        classes = found;
        methods = found_method vm found;
        jpcap_id = found jpcap_class >>= λ c. vm.get_field_id c "ID" "I";
      }
]
