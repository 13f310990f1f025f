-- ===== src/JavaEnv/Methods.antt =====
-- The methods that the native code calls, as the Java classes declare them.
use j_sdntrace.Base.{none, some, [], ◌∷◌}
use j_sdntrace.JavaEnv.{
  jpcap_handler_class, packet_class, datalink_packet_class, ethernet_packet_class, ip_packet_class,
  tcp_packet_class, udp_packet_class, icmp_packet_class, ipv6_option_class, arp_packet_class,
  string_class, MethodId, handle_mid, set_packet_value_mid, set_datalink_packet_mid,
  set_packet_header_mid, set_packet_data_mid, set_ethernet_value_mid, set_ip_value_mid,
  set_ipv4_option_mid, set_ipv6_value_mid, add_ipv6_opt_hdr_mid, set_tcp_value_mid,
  set_tcp_option_mid, set_udp_value_mid, set_icmp_value_mid, set_icmp_id_mid,
  set_icmp_timestamp_mid, set_icmp_redirect_ip_mid, get_icmp_redirect_ip_mid,
  set_icmp_router_ad_mid, set_v6_opt_value_mid, set_v6_opt_option_mid, set_v6_opt_routing_mid,
  set_v6_opt_fragment_mid, set_v6_opt_ah_mid, get_source_address_mid, get_destination_address_mid,
  set_arp_value_mid,
}
use j_sdntrace.JavaEnv.Declared.{
  byte_type, short_type, int_type, long_type, boolean_type, object_type, array_type, Declaration,
  method,
}

abbrev pub java_handle : Declaration
java_handle = method jpcap_handler_class none "receivePacket" ((object_type packet_class) ∷ [])

abbrev pub java_set_packet_value : Declaration
java_set_packet_value =
    method packet_class none "setPacketValue" (long_type ∷ long_type ∷ int_type ∷ int_type ∷ [])

abbrev pub java_set_datalink_packet : Declaration
java_set_datalink_packet =
    method packet_class none "setDatalinkPacket" ((object_type datalink_packet_class) ∷ [])

abbrev pub java_set_packet_header : Declaration
java_set_packet_header = method packet_class none "setPacketHeader" ((array_type byte_type) ∷ [])

abbrev pub java_set_packet_data : Declaration
java_set_packet_data = method packet_class none "setPacketData" ((array_type byte_type) ∷ [])

abbrev pub java_set_ethernet_value : Declaration
java_set_ethernet_value =
    method ethernet_packet_class none "setValue"
      ((array_type byte_type) ∷ (array_type byte_type) ∷ short_type ∷ [])

abbrev pub java_set_ip_value : Declaration
java_set_ip_value = method ip_packet_class none "setIPv4Value" (
    byte_type
    ∷ byte_type
    ∷ boolean_type
    ∷ boolean_type
    ∷ boolean_type
    ∷ byte_type
    ∷ boolean_type
    ∷ boolean_type
    ∷ boolean_type
    ∷ short_type
    ∷ short_type
    ∷ short_type
    ∷ short_type
    ∷ short_type
    ∷ (array_type byte_type)
    ∷ (array_type byte_type)
    ∷ [])

abbrev pub java_set_ipv4_option : Declaration
java_set_ipv4_option = method ip_packet_class none "setOption" ((array_type byte_type) ∷ [])

abbrev pub java_set_ipv6_value : Declaration
java_set_ipv6_value = method ip_packet_class none "setIPv6Value" (
    byte_type
    ∷ byte_type
    ∷ int_type
    ∷ short_type
    ∷ byte_type
    ∷ short_type
    ∷ (array_type byte_type)
    ∷ (array_type byte_type)
    ∷ [])

abbrev pub java_add_ipv6_opt_hdr : Declaration
java_add_ipv6_opt_hdr =
    method ip_packet_class none "addOptionHeader" ((object_type ipv6_option_class) ∷ [])

abbrev pub java_set_tcp_value : Declaration
java_set_tcp_value = method tcp_packet_class none "setValue" (
    int_type ∷ int_type ∷ long_type ∷ long_type ∷ boolean_type ∷ boolean_type ∷ boolean_type
    ∷ boolean_type ∷ boolean_type ∷ boolean_type ∷ boolean_type ∷ boolean_type ∷ int_type
    ∷ short_type ∷ [])

abbrev pub java_set_tcp_option : Declaration
java_set_tcp_option = method tcp_packet_class none "setOption" ((array_type byte_type) ∷ [])

abbrev pub java_set_udp_value : Declaration
java_set_udp_value = method udp_packet_class none "setValue" (int_type ∷ int_type ∷ int_type ∷ [])

abbrev pub java_set_icmp_value : Declaration
java_set_icmp_value =
    method icmp_packet_class none "setValue"
      (byte_type ∷ byte_type ∷ short_type ∷ short_type ∷ short_type ∷ [])

abbrev pub java_set_icmp_id : Declaration
java_set_icmp_id = method icmp_packet_class none "setID" (short_type ∷ short_type ∷ [])

abbrev pub java_set_icmp_timestamp : Declaration
java_set_icmp_timestamp =
    method icmp_packet_class none "setTimestampValue" (int_type ∷ int_type ∷ int_type ∷ [])

abbrev pub java_set_icmp_redirect_ip : Declaration
java_set_icmp_redirect_ip =
    method icmp_packet_class none "setRedirectIP" ((array_type byte_type) ∷ [])

abbrev pub java_get_icmp_redirect_ip : Declaration
java_get_icmp_redirect_ip =
    method icmp_packet_class (some (array_type byte_type)) "getRedirectIP" []

abbrev pub java_set_icmp_router_ad : Declaration
java_set_icmp_router_ad = method icmp_packet_class none "setRouterAdValue" (
    byte_type
    ∷ byte_type
    ∷ short_type
    ∷ (array_type (object_type string_class))
    ∷ (array_type int_type)
    ∷ [])

abbrev pub java_set_v6_opt_value : Declaration
java_set_v6_opt_value =
    method ipv6_option_class none "setValue" (byte_type ∷ byte_type ∷ byte_type ∷ [])

abbrev pub java_set_v6_opt_option : Declaration
java_set_v6_opt_option = method ipv6_option_class none "setOptionData" ((array_type byte_type) ∷ [])

abbrev pub java_set_v6_opt_routing : Declaration
java_set_v6_opt_routing =
    method ipv6_option_class none "setRoutingOption"
      (byte_type ∷ byte_type ∷ (array_type (array_type byte_type)) ∷ [])

abbrev pub java_set_v6_opt_fragment : Declaration
java_set_v6_opt_fragment =
    method ipv6_option_class none "setFragmentOption" (short_type ∷ boolean_type ∷ int_type ∷ [])

abbrev pub java_set_v6_opt_ah : Declaration
java_set_v6_opt_ah = method ipv6_option_class none "setAHOption" (int_type ∷ int_type ∷ [])

abbrev pub java_get_source_address : Declaration
java_get_source_address = method ip_packet_class (some (array_type byte_type)) "getSourceAddress" []

abbrev pub java_get_destination_address : Declaration
java_get_destination_address =
    method ip_packet_class (some (array_type byte_type)) "getDestinationAddress" []

abbrev pub java_set_arp_value : Declaration
java_set_arp_value = method arp_packet_class none "setValue" (
    short_type
    ∷ short_type
    ∷ short_type
    ∷ short_type
    ∷ short_type
    ∷ (array_type byte_type)
    ∷ (array_type byte_type)
    ∷ (array_type byte_type)
    ∷ (array_type byte_type)
    ∷ [])

unfoldable pub declared : MethodId → Declaration
declared handle_mid = java_handle
declared set_packet_value_mid = java_set_packet_value
declared set_datalink_packet_mid = java_set_datalink_packet
declared set_packet_header_mid = java_set_packet_header
declared set_packet_data_mid = java_set_packet_data
declared set_ethernet_value_mid = java_set_ethernet_value
declared set_ip_value_mid = java_set_ip_value
declared set_ipv4_option_mid = java_set_ipv4_option
declared set_ipv6_value_mid = java_set_ipv6_value
declared add_ipv6_opt_hdr_mid = java_add_ipv6_opt_hdr
declared set_tcp_value_mid = java_set_tcp_value
declared set_tcp_option_mid = java_set_tcp_option
declared set_udp_value_mid = java_set_udp_value
declared set_icmp_value_mid = java_set_icmp_value
declared set_icmp_id_mid = java_set_icmp_id
declared set_icmp_timestamp_mid = java_set_icmp_timestamp
declared set_icmp_redirect_ip_mid = java_set_icmp_redirect_ip
declared get_icmp_redirect_ip_mid = java_get_icmp_redirect_ip
declared set_icmp_router_ad_mid = java_set_icmp_router_ad
declared set_v6_opt_value_mid = java_set_v6_opt_value
declared set_v6_opt_option_mid = java_set_v6_opt_option
declared set_v6_opt_routing_mid = java_set_v6_opt_routing
declared set_v6_opt_fragment_mid = java_set_v6_opt_fragment
declared set_v6_opt_ah_mid = java_set_v6_opt_ah
declared get_source_address_mid = java_get_source_address
declared get_destination_address_mid = java_get_destination_address
declared set_arp_value_mid = java_set_arp_value
