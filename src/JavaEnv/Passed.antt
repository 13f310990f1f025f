-- ===== src/JavaEnv/Passed.antt =====
-- The arguments of the calls in the C files, and what the VM reads.
use j_sdntrace.Base.{List, [], ◌∷◌}
use j_sdntrace.JavaEnv.{
  MethodId, handle_mid, set_packet_value_mid, set_datalink_packet_mid, set_packet_header_mid,
  set_packet_data_mid, set_ethernet_value_mid, set_ip_value_mid, set_ipv4_option_mid,
  set_ipv6_value_mid, add_ipv6_opt_hdr_mid, set_tcp_value_mid, set_tcp_option_mid,
  set_udp_value_mid, set_icmp_value_mid, set_icmp_id_mid, set_icmp_timestamp_mid,
  set_icmp_redirect_ip_mid, get_icmp_redirect_ip_mid, set_icmp_router_ad_mid, set_v6_opt_value_mid,
  set_v6_opt_option_mid, set_v6_opt_routing_mid, set_v6_opt_fragment_mid, set_v6_opt_ah_mid,
  get_source_address_mid, get_destination_address_mid, set_arp_value_mid,
}
use j_sdntrace.JavaEnv.Declared.{
  JavaType, byte_type, short_type, int_type, long_type, boolean_type, object_type, array_type,
}

-- What a variadic call passes: integers of at most 32 bits as an `int`, a `jlong`, or a reference.
pub data CArgument : Type 0 where
  int_arg long_arg ref_arg : CArgument

abbrev pub read_as : JavaType → CArgument
read_as byte_type = int_arg
read_as short_type = int_arg
read_as int_type = int_arg
read_as long_type = long_arg
read_as boolean_type = int_arg
read_as (object_type c) = ref_arg
read_as (array_type t) = ref_arg

-- What the VM reads for the parameters.
abbrev pub read_all : List JavaType → List CArgument
read_all [] = []
read_all (t ∷ rest) = read_as t ∷ read_all rest

-- The arguments of each call, behind the method.
abbrev pub set_packet_value_passed : List CArgument
set_packet_value_passed = long_arg ∷ long_arg ∷ int_arg ∷ int_arg ∷ []

abbrev pub set_ethernet_value_passed : List CArgument
set_ethernet_value_passed = ref_arg ∷ ref_arg ∷ int_arg ∷ []

abbrev pub set_ip_value_passed : List CArgument
set_ip_value_passed =
    int_arg ∷ int_arg ∷ int_arg ∷ int_arg ∷ int_arg ∷ int_arg ∷ int_arg ∷ int_arg ∷ int_arg
    ∷ int_arg ∷ int_arg ∷ int_arg ∷ int_arg ∷ int_arg ∷ ref_arg ∷ ref_arg ∷ []

abbrev pub set_ipv6_value_passed : List CArgument
set_ipv6_value_passed =
    int_arg ∷ int_arg ∷ int_arg ∷ int_arg ∷ int_arg ∷ int_arg ∷ ref_arg ∷ ref_arg ∷ []

abbrev pub set_tcp_value_passed : List CArgument
set_tcp_value_passed =
    int_arg ∷ int_arg ∷ long_arg ∷ long_arg ∷ int_arg ∷ int_arg ∷ int_arg ∷ int_arg ∷ int_arg
    ∷ int_arg ∷ int_arg ∷ int_arg ∷ int_arg ∷ int_arg ∷ []

abbrev pub set_udp_value_passed : List CArgument
set_udp_value_passed = int_arg ∷ int_arg ∷ int_arg ∷ []

abbrev pub set_icmp_value_passed : List CArgument
set_icmp_value_passed = int_arg ∷ int_arg ∷ int_arg ∷ []

abbrev pub set_icmp_id_passed : List CArgument
set_icmp_id_passed = int_arg ∷ int_arg ∷ []

abbrev pub set_icmp_timestamp_passed : List CArgument
set_icmp_timestamp_passed = int_arg ∷ int_arg ∷ int_arg ∷ []

abbrev pub set_icmp_router_ad_passed : List CArgument
set_icmp_router_ad_passed = int_arg ∷ int_arg ∷ int_arg ∷ ref_arg ∷ ref_arg ∷ []

abbrev pub set_v6_opt_value_passed : List CArgument
set_v6_opt_value_passed = int_arg ∷ int_arg ∷ int_arg ∷ []

abbrev pub set_v6_opt_routing_passed : List CArgument
set_v6_opt_routing_passed = int_arg ∷ int_arg ∷ ref_arg ∷ []

abbrev pub set_v6_opt_fragment_passed : List CArgument
set_v6_opt_fragment_passed = int_arg ∷ int_arg ∷ int_arg ∷ []

abbrev pub set_v6_opt_ah_passed : List CArgument
set_v6_opt_ah_passed = int_arg ∷ int_arg ∷ []

abbrev pub set_arp_value_passed : List CArgument
set_arp_value_passed =
    int_arg ∷ int_arg ∷ int_arg ∷ int_arg ∷ int_arg ∷ ref_arg ∷ ref_arg ∷ ref_arg ∷ ref_arg ∷ []

unfoldable pub passed : MethodId → List CArgument
passed handle_mid = ref_arg ∷ []
passed set_packet_value_mid = set_packet_value_passed
passed set_datalink_packet_mid = ref_arg ∷ []
passed set_packet_header_mid = ref_arg ∷ []
passed set_packet_data_mid = ref_arg ∷ []
passed set_ethernet_value_mid = set_ethernet_value_passed
passed set_ip_value_mid = set_ip_value_passed
passed set_ipv4_option_mid = ref_arg ∷ []
passed set_ipv6_value_mid = set_ipv6_value_passed
passed add_ipv6_opt_hdr_mid = ref_arg ∷ []
passed set_tcp_value_mid = set_tcp_value_passed
passed set_tcp_option_mid = ref_arg ∷ []
passed set_udp_value_mid = set_udp_value_passed
passed set_icmp_value_mid = set_icmp_value_passed
passed set_icmp_id_mid = set_icmp_id_passed
passed set_icmp_timestamp_mid = set_icmp_timestamp_passed
passed set_icmp_redirect_ip_mid = ref_arg ∷ []
passed get_icmp_redirect_ip_mid = []
passed set_icmp_router_ad_mid = set_icmp_router_ad_passed
passed set_v6_opt_value_mid = set_v6_opt_value_passed
passed set_v6_opt_option_mid = ref_arg ∷ []
passed set_v6_opt_routing_mid = set_v6_opt_routing_passed
passed set_v6_opt_fragment_mid = set_v6_opt_fragment_passed
passed set_v6_opt_ah_mid = set_v6_opt_ah_passed
passed get_source_address_mid = []
passed get_destination_address_mid = []
passed set_arp_value_mid = set_arp_value_passed
