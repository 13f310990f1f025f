-- ===== src/Lib.antt =====
-- Jpcap, JpcapSource/jpcap-0.7, and the SDN trace application that uses it, src/traceapp and
-- TraceModule.java. Jpcap's native code captures a frame through libpcap and takes it apart into a Java
-- object (get_packet and the analyze_ functions), lays a packet out in a buffer (set_packet and the set_
-- functions), and keeps tables of capture handles, one for each Java instance, a dump file and a raw
-- socket. The trace client sends a probe through it; the controller answers each switch's copy of the
-- probe with a reply that has a hop number, and the client collects the replies through Jpcap and reports
-- the hops.
--
-- The parts, and the files that model them:
--   Wire: memory behind a C pointer as a function from offsets to bytes, on a little-endian host;
--     loads, stores, ntohs, ntohl, and the JNI calls that copy between memory and Java arrays. A read
--     past the captured bytes and a store past the buffer are `none`.
--   Cksum: in_cksum and in_cksum2 of JpcapSource/jpcap-0.7/src/c/JpcapSender.c.
--   Objects: the fields of the Java packet objects that the native code reads.
--   Datalink, Arp, Ip, Ipv6, Icmp, Tcp, Udp: packet_datalink.c, packet_arp.c, packet_ip.c,
--     packet_ipv6.c, packet_icmp.c, packet_tcp.c and packet_udp.c beside it. An analyze_ function
--     returns the values that the code hands to the Java setters, a set_ function the memory after its
--     stores.
--   Sender: set_packet of JpcapSender.c, and the frame that nativeSendPacket hands to libpcap.
--   Protocol and Capture: get_packet of JpcapCaptor.c, cut where the packet object is made.
--   Instances: the native methods of JpcapCaptor.c, JpcapSender.c and JpcapWriter.c over the global
--     tables pcds, linktypes, netmasks and jni_envs, with the handles that are allocated, and
--     getDeviceList.
--   Calls and Refine in Instances: sequences of calls, and the same calls on a table of handles.
--   JavaEnv: set_Java_env of JpcapCaptor.c, with the declarations in
--     JpcapSource/jpcap-0.7/src/java/jpcap of the methods it looks up, and the calls of them.
--   Client: the classes JpcapInstance, JpcapCaptor, JpcapSender and JpcapWriter of
--     JpcapSource/jpcap-0.7/src/java/jpcap, which give out the numbers of the instances and call the
--     native methods. `constructed` is a constructor with the native method that its caller goes on to
--     call.
--   Trace: the trace application, src/traceapp/src/main/java/core: the bytes of a trace packet
--     (TracePacket, SwitchInfo), in Controller the handlers of TraceAppController over the map of the
--     network and the hop counts, and in Receiver what TraceClient does with the replies that Jpcap hands
--     to it, up to the hops that it reports. Sent follows the packet of a probe through set_packet and
--     get_packet, Path a trace from the requests to the report.
--     Floodlight is TraceModule.java, up to what it hands to the controller.
--   Tests: concrete packets, frames and states.
--
-- Each function of the code is a function here, with its helpers under it: `set_tcp` is set_tcp,
-- `native_open_live` is Java_jpcap_JpcapCaptor_nativeOpenLive. Integers keep the width of the code: a
-- `short` is its 16 bits, with subtraction modulo 2 ^ 16 (`sub16`), a pointer difference is modulo 2 ^ 64.
-- A variable of get_packet that no branch sets is an argument, `junk`. The answers of libpcap, of the
-- socket calls and of the Java VM are arguments of the methods.
--
-- The loop over extension headers in get_packet runs on the fuel 4097: a round takes eight from
-- `clen`, a positive `short`, at least. That in analyze_ipv6 runs on one more than the number of captured
-- bytes: a round reads at the pointer and moves it on. IsRun in Ipv6/Chain is this loop as the code has it,
-- without fuel.
--
-- `clen` of get_packet is a `short`, which is negative from 32768 captured bytes on; what is said of whole
-- packets is for fewer. The states reached in Client and in Instances are those without JpcapWriter's close.
--
-- The length byte of a trace packet is read with its sign, so that a request is followed up to 31
-- characters of a switch's identifier, and a hop is a `byte`, so that a trace has at most 128 of them.
--
-- Not modelled: the branches for Windows and for big-endian hosts; the Java packet classes but for the
-- fields that the native code reads; the arguments and the debug text of TraceClient.main; the text file
-- of TraceAppController; of TraceModule.java the packets from and to OpenFlow, whose call of PacketIn is
-- not that of the TraceAppController here; the texts of error messages. Exceptions of the Java VM other
-- than those that the code throws are not followed, but for a copy with a length past the array's end,
-- which copies nothing.
pub mod Base
pub mod Wire
pub mod Cksum
pub mod Objects
pub mod Ip
pub mod Tcp
pub mod Udp
pub mod Datalink
pub mod Arp
pub mod Ipv6
pub mod Icmp
pub mod Sender
pub mod Protocol
pub mod Capture
pub mod Instances
pub mod JavaEnv
pub mod Client
pub mod Trace
pub mod Tests
