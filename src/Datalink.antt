-- ===== src/Datalink.antt =====
-- packet_datalink.c: the Ethernet header.
pub mod RoundTrip
use j_sdntrace.Base.{◌==◌, if◌then◌else◌, ℕ, ◌%◌, Option, none, some, List}
use j_sdntrace.Wire.{Region, le16, ntohs, put16, get_region, slice, View, within}
use j_sdntrace.Objects.{Datalink, plain, ethernet}

-- The object that `analyze_datalink` returns, with the arguments of `setValue`.
pub data DatalinkValue : Type 0 where
  datalink_value : DatalinkValue
  ethernet_value : List ℕ → List ℕ → ℕ → DatalinkValue

-- DLT_EN10MB is 1.
unfoldable pub analyze_datalink : View → ℕ → Option DatalinkValue
analyze_datalink v linktype =
    if linktype == 1
    then within v 14
        (some (ethernet_value (slice v.bytes 0 6) (slice v.bytes 6 6) (ntohs (le16 v.bytes 12))))
    else some datalink_value

-- The number of bytes of the header, and the memory.
unfoldable pub set_ether : Option Datalink → Region → ℕ × Region
set_ether none r = (0, r)
set_ether (some plain) r = (0, r)
set_ether (some (ethernet e)) r =
    let r1 = get_region e.dst_mac 6 (get_region e.src_mac 6 r 6) 0 in
    (14, put16 r1 12 (ntohs (e.frametype % 65536)))
