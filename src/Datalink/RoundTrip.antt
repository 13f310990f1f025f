-- ===== src/Datalink/RoundTrip.antt =====
-- The Ethernet header that the send path writes, as the capture path reads it.
use j_sdntrace.Base.{le→leb, length, ℕ, ◌%◌, ◌≤◌, ◌<◌, ◌≡◌, refl, ◌∙◌, inr, some, arith}
use j_sdntrace.Wire.{Region, le16, ntohs, put16, get_region, slice}
use j_sdntrace.Wire.Laws.{slice-get_region_whole, slice-get_region_off}
use j_sdntrace.Objects.{EthernetPacket, ethernet}
use j_sdntrace.Datalink.{ethernet_value, analyze_datalink, set_ether}

-- For an EthernetPacket with addresses of six bytes and a 16-bit frame type `set_ether` writes 14
-- bytes, from which `analyze_datalink` on an Ethernet link reads the addresses and the type back.
pub analyze_datalink-set_ether :
    (e : EthernetPacket) (r : Region) (size : ℕ)
    → length e.src_mac ≡ 6
    → length e.dst_mac ≡ 6
    → e.frametype < 65536
    → 14 ≤ size
    → ((set_ether (some (ethernet e)) r).0 ≡ 14)
      × (analyze_datalink (record { bytes = (set_ether (some (ethernet e)) r).1; size = size }) 1
          ≡ some (ethernet_value e.dst_mac e.src_mac e.frametype))
unfolding analyze_datalink set_ether
analyze_datalink-set_ether e r size hs hd hf captured =
    (refl, rw (le→leb 14 size captured) (cc (destination, source, frame)))
  where
    r1 : Region
    r1 = get_region e.src_mac 6 r 6

    r2 : Region
    r2 = get_region e.dst_mac 6 r1 0

    destination : slice r2 0 6 ≡ e.dst_mac
    destination = slice-get_region_whole e.dst_mac 6 r1 0 hd

    source : slice r2 6 6 ≡ e.src_mac
    source =
        slice-get_region_off e.dst_mac 6 r1 0 6 6 (inr (omega arith))
        ∙ slice-get_region_whole e.src_mac 6 r 6 hs

    frame : ntohs (le16 (put16 r2 12 (ntohs (e.frametype % 65536))) 12) ≡ e.frametype
    frame = omega arith
