-- ===== src/Arp.antt =====
-- packet_arp.c: ARP, with the lengths of the addresses as the header says on capturing, and at the
-- places of `struct ether_arp` on sending.
pub mod RoundTrip
use j_sdntrace.Base.{ℕ, ◌+◌, ◌*◌, ◌%◌, Option, some, List}
use j_sdntrace.Wire.{Region, le16, ntohs, poke, put16, copy_region, View, within, new_array, ◌>>=◌}
use j_sdntrace.Objects.{ArpPacket}

-- The arguments of `setValue`.
pub record ArpValue : Type 0 where
  pub hrd : ℕ
  pub pro : ℕ
  pub hl : ℕ
  pub pl : ℕ
  pub op : ℕ
  pub sha : List ℕ
  pub spa : List ℕ
  pub tha : List ℕ
  pub tpa : List ℕ

-- `sizeof(struct arphdr)` is 8.
unfoldable pub analyze_arp : View → Option (ArpValue × ℕ)
analyze_arp v = within v 8 (do
  let hl = v.bytes 4
  let pl = v.bytes 5
  sha ← new_array v 8 hl
  spa ← new_array v (8 + hl) pl
  tha ← new_array v (8 + hl + pl) hl
  tpa ← new_array v (8 + hl + pl + hl) pl
  some (
    record {
      hrd = ntohs (le16 v.bytes 0);
      pro = ntohs (le16 v.bytes 2);
      hl = hl;
      pl = pl;
      op = ntohs (le16 v.bytes 6);
      sha = sha;
      spa = spa;
      tha = tha;
      tpa = tpa;
    },
    8 + hl * 2 + pl * 2,
  ))

abbrev pub arp_header : ArpPacket → Region → Region
arp_header p r =
    let r1 = put16 (put16 r 0 (ntohs (p.hardtype % 65536))) 2 (ntohs (p.prototype % 65536)) in
    poke (poke (put16 r1 6 (ntohs (p.operation % 65536))) 4 (p.hlen % 256)) 5 (p.plen % 256)

-- The result is `sizeof(struct ether_arp)`, 28.
unfoldable pub set_arp : ArpPacket → ℕ → Region → Option (Region × ℕ)
set_arp p room r = do
  let hl = p.hlen % 256
  let pl = p.plen % 256
  r1 ← copy_region room p.sender_hardaddr hl (arp_header p r) 8
  r2 ← copy_region room p.sender_protoaddr pl r1 14
  r3 ← copy_region room p.target_hardaddr hl r2 18
  r4 ← copy_region room p.target_protoaddr pl r3 24
  some (r4, 28)
