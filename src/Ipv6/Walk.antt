-- ===== src/Ipv6/Walk.antt =====
-- The loop over extension headers in `analyze_ipv6` against the layout of the headers in RFC 8200.
use j_sdntrace.Base.{
  le→leb, ℕ, zero, suc, ◌+◌, ◌*◌, ◌%◌, ◌≤◌, ◌<◌, ◌≡◌, refl, ap, ◌⊎◌, inl, inr, true, false, some,
  List, [], ◌∷◌, arith,
}
use j_sdntrace.Wire.{le16, le32, ntohs, ntohl, bit, slice, View, skip}
use j_sdntrace.Ipv6.{
  OptionData, option_data, fragment, Ipv6Option, ipv6_value, is_extension, offset_bits, extension,
  extensions, analyze_ipv6,
}

-- From a protocol and the bytes at a header: the protocol, the next protocol and the length byte of
-- each header in order, and the number of bytes that they take. Hop-by-hop and destination options
-- (0 and 60) take eight bytes more than eight times the length byte, a fragment header (44) eight.
pub data IsWalk : ℕ → View → List (ℕ × ℕ × ℕ) → ℕ → Type 0 where
  stop : {proto : ℕ} {v : View} → is_extension proto ≡ false → IsWalk proto v [] 0
  options :
      {proto total : ℕ} {v : View} {rest : List (ℕ × ℕ × ℕ)}
      → (proto ≡ 0) ⊎ (proto ≡ 60)
      → (v.bytes 1 + 1) * 8 ≤ v.size
      → IsWalk (v.bytes 0) (skip v ((v.bytes 1 + 1) * 8)) rest total
      → IsWalk proto v ((proto, v.bytes 0, v.bytes 1) ∷ rest) ((v.bytes 1 + 1) * 8 + total)
  fragmented :
      {proto total : ℕ} {v : View} {rest : List (ℕ × ℕ × ℕ)}
      → proto ≡ 44
      → 8 ≤ v.size
      → IsWalk (v.bytes 0) (skip v 8) rest total
      → IsWalk proto v ((proto, v.bytes 0, v.bytes 1) ∷ rest) (8 + total)

abbrev pub outlines : List Ipv6Option → List (ℕ × ℕ × ℕ)
outlines [] = []
outlines (x ∷ rest) = (x.proto, x.next, x.len) ∷ outlines rest

-- What the setters of a header are handed.
abbrev pub options_content : View → OptionData
options_content v = option_data (slice v.bytes 4 (v.bytes 1))

abbrev pub fragment_content : View → OptionData
fragment_content v =
    fragment (ntohs (offset_bits (le16 v.bytes 2))) (bit (le16 v.bytes 2) 8)
      (ntohl (le32 v.bytes 4))

extension-options :
    (proto : ℕ) (v : View)
    → (proto ≡ 0) ⊎ (proto ≡ 60)
    → (v.bytes 1 + 1) * 8 ≤ v.size
    → extension proto v ≡ some (options_content v, (v.bytes 1 + 1) * 8, (v.bytes 1 + 1) * 8)
unfolding extension
extension-options proto v (inl zero_proto) fits =
    rw (extension, zero_proto, le→leb (4 + v.bytes 1) v.size (omega arith)) refl
extension-options proto v (inr sixty) fits =
    rw (extension, sixty, le→leb (4 + v.bytes 1) v.size (omega arith)) refl

extension-fragment :
    (proto : ℕ) (v : View)
    → proto ≡ 44
    → 8 ≤ v.size
    → extension proto v ≡ some (fragment_content v, 8, 8)
unfolding extension
extension-fragment proto v is_fragment fits = rw (extension, is_fragment, le→leb 8 v.size fits) refl

-- One round, on a header that names an extension and that moves on by `n` bytes.
extensions-round :
    (fuel proto n hlen : ℕ) (v : View) (content : OptionData) (list : List Ipv6Option) (total : ℕ)
    → is_extension proto ≡ true
    → 2 ≤ v.size
    → extension proto v ≡ some (content, n, n)
    → extensions fuel (v.bytes 0) (skip v n) (hlen + n) ≡ some (list, total)
    → extensions (suc fuel) proto v hlen
      ≡ some (
        record { proto = proto; next = v.bytes 0; len = v.bytes 1; content = content } ∷ list,
        total,
      )
unfolding extensions
extensions-round fuel proto n hlen v content list total named fits one others =
    rw (extensions, named, le→leb 2 v.size fits, one, others) refl

-- On fuel above the number of captured bytes, where the captured bytes hold the headers of a walk: the
-- loop returns the options of exactly those headers, in order, and adds the bytes that they take.
pub extensions-walk :
    (fuel proto hlen : ℕ) (v : View) (headers : List (ℕ × ℕ × ℕ)) (total : ℕ)
    → v.size < fuel
    → IsWalk proto v headers total
    → (list : List Ipv6Option) × (extensions fuel proto v hlen ≡ some (list, hlen + total))
      × (outlines list ≡ headers)
unfolding extensions
extensions-walk zero proto hlen v headers total enough walk = absurd (omega arith)
extensions-walk (suc fuel) proto hlen v _ _ enough (stop ends) =
    let none_more : hlen ≡ hlen + 0 = omega arith in
    ([], rw (extensions, ends) (ap (λ k. some ([], k)) none_more), refl)
extensions-walk (suc fuel) proto hlen v _ _ enough
      (options {total = total} {rest = rest} named fits walk) =
    let n = (v.bytes 1 + 1) * 8 in
    let (list, found, same) =
      extensions-walk fuel (v.bytes 0) (hlen + n) (skip v n) rest total (omega arith) walk in
    let sum : hlen + n + total ≡ hlen + (n + total) = omega arith in
    (
      _,
      extensions-round fuel proto n hlen v (options_content v) list (hlen + (n + total))
          (ground (arith, named)) (omega arith) (extension-options proto v named fits)
          (rw sum at found),
      ap (◌∷◌ (proto, v.bytes 0, v.bytes 1)) same,
    )
extensions-walk (suc fuel) proto hlen v _ _ enough
      (fragmented {total = total} {rest = rest} named fits walk) =
    let (list, found, same) =
      extensions-walk fuel (v.bytes 0) (hlen + 8) (skip v 8) rest total (omega arith) walk in
    let sum : hlen + 8 + total ≡ hlen + (8 + total) = omega arith in
    (
      _,
      extensions-round fuel proto 8 hlen v (fragment_content v) list (hlen + (8 + total))
          (ground arith) (omega arith) (extension-fragment proto v named fits) (rw sum at found),
      ap (◌∷◌ (proto, v.bytes 0, v.bytes 1)) same,
    )

-- A captured IPv6 header, followed by the headers of a walk, which take `total` bytes: `analyze_ipv6`
-- returns the fields of the header, an option for each header of the walk, in order, with its protocol,
-- its next protocol and its length byte, and the number of bytes of all the headers.
pub analyze_ipv6-walk :
    (v : View) (headers : List (ℕ × ℕ × ℕ)) (total : ℕ)
    → 40 ≤ v.size
    → IsWalk (v.bytes 6) (skip v 40) headers total
    → 40 + total < 65536
    → (list : List Ipv6Option) × (analyze_ipv6 v ≡ some (ipv6_value v.bytes, list, 40 + total))
      × (outlines list ≡ headers)
unfolding analyze_ipv6
analyze_ipv6-walk v headers total fits walk small =
    let (list, found, same) =
      extensions-walk (suc v.size) (v.bytes 6) 40 (skip v 40) headers total (omega arith) walk in
    let whole : (40 + total) % 65536 ≡ 40 + total = omega arith in
    (list, rw (analyze_ipv6, le→leb 40 v.size fits, found, whole) refl, same)
