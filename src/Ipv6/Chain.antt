-- ===== src/Ipv6/Chain.antt =====
-- The loop over extension headers in `analyze_ipv6`, and its fuel.
use j_sdntrace.Base.{
  leb, leb→le, Bool-cases, Option-cases, ℕ, zero, suc, ◌+◌, ◌*◌, ◌≤◌, ◌<◌, ◌≡◌, refl, inl, inr,
  true, false, Option, none, some, List, [], ◌∷◌, arith,
}
use j_sdntrace.Wire.{View, skip, ◌>>=◌}
use j_sdntrace.Ipv6.{OptionData, Ipv6Option, is_extension, extension, extensions}

-- Every extension header moves `data` on.
extension-moves :
    (proto : ℕ) (v : View) (x : OptionData × ℕ × ℕ) → extension proto v ≡ some x → 8 ≤ x.1
unfolding extension
extension-moves proto v x e = ground arith

-- The header in the list of a finished run, before those of the headers behind it.
abbrev pub listed :
    ℕ → View → OptionData → Option (List Ipv6Option × ℕ) → Option (List Ipv6Option × ℕ)
listed proto v content none = none
listed proto v content (some (rest, total)) =
    some
      (record { proto = proto; next = v.bytes 0; len = v.bytes 1; content = content } ∷ rest, total)

-- The `while` loop as the code writes it, without fuel: a finite run of a number of rounds, and its
-- result, which is `none` where a round reads past the captured bytes.
pub data IsRun : ℕ → ℕ → View → ℕ → Option (List Ipv6Option × ℕ) → Type 0 where
  ended :
      {proto hlen : ℕ} {v : View}
      → is_extension proto ≡ false
      → IsRun 0 proto v hlen (some ([], hlen))
  past_header :
      {proto hlen : ℕ} {v : View}
      → is_extension proto ≡ true
      → v.size < 2
      → IsRun 0 proto v hlen none
  past_content :
      {proto hlen : ℕ} {v : View}
      → is_extension proto ≡ true
      → extension proto v ≡ none
      → IsRun 0 proto v hlen none
  one_round :
      {n proto hlen moved grown : ℕ} {v : View} {content : OptionData}
      {result : Option (List Ipv6Option × ℕ)}
      → is_extension proto ≡ true
      → 2 ≤ v.size
      → extension proto v ≡ some (content, moved, grown)
      → IsRun n (v.bytes 0) (skip v moved) (hlen + grown) result
      → IsRun (suc n) proto v hlen (listed proto v content result)

listed-bind :
    (proto : ℕ) (v : View) (content : OptionData) (result : Option (List Ipv6Option × ℕ))
    → (do
      (rest, total) ← result
      some (
        record { proto = proto; next = v.bytes 0; len = v.bytes 1; content = content } ∷ rest,
        total,
      ))
      ≡ listed proto v content result
listed-bind proto v content none = refl
listed-bind proto v content (some (rest, total)) = refl

abbrev IsFinished : ℕ → ℕ → View → ℕ → Type 0
IsFinished fuel proto v hlen =
    (n : ℕ) × (result : Option (List Ipv6Option × ℕ)) × IsRun n proto v hlen result
    × (8 * n ≤ v.size + 6)
    × (extensions fuel proto v hlen ≡ result)

pub extensions-IsRun :
    (fuel proto : ℕ) (v : View) (hlen : ℕ) → v.size < fuel → IsFinished fuel proto v hlen
unfolding extensions
extensions-IsRun zero proto v hlen enough = absurd (omega arith)
extensions-IsRun (suc fuel) proto v hlen enough = elim (Bool-cases (is_extension proto)) [
  | inr stop ↦ (0, some ([], hlen), ended stop, omega arith, rw (extensions, stop) refl)
  | inl go ↦ elim (Bool-cases (leb 2 v.size)) [
    | inr past ↦
        (0, none, past_header go (ground arith), omega arith, rw (extensions, go, past) refl)
    | inl captured ↦ elim (Option-cases (extension proto v)) [
      | inl cut ↦
          (0, none, past_content go cut, omega arith, rw (extensions, go, captured, cut) refl)
      | inr ((content, moved, grown), found) ↦
          let on = extension-moves proto v (content, moved, grown) found in
          let some_bytes = leb→le 2 v.size captured in
          let (n, result, run, few, same) =
            extensions-IsRun fuel (v.bytes 0) (skip v moved) (hlen + grown) (omega arith) in
          (
            suc n,
            listed proto v content result,
            one_round go some_bytes found run,
            omega (arith, few, on, some_bytes),
            rw (extensions, go, captured, found, same) (listed-bind proto v content result),
          )
    ]
  ]
]
