-- ===== src/Client/Reserve.antt =====
-- The number that reserveID of JpcapInstance gives out.
use mathlib.Core.Path.{subst}
use j_sdntrace.Base.{
  Bool-cases, ℕ, zero, suc, ◌+◌, ◌≤◌, ◌<◌, ◌≡◌, refl, ◌⊎◌, inl, inr, Bool, true, false, none, some,
  arith,
}
use j_sdntrace.Instances.{update}
use j_sdntrace.Client.{Client, max_instances, first_free, reserve_id}

-- No flag of the `n` from `i` on is clear.
abbrev pub IsFull : ℕ → ℕ → (ℕ → Bool) → Type 0
IsFull n i flags = (j : ℕ) → i ≤ j → j < i + n → flags j ≡ true

-- The first clear flag of the `n` from `i` on.
abbrev pub IsFirst : ℕ → ℕ → (ℕ → Bool) → ℕ → Type 0
IsFirst n i flags k =
    (flags k ≡ false) × (i ≤ k) × (k < i + n) × ((j : ℕ) → i ≤ j → j < k → flags j ≡ true)

pub first_free_lem :
    (n i : ℕ) (flags : ℕ → Bool)
    → ((first_free n i flags ≡ none) × IsFull n i flags)
      ⊎ ((k : ℕ) × (first_free n i flags ≡ some k) × IsFirst n i flags k)
unfolding first_free
first_free_lem zero i flags = inl (refl, λ j low high. absurd (omega arith))
first_free_lem (suc n) i flags = elim (Bool-cases (flags i)) [
  | inr free ↦
      inr (i, rw free refl, (free, omega arith, omega arith, λ j low high. absurd (omega arith)))
  | inl used ↦ elim (first_free_lem n (i + 1) flags) [
    | inl (none_left, full) ↦
        inl (rw (used, none_left) refl, λ j low high. ground (arith, used, full j))
    | inr (k, found, first) ↦ inr (
      k,
      rw (used, found) refl,
      (
        first.0,
        omega (arith, first.1),
        omega (arith, first.2),
        λ j from below. ground (arith, used, first.3 j),
      ),
    )
  ]
]

-- The number of the first clear flag, and that flag is set and no other changed.
abbrev pub IsReserved : Client → ℕ → Client → Type 0
IsReserved s k s' =
    IsFirst max_instances 0 s.flags k × (s'.flags ≡ update s.flags k true) × (s'.native ≡ s.native)

pub reserve_id_lem :
    (s : Client)
    → ((reserve_id s ≡ none) × IsFull max_instances 0 s.flags)
      ⊎ ((k : ℕ) × (s' : Client) × (reserve_id s ≡ some (k, s')) × IsReserved s k s')
unfolding reserve_id
reserve_id_lem s = elim (first_free_lem max_instances 0 s.flags) [
  | inl (failed_all, full) ↦ inl (rw failed_all refl, full)
  | inr (k, found, first) ↦
      inr (k, record s { flags = update s.flags k true }, rw found refl, (first, refl, refl))
]

-- Where the lowest clear flag is known.
pub reserve_id-lowest :
    (s : Client) (id : ℕ)
    → s.flags id ≡ false
    → id < max_instances
    → ((j : ℕ) → j < id → s.flags j ≡ true)
    → (s' : Client) × (reserve_id s ≡ some (id, s')) × IsReserved s id s'
reserve_id-lowest s id clear within lower = elim (reserve_id_lem s) [
  | inl (refused, full) ↦ absurd (ground (arith, clear, full id))
  | inr (k, s', given, reserved) ↦
      let first = reserved.0 in
      let same : k ≡ id = ground (arith, clear, first.0, first.3 id, lower k) in
      (s', rw same at given, subst (λ i. IsReserved s i s') same reserved)
]
