-- ===== src/Client/Keep.antt =====
-- What the classes' calls keep of the flags and the table.
use mathlib.Core.Path.{subst}
use j_sdntrace.Base.{
  ltb, ◌==◌, Bool-cases, ℕ, ◌<◌, ◌≡◌, refl, ◌≢◌, inl, inr, Bool, true, Option, none, some, arith,
}
use j_sdntrace.Instances.{Native, Message}
use j_sdntrace.Instances.Captor.{native_open_live, native_open_offline}
use j_sdntrace.Instances.Sender.{native_open_device, native_close_raw_socket}
use j_sdntrace.Instances.Sound.{
  IsSoundState, close-IsSound, native_close-closed, native_close-others,
}
use j_sdntrace.Client.{
  Client, max_instances, raw_socket_id, Thrown, out_of_bounds, unreserve_id, constructed,
  captor_close, sender_close,
}
use j_sdntrace.Client.Reserve.{reserve_id_lem}

-- Every open entry of the table has a number that the classes have given out.
abbrev pub IsFlagged : Client → Type 0
IsFlagged s = (i h : ℕ) → s.native.pcds i ≡ some h → (s.flags i ≡ true) × (i < max_instances)

abbrev pub IsGood : Client → Type 0
IsGood s = IsSoundState s.native × IsFlagged s

-- The native methods that open leave the other entries of the table.
pub open_live-others :
    (id env : ℕ) (device : Bool) (opened : Option ℕ) (net : Option (ℕ × ℕ)) (linktype : ℕ)
    (s : Native) (j : ℕ)
    → j ≢ id
    → (native_open_live id env device opened net linktype s).1.pcds j ≡ s.pcds j
unfolding native_open_live
open_live-others id env device opened net linktype s j other = ground arith

pub open_offline-others :
    (id env : ℕ) (opened : Option ℕ) (linktype : ℕ) (s : Native) (j : ℕ)
    → j ≢ id
    → (native_open_offline id env opened linktype s).1.pcds j ≡ s.pcds j
unfolding native_open_offline
open_offline-others id env opened linktype s j other = ground arith

pub open_device-others :
    (id env : ℕ) (device : Bool) (opened : Option ℕ) (s : Native) (j : ℕ)
    → j ≢ id
    → (native_open_device id env device opened s).1.pcds j ≡ s.pcds j
unfolding native_open_device
open_device-others id env device opened s j other = ground arith

-- A constructor with a native method that keeps the handles sound and changes one entry only.
abbrev IsOpening : (ℕ → Native → Message × Native) → Native → Type 0
IsOpening open_native s =
    (id : ℕ)
    → IsSoundState (open_native id s).1
      × ((j : ℕ) → j ≢ id → (open_native id s).1.pcds j ≡ s.pcds j)

pub constructed-IsGood :
    (open_native : ℕ → Native → Message × Native) (s : Client)
    → IsGood s
    → IsOpening open_native s.native
    → IsGood (constructed open_native s).1
constructed-IsGood open_native s good opening = elim (reserve_id_lem s) [
  | inl (refused, full) ↦ rw (constructed, refused) good
  | inr (k, s', given, (first, flags, native)) ↦
      rw (constructed, given, native)
        ((opening k).0, λ i h e. rw flags (ground (arith, first.2, good.1 i h, (opening k).1 i)))
]

unreserve_id_lem :
    (id : ℕ) (s : Client)
    → ((unreserve_id id s).1.native ≡ s.native)
      × ((j : ℕ) → j ≢ id → (unreserve_id id s).1.flags j ≡ s.flags j)
unfolding unreserve_id
unreserve_id_lem id s = elim (Bool-cases (ltb id max_instances)) [
  | inl within ↦ rw within (refl, λ j other. ground arith)
  | inr past ↦ rw past (refl, λ j other. refl)
]

-- A number is taken back once its entry of the table is empty.
unreserve_id-IsGood :
    (id : ℕ) (s : Client) (n : Native)
    → IsFlagged s
    → IsSoundState n
    → n.pcds id ≡ none
    → ((j : ℕ) → j ≢ id → n.pcds j ≡ s.native.pcds j)
    → IsGood (unreserve_id id (record s { native = n })).1
unreserve_id-IsGood id s n flagged sound closed others =
    let (native, flags) = unreserve_id_lem id (record s { native = n }) in
    rw native (sound, λ i h e. ground (arith, closed, others i, flags i, flagged i h, e))

pub captor_close-IsGood :
    (id : ℕ) (t : Option Thrown) (s s' : Client)
    → IsGood s
    → captor_close id s ≡ some (t, s')
    → IsGood s'
unfolding captor_close
captor_close-IsGood id t s s' good e =
    let (n, found, sound) = close-IsSound id s.native good.0 in
    let result : some (unreserve_id id (record s { native = n })) ≡ some (t, s') =
      rw (captor_close, found) at e in
    let same : (unreserve_id id (record s { native = n })).1 ≡ s' = cc result in
    subst IsGood same (
      unreserve_id-IsGood id s n good.1 sound (native_close-closed id s.native n found)
        (native_close-others id s.native n found))

pub sender_close-IsGood :
    (id : ℕ) (t : Option Thrown) (s s' : Client)
    → IsGood s
    → sender_close id s ≡ some (t, s')
    → IsGood s'
unfolding sender_close unreserve_id native_close_raw_socket
sender_close-IsGood id t s s' good e = elim (Bool-cases (id == raw_socket_id)) [
  | inl raw ↦
      let is_raw : id ≡ raw_socket_id = ground arith in
      let result : some (some out_of_bounds, s) ≡ some (t, s') = rw (sender_close, is_raw) at e in
      let same : s ≡ s' = cc result in subst IsGood same good
  | inr own ↦ captor_close-IsGood id t s s' good (rw (sender_close, own) at e)
]
