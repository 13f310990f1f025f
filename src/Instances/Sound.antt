-- ===== src/Instances/Sound.antt =====
-- The handles in the table, and the effect of each method on them.
use j_sdntrace.Base.{
  Bool-cases, Option-cases, ℕ, ◌≡◌, refl, ◌≢◌, inl, inr, Bool, true, false, Option, none, some,
  List, arith,
}
use j_sdntrace.Capture.{Captured}
use j_sdntrace.Instances.{Native, Message, update, allocate, release, handle, native_close}
use j_sdntrace.Instances.Captor.{
  opened_handle, looked_up, native_open_live, native_open_offline, Arrival, process_packet, Next,
  Returned, get_one_packet,
}
use j_sdntrace.Instances.Sender.{native_open_device, native_open_raw_socket}
use j_sdntrace.Instances.Writer.{native_open_dump_file}

-- Every handle in the table is allocated, and it is there once.
abbrev pub IsSound : (ℕ → Option ℕ) → (ℕ → Bool) → Type 0
IsSound pcds live =
    ((i h : ℕ) → pcds i ≡ some h → live h ≡ true)
    × ((i j h : ℕ) → pcds i ≡ some h → pcds j ≡ some h → i ≡ j)

-- pcap allocates a handle that is not in use.
abbrev pub IsFresh : Option ℕ → Native → Type 0
IsFresh opened s = (h : ℕ) → opened ≡ some h → s.live h ≡ false

IsSound-open :
    (pcds : ℕ → Option ℕ) (live : ℕ → Bool) (id h : ℕ)
    → IsSound pcds live
    → live h ≡ false
    → IsSound (update pcds id (some h)) (update live h true)
IsSound-open pcds live id h sound fresh = (
  λ i k e. ground (arith, sound.0 i k),
  λ i j k e e'. ground (arith, sound.0 i k, sound.0 j k, sound.1 i j k),
)

IsSound-close :
    (pcds : ℕ → Option ℕ) (live : ℕ → Bool) (id h : ℕ)
    → IsSound pcds live
    → pcds id ≡ some h
    → IsSound (update pcds id none) (update live h false)
IsSound-close pcds live id h sound found = (
  λ i k e. ground (arith, sound.0 i k, sound.1 i id h),
  λ i j k e e'. ground (arith, sound.1 i j k),
)

IsSound-empty :
    (pcds : ℕ → Option ℕ) (live : ℕ → Bool) (id : ℕ)
    → IsSound pcds live
    → IsSound (update pcds id none) live
IsSound-empty pcds live id sound =
    (λ i k e. ground (arith, sound.0 i k), λ i j k e e'. ground (arith, sound.1 i j k))

-- The table and the allocated handles of a state.
abbrev pub IsSoundState : Native → Type 0
IsSoundState s = IsSound s.pcds s.live

opened_handle-IsSound :
    (id : ℕ) (opened : Option ℕ) (net : Option (ℕ × ℕ)) (linktype : ℕ) (s : Native)
    → IsSoundState s
    → IsFresh opened s
    → IsSoundState (opened_handle id opened linktype (looked_up id net (allocate opened s))).1
opened_handle-IsSound id none none linktype s sound fresh = IsSound-empty s.pcds s.live id sound
opened_handle-IsSound id none (some n) linktype s sound fresh = IsSound-empty s.pcds s.live id sound
opened_handle-IsSound id (some h) none linktype s sound fresh =
    IsSound-open s.pcds s.live id h sound (fresh h refl)
opened_handle-IsSound id (some h) (some n) linktype s sound fresh =
    IsSound-open s.pcds s.live id h sound (fresh h refl)

pub open_live-IsSound :
    (id env : ℕ) (device : Bool) (opened : Option ℕ) (net : Option (ℕ × ℕ)) (linktype : ℕ)
    (s : Native)
    → IsSoundState s
    → IsFresh opened s
    → IsSoundState (native_open_live id env device opened net linktype s).1
unfolding native_open_live
open_live-IsSound id env device opened net linktype s sound fresh =
    elim (Option-cases (s.pcds id)) [
      | inr found ↦ rw (native_open_live, found.1) sound
      | inl free ↦ elim (Bool-cases device) [
        | inl given ↦
            rw (native_open_live, free, given)
              (opened_handle-IsSound id opened net linktype
                (record s { jni_envs = update s.jni_envs id env }) sound fresh)
        | inr missing ↦ rw (native_open_live, free, missing) sound
      ]
    ]

pub open_offline-IsSound :
    (id env : ℕ) (opened : Option ℕ) (linktype : ℕ) (s : Native)
    → IsSoundState s
    → IsFresh opened s
    → IsSoundState (native_open_offline id env opened linktype s).1
unfolding native_open_offline
open_offline-IsSound id env opened linktype s sound fresh = elim (Option-cases (s.pcds id)) [
  | inr found ↦ rw (native_open_offline, found.1) sound
  | inl free ↦ elim (Option-cases opened) [
    | inl refused ↦ rw (native_open_offline, free, refused) (IsSound-empty s.pcds s.live id sound)
    | inr made ↦
        rw (native_open_offline, free, made.1)
          (IsSound-open s.pcds s.live id made.0 sound (fresh made.0 made.1))
  ]
]

pub open_device-IsSound :
    (id env : ℕ) (device : Bool) (opened : Option ℕ) (s : Native)
    → IsSoundState s
    → IsFresh opened s
    → IsSoundState (native_open_device id env device opened s).1
unfolding native_open_device
open_device-IsSound id env device opened s sound fresh = elim (Option-cases (s.pcds id)) [
  | inr found ↦ rw (native_open_device, found.1) sound
  | inl free ↦ elim (Bool-cases device) [
    | inr missing ↦ rw (native_open_device, free, missing) sound
    | inl given ↦ elim (Option-cases opened) [
      | inl refused ↦ rw (native_open_device, free, given, refused) sound
      | inr made ↦
          rw (native_open_device, free, given, made.1)
            (IsSound-open s.pcds s.live id made.0 sound (fresh made.0 made.1))
    ]
  ]
]

pub close-IsSound :
    (id : ℕ) (s : Native)
    → IsSoundState s
    → (s' : Native) × (native_close id s ≡ some s') × IsSoundState s'
unfolding native_close
close-IsSound id s sound = elim (Option-cases (s.pcds id)) [
  | inl free ↦ (s, rw free refl, sound)
  | inr found ↦ (
    record (release found.0 s) { pcds = update s.pcds id none },
    rw (found.1, sound.0 id found.0 found.1) refl,
    IsSound-close s.pcds s.live id found.0 sound found.1,
  )
]

pub native_close-closed : (id : ℕ) (s s' : Native) → native_close id s ≡ some s' → s'.pcds id ≡ none
unfolding native_close
native_close-closed id s s' e = elim (Option-cases (s.pcds id)) [
  | inl free ↦ ground arith
  | inr found ↦ ground arith
]

pub native_close-others :
    (id : ℕ) (s s' : Native) → native_close id s ≡ some s' → (j : ℕ) → j ≢ id → s'.pcds j ≡ s.pcds j
unfolding native_close
native_close-others id s s' e j other = elim (Option-cases (s.pcds id)) [
  | inl free ↦ ground arith
  | inr found ↦ ground arith
]

pub handle-some :
    (id h : ℕ) (s : Native) → IsSoundState s → s.pcds id ≡ some h → handle s id ≡ some h
handle-some id h s sound found = rw (found, sound.0 id h found) refl

pub process_packet-kept :
    (id env handler : ℕ) (arrivals : List Arrival) (received : List Captured) (s s' : Native)
    → process_packet id env handler arrivals s ≡ some (received, s')
    → (s'.pcds ≡ s.pcds) × (s'.live ≡ s.live)
unfolding process_packet
process_packet-kept id env handler arrivals received s s' e = ground arith

pub get_one_packet-kept :
    (id env : ℕ) (next : Next) (x : Returned) (s s' : Native)
    → get_one_packet id env next s ≡ some (x, s')
    → (s'.pcds ≡ s.pcds) × (s'.live ≡ s.live)
unfolding get_one_packet
get_one_packet-kept id env next x s s' e = ground arith

pub native_open_dump_file-kept :
    (id : ℕ) (opened : Option ℕ) (m : Message) (s s' : Native)
    → native_open_dump_file id opened s ≡ some (m, s')
    → (s'.pcds ≡ s.pcds) × (s'.live ≡ s.live)
unfolding native_open_dump_file
native_open_dump_file-kept id opened m s s' e = ground arith

pub native_open_raw_socket-kept :
    (made : Option ℕ) (s : Native)
    → let s' = (native_open_raw_socket made s).1 in (s'.pcds ≡ s.pcds) × (s'.live ≡ s.live)
unfolding native_open_raw_socket
native_open_raw_socket-kept made s = ground arith

pub kept-IsSound :
    (s s' : Native) → IsSoundState s → (s'.pcds ≡ s.pcds) × (s'.live ≡ s.live) → IsSoundState s'
kept-IsSound s s' sound kept = rw (kept.0, kept.1) sound
