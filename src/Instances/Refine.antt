-- ===== src/Instances/Refine.antt =====
-- The calls on the native state answer as those on the table of handles.
use j_sdntrace.Instances.Sound.{
  IsFresh, IsSoundState, open_live-IsSound, open_offline-IsSound, open_device-IsSound,
  close-IsSound,
}
use mathlib.Core.Path.{subst, fun_ext}
use j_sdntrace.Base.{
  Bool-cases, Option-cases, ℕ, ◌≡◌, refl, sym, ap, inl, inr, Bool, true, Option, none, some, List,
  [], ◌∷◌, arith,
}
use j_sdntrace.Instances.{Native, Message, update, native_close}
use j_sdntrace.Instances.Captor.{native_open_live, native_open_offline, set_filter, break_loop}
use j_sdntrace.Instances.Sender.{native_open_device}
use j_sdntrace.Instances.Calls.{
  Call, open_live, open_offline, open_device, close, filter, break, Answer, says, closed, call, run,
  Table, opening, replay_one, replay,
}

-- What the table shows of a result.
abbrev pub observed {ℓ} : {A : Type ℓ} → Option (A × Native) → Option (A × Table)
observed none = none
observed (some (a, s)) = some (a, s.pcds)

update-same : (t : Table) (id : ℕ) (x : Option ℕ) → t id ≡ x → update t id x ≡ t
update-same t id x same = fun_ext (λ i. ground (arith, same))

close_refines :
    (id : ℕ) (s : Native)
    → IsSoundState s
    → observed (call (close id) s) ≡ replay_one (close id) s.pcds
unfolding call replay_one native_close
close_refines id s sound = elim (Option-cases (s.pcds id)) [
  | inl free ↦ rw (call, native_close, replay_one, free, update-same s.pcds id none free) refl
  | inr (h, found) ↦ rw (call, native_close, replay_one, found, sound.0 id h found) refl
]

abbrev shown : Message × Native → Answer × Table
shown r = (says r.0, r.1.pcds)

open_live_refines :
    (id env : ℕ) (device : Bool) (opened : Option ℕ) (net : Option (ℕ × ℕ)) (linktype : ℕ)
    (s : Native)
    → shown (native_open_live id env device opened net linktype s) ≡ opening id device opened s.pcds
unfolding native_open_live
open_live_refines id env device opened net linktype s = elim (Option-cases (s.pcds id)) [
  | inr (h, found) ↦ rw (native_open_live, opening, found) refl
  | inl free ↦ elim (Bool-cases device) [
    | inr missing ↦ rw (native_open_live, opening, free, missing) refl
    | inl given ↦ elim (Option-cases opened) [
      | inl refused ↦ elim (Option-cases net) [
        | inl unknown ↦ rw (native_open_live, opening, free, given, refused, unknown) refl
        | inr (n, known) ↦ rw (native_open_live, opening, free, given, refused, known) refl
      ]
      | inr (h, made) ↦ elim (Option-cases net) [
        | inl unknown ↦ rw (native_open_live, opening, free, given, made, unknown) refl
        | inr (n, known) ↦ rw (native_open_live, opening, free, given, made, known) refl
      ]
    ]
  ]
]

open_offline_refines :
    (id env : ℕ) (opened : Option ℕ) (linktype : ℕ) (s : Native)
    → shown (native_open_offline id env opened linktype s) ≡ opening id true opened s.pcds
unfolding native_open_offline
open_offline_refines id env opened linktype s = elim (Option-cases (s.pcds id)) [
  | inr (h, found) ↦ rw (native_open_offline, opening, found) refl
  | inl free ↦ elim (Option-cases opened) [
    | inl refused ↦ rw (native_open_offline, opening, free, refused) refl
    | inr (h, made) ↦ rw (native_open_offline, opening, free, made) refl
  ]
]

open_device_refines :
    (id env : ℕ) (device : Bool) (opened : Option ℕ) (s : Native)
    → shown (native_open_device id env device opened s) ≡ opening id device opened s.pcds
unfolding native_open_device
open_device_refines id env device opened s = elim (Option-cases (s.pcds id)) [
  | inr (h, found) ↦ rw (native_open_device, opening, found) refl
  | inl free ↦ elim (Bool-cases device) [
    | inr missing ↦ rw (native_open_device, opening, free, missing) refl
    | inl given ↦ elim (Option-cases opened) [
      | inl refused ↦
          rw (native_open_device, opening, free, given, refused, update-same s.pcds id none free)
            refl
      | inr (h, made) ↦ rw (native_open_device, opening, free, given, made) refl
    ]
  ]
]

call_refines : (c : Call) (s : Native) → IsSoundState s → observed (call c s) ≡ replay_one c s.pcds
unfolding call replay_one native_open_live native_open_offline native_open_device set_filter
    break_loop
call_refines (close id) s sound = close_refines id s sound
call_refines (open_live id env device opened net linktype) s sound =
    ap some (open_live_refines id env device opened net linktype s)
call_refines (open_offline id env opened linktype) s sound =
    ap some (open_offline_refines id env opened linktype s)
call_refines (open_device id env device opened) s sound =
    ap some (open_device_refines id env device opened s)
call_refines (filter id compiles installs) s sound = elim (Option-cases (s.pcds id)) [
  | inl free ↦ rw (call, set_filter, replay_one, free) refl
  | inr (h, found) ↦ rw (call, set_filter, replay_one, found, sound.0 id h found) refl
]
call_refines (break id) s sound = elim (Option-cases (s.pcds id)) [
  | inl free ↦ rw (call, break_loop, replay_one, free) refl
  | inr (h, found) ↦ rw (call, break_loop, replay_one, found, sound.0 id h found) refl
]

-- What pcap opens in a call.
abbrev pub opened_by : Call → Option ℕ
opened_by (open_live id env device opened net linktype) = opened
opened_by (open_offline id env opened linktype) = opened
opened_by (open_device id env device opened) = opened
opened_by (close id) = none
opened_by (filter id compiles installs) = none
opened_by (break id) = none

call-IsSound :
    (c : Call) (a : Answer) (s s' : Native)
    → IsSoundState s
    → IsFresh (opened_by c) s
    → call c s ≡ some (a, s')
    → IsSoundState s'
unfolding call set_filter break_loop
call-IsSound (open_live id env device opened net linktype) a s s' sound fresh e =
    let same : (native_open_live id env device opened net linktype s).1 ≡ s' = cc e in
    subst IsSoundState same (open_live-IsSound id env device opened net linktype s sound fresh)
call-IsSound (open_offline id env opened linktype) a s s' sound fresh e =
    let same : (native_open_offline id env opened linktype s).1 ≡ s' = cc e in
    subst IsSoundState same (open_offline-IsSound id env opened linktype s sound fresh)
call-IsSound (open_device id env device opened) a s s' sound fresh e =
    let same : (native_open_device id env device opened s).1 ≡ s' = cc e in
    subst IsSoundState same (open_device-IsSound id env device opened s sound fresh)
call-IsSound (close id) a s s' sound fresh e =
    let (t, found, t_sound) = close-IsSound id s sound in
    let result : some (closed, t) ≡ some (a, s') = rw (call, found) at e in
    let same : t ≡ s' = cc result in subst IsSoundState same t_sound
call-IsSound (filter id compiles installs) a s s' sound fresh e = elim (Option-cases (s.pcds id)) [
  | inl free ↦ absurd (ground (arith, free))
  | inr (h, found) ↦
      let result = rw (call, set_filter, found, sound.0 id h found) at e in
      let same : s ≡ s' = cc result in subst IsSoundState same sound
]
call-IsSound (break id) a s s' sound fresh e = elim (Option-cases (s.pcds id)) [
  | inl free ↦ absurd (ground (arith, free))
  | inr (h, found) ↦
      let result = rw (call, break_loop, found, sound.0 id h found) at e in
      let same : s ≡ s' = cc result in subst IsSoundState same sound
]

-- pcap opens handles that are not in use when it is called.
unfoldable pub IsFreshRun : List Call → Native → Type 0
IsFreshRun [] s = Unit
IsFreshRun (c ∷ rest) s =
    IsFresh (opened_by c) s × elim (call c s) [ none ↦ Unit | some r ↦ IsFreshRun rest r.1 ]

-- From a state whose table holds allocated handles only, each once, any sequence of calls of the methods
-- that open, close, filter and break, on any instances, open or not, where pcap opens handles that are
-- not in use: the answers are those of the table of handles, and so is the table after them; and the
-- calls fault exactly where, in the table, a filter is set or a loop is broken on an instance with no
-- handle.
pub run_refines :
    (calls : List Call) (s : Native)
    → IsSoundState s
    → IsFreshRun calls s
    → observed (run calls s) ≡ replay calls s.pcds
unfolding run replay IsFreshRun
run_refines [] s sound fresh = refl
run_refines (c ∷ rest) s sound (now, later) =
    let one = call_refines c s sound in
    elim (Option-cases (call c s)) [
      | inl fault ↦
          let step : none ≡ replay_one c s.pcds = rw fault at one in
          rw (run, replay, fault, sym step) refl
      | inr ((a, s1), done) ↦
          let step : some (a, s1.pcds) ≡ replay_one c s.pcds = rw done at one in
          let all = run_refines rest s1 (call-IsSound c a s s1 sound now done) (rw done at later) in
          elim (Option-cases (run rest s1)) [
            | inl fault ↦
                let steps : none ≡ replay rest s1.pcds = rw fault at all in
                rw (run, replay, done, sym step, fault, sym steps) refl
            | inr ((others, s2), finished) ↦
                let steps : some (others, s2.pcds) ≡ replay rest s1.pcds = rw finished at all in
                rw (run, replay, done, sym step, finished, sym steps) refl
          ]
    ]
