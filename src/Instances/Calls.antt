-- ===== src/Instances/Calls.antt =====
-- Sequences of calls on capture instances, and the same calls on a table of handles that knows nothing
-- of memory: no allocation, no order of stores, no environments.
use j_sdntrace.Base.{if◌then◌else◌, ℕ, Bool, true, Option, none, some, List, [], ◌∷◌}
use j_sdntrace.Wire.{◌>>=◌}
use j_sdntrace.Instances.{
  Native, Message, no_message, another_instance, no_device, pcap_error, filter_failed, update,
  native_close,
}
use j_sdntrace.Instances.Captor.{native_open_live, native_open_offline, set_filter, break_loop}
use j_sdntrace.Instances.Sender.{native_open_device}

-- A call, with what the system answers: to `openDevice` of a captor, `openFile`, `openDevice` of a
-- sender, `close`, `setFilter` and `breakLoop`.
pub data Call : Type 0 where
  open_live : ℕ → ℕ → Bool → Option ℕ → Option (ℕ × ℕ) → ℕ → Call
  open_offline : ℕ → ℕ → Option ℕ → ℕ → Call
  open_device : ℕ → ℕ → Bool → Option ℕ → Call
  close : ℕ → Call
  filter : ℕ → Bool → Bool → Call
  break : ℕ → Call

-- What a call answers: the text that a method returns or throws, or the handle that pcap was called with.
pub data Answer : Type 0 where
  says : Message → Answer
  called : ℕ → Answer
  closed : Answer

unfoldable pub call : Call → Native → Option (Answer × Native)
call (open_live id env device opened net linktype) s =
    let r = native_open_live id env device opened net linktype s in some (says r.0, r.1)
call (open_offline id env opened linktype) s =
    let r = native_open_offline id env opened linktype s in some (says r.0, r.1)
call (open_device id env device opened) s =
    let r = native_open_device id env device opened s in some (says r.0, r.1)
call (close id) s = do s' ← native_close id s; some (closed, s')
call (filter id compiles installs) s = do
  m ← set_filter id (λ mask. compiles) installs s
  some (says m, s)
call (break id) s = do h ← break_loop id s; some (called h, s)

unfoldable pub run : List Call → Native → Option (List Answer × Native)
run [] s = some ([], s)
run (c ∷ rest) s = do (a, s1) ← call c s; (others, s2) ← run rest s1; some (a ∷ others, s2)

-- The same on a table of handles.
abbrev pub Table : Type 0
Table = ℕ → Option ℕ

abbrev pub opening : ℕ → Bool → Option ℕ → Table → Answer × Table
opening id device opened t = elim (t id) [
  | some h ↦ (says another_instance, t)
  | none ↦
      if device
      then (says (elim opened [ none ↦ pcap_error | some h ↦ no_message ]), update t id opened)
      else (says no_device, t)
]

unfoldable pub replay_one : Call → Table → Option (Answer × Table)
replay_one (open_live id env device opened net linktype) t = some (opening id device opened t)
replay_one (open_offline id env opened linktype) t = some (opening id true opened t)
replay_one (open_device id env device opened) t = some (opening id device opened t)
replay_one (close id) t = some (closed, update t id none)
replay_one (filter id compiles installs) t = do
  h ← t id
  some (
    says (if compiles then (if installs then no_message else filter_failed) else filter_failed),
    t,
  )
replay_one (break id) t = do h ← t id; some (called h, t)

unfoldable pub replay : List Call → Table → Option (List Answer × Table)
replay [] t = some ([], t)
replay (c ∷ rest) t = do
  (a, t1) ← replay_one c t
  (others, t2) ← replay rest t1
  some (a ∷ others, t2)
