-- ===== src/Client/Reach.antt =====
-- The states that a program reaches through the Java classes, dump files not closed.
use mathlib.Core.Path.{subst}
use j_sdntrace.Base.{
  Option-cases, ℕ, ◌≡◌, ap, inl, inr, Bool, false, Option, none, some, List, arith,
}
use j_sdntrace.Capture.{Captured}
use j_sdntrace.Instances.{Native}
use j_sdntrace.Instances.Captor.{
  native_open_live, native_open_offline, Arrival, process_packet, Next, Returned, get_one_packet,
}
use j_sdntrace.Instances.Sender.{native_open_device, native_open_raw_socket}
use j_sdntrace.Instances.Writer.{native_open_dump_file}
use j_sdntrace.Instances.Sound.{
  IsFresh, open_live-IsSound, open_offline-IsSound, open_device-IsSound, process_packet-kept,
  get_one_packet-kept, native_open_dump_file-kept, native_open_raw_socket-kept, kept-IsSound,
}
use j_sdntrace.Client.{
  Client, Thrown, captor_open_device, captor_open_file, sender_open_device, sender_open_raw_socket,
  captor_close, sender_close, open_dump_file,
}
use j_sdntrace.Client.Keep.{
  IsGood, open_live-others, open_offline-others, open_device-others, constructed-IsGood,
  captor_close-IsGood, sender_close-IsGood,
}

-- A call on an object of the classes: opening one, where pcap allocates a handle that is not in use;
-- closing a captor or a sender of any number; using one; or opening a dump file.
pub data Step : Client → Client → Type 0 where
  open_device :
      {s : Client} (env : ℕ) (device : Bool) (opened : Option ℕ) (net : Option (ℕ × ℕ))
      (linktype : ℕ)
      → IsFresh opened s.native
      → Step s (captor_open_device env device opened net linktype s).1
  open_file :
      {s : Client} (env : ℕ) (opened : Option ℕ) (linktype : ℕ)
      → IsFresh opened s.native
      → Step s (captor_open_file env opened linktype s).1
  open_sender :
      {s : Client} (env : ℕ) (device : Bool) (opened : Option ℕ)
      → IsFresh opened s.native
      → Step s (sender_open_device env device opened s).1
  open_raw : {s : Client} (made : Option ℕ) → Step s (sender_open_raw_socket made s).1
  close_captor :
      {s s' : Client} (id : ℕ) (t : Option Thrown) → captor_close id s ≡ some (t, s') → Step s s'
  close_sender :
      {s s' : Client} (id : ℕ) (t : Option Thrown) → sender_close id s ≡ some (t, s') → Step s s'
  process :
      {s : Client} {n : Native} (id env handler : ℕ) (arrivals : List Arrival)
      (received : List Captured)
      → process_packet id env handler arrivals s.native ≡ some (received, n)
      → Step s (record s { native = n })
  get_one :
      {s : Client} {n : Native} (id env : ℕ) (next : Next) (x : Returned)
      → get_one_packet id env next s.native ≡ some (x, n)
      → Step s (record s { native = n })
  open_dump :
      {s s' : Client} (id : ℕ) (opened : Option ℕ) (t : Option Thrown)
      → open_dump_file id opened s ≡ some (t, s')
      → Step s s'

-- From the loaded classes: no number is given out and the table is empty.
pub data Reached : Client → Type 0 where
  loaded :
      {s : Client} → ((i : ℕ) → s.flags i ≡ false) → ((i : ℕ) → s.native.pcds i ≡ none) → Reached s
  after : {s s' : Client} → Reached s → Step s s' → Reached s'

open_dump_file-IsGood :
    (id : ℕ) (opened : Option ℕ) (t : Option Thrown) (s s' : Client)
    → IsGood s
    → open_dump_file id opened s ≡ some (t, s')
    → IsGood s'
unfolding open_dump_file
open_dump_file-IsGood id opened t s s' good e =
    elim (Option-cases (native_open_dump_file id opened s.native)) [
      | inl faulted ↦ absurd (ground (arith, rw faulted at e))
      | inr ((m, n), found) ↦
          let kept = native_open_dump_file-kept id opened m s.native n found in
          let result = rw (open_dump_file, found) at e in
          let same : record s { native = n } ≡ s' = cc result in
          subst IsGood same (kept-IsSound s.native n good.0 kept, rw kept.0 good.1)
    ]

Step-IsGood : (s s' : Client) → Step s s' → IsGood s → IsGood s'
unfolding captor_open_device captor_open_file sender_open_device sender_open_raw_socket
Step-IsGood s _ (open_device env device opened net linktype fresh) good =
    constructed-IsGood (λ id. native_open_live id env device opened net linktype) s good
      (λ id. (
        open_live-IsSound id env device opened net linktype s.native good.0 fresh,
        open_live-others id env device opened net linktype s.native,
      ))
Step-IsGood s _ (open_file env opened linktype fresh) good =
    constructed-IsGood (λ id. native_open_offline id env opened linktype) s good
      (λ id. (
        open_offline-IsSound id env opened linktype s.native good.0 fresh,
        open_offline-others id env opened linktype s.native,
      ))
Step-IsGood s _ (open_sender env device opened fresh) good =
    constructed-IsGood (λ id. native_open_device id env device opened) s good
      (λ id. (
        open_device-IsSound id env device opened s.native good.0 fresh,
        open_device-others id env device opened s.native,
      ))
Step-IsGood s _ (open_raw made) good =
    let kept = native_open_raw_socket-kept made s.native in
    constructed-IsGood (λ id. native_open_raw_socket made) s good
      (λ id. (
        kept-IsSound s.native (native_open_raw_socket made s.native).1 good.0 kept,
        λ j other. ap (λ f. f j) kept.0,
      ))
Step-IsGood s s' (close_captor id t e) good = captor_close-IsGood id t s s' good e
Step-IsGood s s' (close_sender id t e) good = sender_close-IsGood id t s s' good e
Step-IsGood s _ (process {n = n} id env handler arrivals received e) good =
    let kept = process_packet-kept id env handler arrivals received s.native n e in
    (kept-IsSound s.native n good.0 kept, rw kept.0 good.1)
Step-IsGood s _ (get_one {n = n} id env next x e) good =
    let kept = get_one_packet-kept id env next x s.native n e in
    (kept-IsSound s.native n good.0 kept, rw kept.0 good.1)
Step-IsGood s s' (open_dump id opened t e) good = open_dump_file-IsGood id opened t s s' good e

pub reached-IsGood : (s : Client) → Reached s → IsGood s
reached-IsGood s (loaded clear empty) = (
  (λ i h e. ground (arith, empty i), λ i j h e e'. ground (arith, empty i)),
  λ i h e. ground (arith, empty i),
)
reached-IsGood s' (after {s = s} earlier step) = Step-IsGood s s' step (reached-IsGood s earlier)
