-- ===== src/Instances/Reach.antt =====
-- The states that the methods reach, dump files not closed, and what holds in them.
use mathlib.Core.Path.{subst}
use j_sdntrace.Base.{ℕ, ◌≡◌, Bool, Option, none, some, List, arith}
use j_sdntrace.Capture.{Captured}
use j_sdntrace.Instances.{Native, Message, handle, native_close}
use j_sdntrace.Instances.Captor.{
  native_open_live, native_open_offline, Arrival, process_packet, Next, Returned, get_one_packet,
}
use j_sdntrace.Instances.Sender.{
  native_open_device, native_open_raw_socket, native_close_raw_socket,
}
use j_sdntrace.Instances.Writer.{native_open_dump_file}
use j_sdntrace.Instances.Sound.{
  IsFresh, IsSoundState, open_live-IsSound, open_offline-IsSound, open_device-IsSound,
  close-IsSound, native_close-closed, handle-some, process_packet-kept, get_one_packet-kept,
  native_open_dump_file-kept, native_open_raw_socket-kept, kept-IsSound,
}

-- A call of a method of JpcapCaptor or JpcapSender, or of nativeOpenDumpFile.
pub data Step : Native → Native → Type 0 where
  open_live :
      {s : Native} (id env : ℕ) (device : Bool) (opened : Option ℕ) (net : Option (ℕ × ℕ))
      (linktype : ℕ)
      → IsFresh opened s
      → Step s (native_open_live id env device opened net linktype s).1
  open_offline :
      {s : Native} (id env : ℕ) (opened : Option ℕ) (linktype : ℕ)
      → IsFresh opened s
      → Step s (native_open_offline id env opened linktype s).1
  open_device :
      {s : Native} (id env : ℕ) (device : Bool) (opened : Option ℕ)
      → IsFresh opened s
      → Step s (native_open_device id env device opened s).1
  close : {s s' : Native} (id : ℕ) → native_close id s ≡ some s' → Step s s'
  process :
      {s s' : Native} (id env handler : ℕ) (arrivals : List Arrival) (received : List Captured)
      → process_packet id env handler arrivals s ≡ some (received, s')
      → Step s s'
  get_one :
      {s s' : Native} (id env : ℕ) (next : Next) (x : Returned)
      → get_one_packet id env next s ≡ some (x, s')
      → Step s s'
  open_socket : {s : Native} (made : Option ℕ) → Step s (native_open_raw_socket made s).1
  close_socket : {s : Native} → Step s (native_close_raw_socket s).1
  open_dump :
      {s s' : Native} (id : ℕ) (opened : Option ℕ) (m : Message)
      → native_open_dump_file id opened s ≡ some (m, s')
      → Step s s'

-- From the empty table of the loaded library.
pub data Reached : Native → Type 0 where
  loaded : {s : Native} → ((i : ℕ) → s.pcds i ≡ none) → Reached s
  after : {s s' : Native} → Reached s → Step s s' → Reached s'

Step-IsSound : (s s' : Native) → Step s s' → IsSoundState s → IsSoundState s'
unfolding native_close_raw_socket
Step-IsSound _ _ (open_live id env device opened net linktype fresh) sound =
    open_live-IsSound id env device opened net linktype _ sound fresh
Step-IsSound _ _ (open_offline id env opened linktype fresh) sound =
    open_offline-IsSound id env opened linktype _ sound fresh
Step-IsSound _ _ (open_device id env device opened fresh) sound =
    open_device-IsSound id env device opened _ sound fresh
Step-IsSound s s' (close id e) sound =
    let (t, found, t_sound) = close-IsSound id s sound in
    let same : t ≡ s' = cc (found, e) in subst IsSoundState same t_sound
Step-IsSound s s' (process id env handler arrivals received e) sound =
    kept-IsSound s s' sound (process_packet-kept id env handler arrivals received s s' e)
Step-IsSound s s' (get_one id env next x e) sound =
    kept-IsSound s s' sound (get_one_packet-kept id env next x s s' e)
Step-IsSound s _ (open_socket made) sound =
    kept-IsSound s (native_open_raw_socket made s).1 sound (native_open_raw_socket-kept made s)
Step-IsSound _ _ close_socket sound = sound
Step-IsSound s s' (open_dump id opened m e) sound =
    kept-IsSound s s' sound (native_open_dump_file-kept id opened m s s' e)

reached-IsSound : (s : Native) → Reached s → IsSoundState s
reached-IsSound s (loaded empty) =
    (λ i h e. ground (arith, empty i), λ i j h e e'. ground (arith, empty i))
reached-IsSound s' (after {s = s} earlier step) = Step-IsSound s s' step (reached-IsSound s earlier)

-- After any sequence of calls of the methods that open, use and close instances and the raw socket,
-- and that open dump files, where pcap allocates handles that are not in use: the handle of every open
-- instance is allocated, so that pcap may be called with it; no two instances share one; and closing
-- any instance, open or not, never faults and leaves a table in which these hold again and the
-- instance is closed.
pub reached_handles :
    (s : Native)
    → Reached s
    → ((id h : ℕ) → s.pcds id ≡ some h → handle s id ≡ some h)
      × ((i j h : ℕ) → s.pcds i ≡ some h → s.pcds j ≡ some h → i ≡ j)
      × ((id : ℕ)
          → (s' : Native) × (native_close id s ≡ some s') × IsSoundState s' × (s'.pcds id ≡ none))
reached_handles s reached =
    let sound = reached-IsSound s reached in
    (
      λ id h e. handle-some id h s sound e,
      sound.1,
      λ id.
          let (s', found, s'_sound) = close-IsSound id s sound in
          (s', found, s'_sound, native_close-closed id s s' found),
    )
