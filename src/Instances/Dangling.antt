-- ===== src/Instances/Dangling.antt =====
-- What the methods leave behind: the handle that JpcapWriter frees, and the raw socket.
use j_sdntrace.Base.{ℕ, ◌≡◌, refl, true, false, Option, none, some, arith}
use j_sdntrace.Instances.{Native, no_message, socket_open, update, handle, native_close}
use j_sdntrace.Instances.Sender.{native_open_raw_socket, native_close_raw_socket}
use j_sdntrace.Instances.Writer.{native_open_dump_file, writer_close}

-- An instance with an allocated handle opens a dump file, and the writer is closed. The instance still
-- has its handle in the table, but the handle is freed: any call of pcap with it is a fault, and so is
-- closing the instance.
pub writer_close_dangling :
    (s : Native) (id h d : ℕ)
    → s.pcds id ≡ some h
    → s.live h ≡ true
    → (s1 : Native) × (s2 : Native) × (native_open_dump_file id (some d) s ≡ some (no_message, s1))
      × (writer_close s1 ≡ some s2)
      × (s2.pcds id ≡ some h)
      × (handle s2 id ≡ none)
      × (native_close id s2 ≡ none)
unfolding native_open_dump_file writer_close native_close
writer_close_dangling s id h d found allocated =
    let freed : update s.live h false h ≡ false = ground arith in
    let in_use : handle s id ≡ some h = rw (found, allocated) refl in
    (
      record s { pcdd = some h; pdt = some d },
      record s { pcdd = none; pdt = none; live = update s.live h false },
      rw (native_open_dump_file, found, in_use) refl,
      rw (writer_close, allocated) refl,
      found,
      rw (found, freed) refl,
      rw (native_close, found, freed) refl,
    )

-- Once the raw socket has been opened, it cannot be opened again: closing it leaves `soc_num` as it is,
-- so that the next opening throws, whatever `socket` would return, and the descriptor in use is still
-- the closed one.
pub raw_socket_once :
    (s : Native) (n : ℕ) (made : Option ℕ)
    → s.soc_num ≡ none
    → let opened = native_open_raw_socket (some n) s in
      let closed = native_close_raw_socket opened.1 in
      (opened.0 ≡ no_message)
      × (closed.0 ≡ some n)
      × (native_open_raw_socket made closed.1 ≡ (socket_open, closed.1))
      × (closed.1.soc_num ≡ some n)
unfolding native_open_raw_socket native_close_raw_socket
raw_socket_once s n made fresh = (ground arith, ground arith, ground arith, ground arith)
