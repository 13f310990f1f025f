-- ===== src/Instances.antt =====
-- The native methods that open, use and close capture handles and the raw socket (JpcapCaptor.c,
-- JpcapSender.c, JpcapWriter.c): the global tables and what each method does to them. What pcap, the
-- socket calls and JNI answer are arguments.
pub mod Captor
pub mod Transmit
pub mod Devices
pub mod DeviceList
pub mod Dangling
pub mod Dump
pub mod Sound
pub mod Reach
pub mod Calls
pub mod Refine
pub mod Sender
pub mod Writer
use j_sdntrace.Base.{◌==◌, if◌then◌else◌, ℕ, Bool, true, false, Option, none, some}
use j_sdntrace.Wire.{◌>>=◌}

-- The globals. A handle, a dumper and a socket are numbers, NULL and -1 are `none`; `live` tells the
-- handles that pcap has allocated and nobody has freed.
pub record Native : Type 0 where
  pub pcds : ℕ → Option ℕ
  pub linktypes : ℕ → ℕ
  pub netnums : ℕ → ℕ
  pub netmasks : ℕ → ℕ
  pub jni_envs : ℕ → ℕ
  pub jpcap_handlers : ℕ → ℕ
  pub pcdd : Option ℕ
  pub pdt : Option ℕ
  pub soc_num : Option ℕ
  pub live : ℕ → Bool

-- What a method returns or throws: no text, or the text.
pub data Message : Type 0 where
  no_message another_instance no_device pcap_error not_instantiated filter_failed : Message
  another_sender socket_open socket_failed non_ip socket_closed sendto_failed : Message

abbrev pub update {ℓ} : {A : Type ℓ} → (ℕ → A) → ℕ → A → ℕ → A
update f i a j = if j == i then a else f j

-- A handle that pcap has just allocated, and one that it has freed.
abbrev pub allocate : Option ℕ → Native → Native
allocate none s = s
allocate (some h) s = record s { live = update s.live h true }

abbrev pub release : ℕ → Native → Native
release h s = record s { live = update s.live h false }

-- pcap called with `pcds[id]`: a null or a freed handle is a fault.
abbrev pub handle : Native → ℕ → Option ℕ
handle s id = s.pcds id >>= λ h. if s.live h then some h else none

-- `if(pcds[id]!=NULL) pcap_close(pcds[id]); pcds[id]=NULL;`, nativeClose and nativeCloseDevice.
abbrev pub close_handle : Option ℕ → ℕ → Native → Option Native
close_handle none id s = some s
close_handle (some h) id s =
    if s.live h then some (record (release h s) { pcds = update s.pcds id none }) else none

unfoldable pub native_close : ℕ → Native → Option Native
native_close id s = close_handle (s.pcds id) id s
