-- ===== src/Tests/Calls.antt =====
-- A sequence of calls, and a Java VM.
use text.Mathlib.Text.{◌==◌ as str_eq}
use j_sdntrace.JavaEnv.{
  arp_packet_class, set_ip_value_mid, set_icmp_value_mid, method_text, JavaVm, JavaEnv,
  set_java_env,
}
use j_sdntrace.JavaEnv.Lookup.{HasClasses, set_java_env-calls}
use j_sdntrace.JavaEnv.Declared.{signature}
use j_sdntrace.JavaEnv.Methods.{declared}
use j_sdntrace.JavaEnv.Passed.{read_all, passed}
use j_sdntrace.JavaEnv.Stale.{set_all, set_java_env-missing}
use j_sdntrace.Base.{
  if◌then◌else◌, length, ℕ, ◌≡◌, refl, ◌≢◌, true, none, some, List, [], ◌∷◌, arith,
}
use j_sdntrace.Instances.Refine.{observed, IsFreshRun, run_refines}
use j_sdntrace.Instances.Calls.{Call, open_live, close, filter, call, run, replay}
use j_sdntrace.Instances.Captor.{native_open_live, set_filter}
use j_sdntrace.Instances.{native_close}
use j_sdntrace.Instances.Sound.{IsSoundState}
use j_sdntrace.Tests.States.{fresh}

-- The device is opened, used, closed, and opened again.
abbrev calls : List Call
calls =
    open_live 0 7 true (some 100) none 1
    ∷ filter 0 true true
    ∷ close 0
    ∷ open_live 0 7 true (some 100) none 1
    ∷ []

fresh-IsSound : IsSoundState fresh
fresh-IsSound = (λ i h e. ground (arith, e), λ i j h e e'. ground (arith, e))

calls-IsFreshRun : IsFreshRun calls fresh
unfolding IsFreshRun run call native_open_live native_close set_filter
calls-IsFreshRun = (
  λ h e. ground (arith, e),
  (λ h e. ground (arith, e), (λ h e. ground (arith, e), (λ h e. ground (arith, e), record {}))),
)

run_refines_example : observed (run calls fresh) ≡ replay calls fresh.pcds
run_refines_example = run_refines calls fresh fresh-IsSound calls-IsFreshRun

-- A VM that finds everything, and one without a class.
abbrev whole_vm : JavaVm
whole_vm = record {
  find_class = λ t. some 1;
  get_method_id = λ c name text. some 2;
  get_field_id = λ c name text. some 3;
}

abbrev broken_vm : JavaVm
broken_vm = record whole_vm {
  find_class = λ t. if str_eq t "jpcap/packet/ARPPacket" then none else some 1;
}

abbrev no_env : JavaEnv
no_env = record { classes = λ c. none; methods = λ m. none; jpcap_id = none }

whole_vm-HasClasses : HasClasses whole_vm
whole_vm-HasClasses = record {
  class_of = λ c. 1;
  finds_class = λ c. refl;
  id_of = λ m. 2;
  finds_method = λ m. refl;
}

set_java_env-calls_example :
    (id : ℕ) × ((set_java_env whole_vm no_env).methods set_ip_value_mid ≡ some id)
    × ((method_text set_ip_value_mid).2 ≡ signature (declared set_ip_value_mid))
    × ((set_ip_value_mid ≢ set_icmp_value_mid
          → passed set_ip_value_mid ≡ read_all (declared set_ip_value_mid).params)
        × (set_ip_value_mid ≡ set_icmp_value_mid
            → (length (passed set_ip_value_mid) ≡ 3)
              × (length (read_all (declared set_ip_value_mid).params) ≡ 5)))
set_java_env-calls_example =
    set_java_env-calls whole_vm no_env refl whole_vm-HasClasses set_ip_value_mid

set_java_env-missing_example :
    ((set_java_env broken_vm no_env).methods ≡ no_env.methods)
    × (set_all (whole_vm ∷ []) (set_java_env broken_vm no_env) ≡ set_java_env broken_vm no_env)
set_java_env-missing_example =
    set_java_env-missing broken_vm no_env 1 arp_packet_class (whole_vm ∷ []) refl refl refl
