-- ===== src/JavaEnv/Stale.antt =====
-- The table of methods where a class was missing.
use j_sdntrace.Base.{
  Option-cases, ℕ, ◌≡◌, refl, sym, ap, ◌∙◌, ◌⊎◌, inl, inr, true, Option, none, some, List, [], ◌∷◌,
  arith,
}
use j_sdntrace.JavaEnv.{
  JavaClass, jpcap_class, class_text, JavaVm, JavaEnv, all_classes, any_missing, set_java_env,
}

IsIn : JavaClass → List JavaClass → Type 0
IsIn c [] = ⊥
IsIn c (x ∷ rest) = (c ≡ x) ⊎ IsIn c rest

any_missing-true :
    (classes : JavaClass → Option ℕ) (c : JavaClass) (l : List JavaClass)
    → classes c ≡ none
    → IsIn c l
    → any_missing classes l ≡ true
unfolding IsIn
any_missing-true classes c [] missing here = absurd here
any_missing-true classes c (x ∷ rest) missing (inl same) = rw (any_missing, sym same, missing) refl
any_missing-true classes c (x ∷ rest) missing (inr further) = elim (Option-cases (classes x)) [
  | inl gone ↦ rw (any_missing, gone) refl
  | inr (r, found) ↦ rw (any_missing, found) (any_missing-true classes c rest missing further)
]

all_classes-all : (c : JavaClass) → IsIn c all_classes
unfolding IsIn
all_classes-all c = elim c as (λ k. IsIn k all_classes) [
  | jpcap_class ↦ ground arith
  | _ ↦ ground arith
]

-- A call of `set_Java_env` with each of the virtual machines.
unfoldable pub set_all : List JavaVm → JavaEnv → JavaEnv
set_all [] s = s
set_all (vm ∷ rest) s = set_all rest (set_java_env vm s)

set_all-known :
    (vms : List JavaVm) (s : JavaEnv) (r : ℕ) → s.classes jpcap_class ≡ some r → set_all vms s ≡ s
unfolding set_all set_java_env
set_all-known [] s r known = refl
set_all-known (vm ∷ rest) s r known =
    let same : set_java_env vm s ≡ s = rw (set_java_env, known) refl in
    ap (set_all rest) same ∙ set_all-known rest s r known

-- Where the first call of `set_Java_env` finds the class JpcapCaptor but misses another, every method ID
-- stays as it was, and further calls change nothing, whatever the VM finds by then.
pub set_java_env-missing :
    (vm : JavaVm) (s : JavaEnv) (r : ℕ) (c : JavaClass) (later : List JavaVm)
    → s.classes jpcap_class ≡ none
    → vm.find_class (class_text jpcap_class) ≡ some r
    → vm.find_class (class_text c) ≡ none
    → ((set_java_env vm s).methods ≡ s.methods)
      × (set_all later (set_java_env vm s) ≡ set_java_env vm s)
unfolding set_java_env
set_java_env-missing vm s r c later new known missing =
    let found : JavaClass → Option ℕ = λ k. vm.find_class (class_text k) in
    let pending = any_missing-true found c all_classes missing (all_classes-all c) in
    (
      rw (set_java_env, new, pending) refl,
      set_all-known later (set_java_env vm s) r (rw (set_java_env, new, pending) known),
    )
