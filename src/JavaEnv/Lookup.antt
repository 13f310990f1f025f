-- ===== src/JavaEnv/Lookup.antt =====
-- The table of methods once the classes and methods of Jpcap have been looked up.
use j_sdntrace.JavaEnv.Passed.{read_all, passed}
use j_sdntrace.Base.{length, ℕ, ◌≡◌, refl, ap, ◌≢◌, false, Option, none, some, List, [], ◌∷◌}
use j_sdntrace.JavaEnv.{
  JavaClass, jpcap_class, MethodId, handle_mid, set_icmp_value_mid, class_text, method_text, JavaVm,
  JavaEnv, all_classes, any_missing, set_java_env,
}
use j_sdntrace.JavaEnv.Declared.{signature}
use j_sdntrace.JavaEnv.Methods.{declared}

method_text-declared :
    (m : MethodId) → method_text m ≡ ((declared m).owner, (declared m).name, signature (declared m))
unfolding method_text declared
method_text-declared m =
    elim m
      as (λ k. method_text k ≡ ((declared k).owner, (declared k).name, signature (declared k))) [
        | handle_mid ↦ refl
        | _ ↦ refl
      ]

passed-read : (m : MethodId) → m ≢ set_icmp_value_mid → passed m ≡ read_all (declared m).params
unfolding declared passed
passed-read m = elim m as (λ k. k ≢ set_icmp_value_mid → passed k ≡ read_all (declared k).params) [
  | set_icmp_value_mid ↦ λ other. absurd (other refl)
  | _ ↦ λ other. refl
]

passed-icmp :
    (m : MethodId)
    → m ≡ set_icmp_value_mid
    → (length (passed m) ≡ 3) × (length (read_all (declared m).params) ≡ 5)
unfolding declared passed
passed-icmp m same = rw same (refl, refl)

all_found :
    (classes : JavaClass → Option ℕ)
    → ((c : JavaClass) → (r : ℕ) × (classes c ≡ some r))
    → (l : List JavaClass) → any_missing classes l ≡ false
all_found classes found [] = refl
all_found classes found (c ∷ rest) = rw (any_missing, (found c).1) (all_found classes found rest)

-- The virtual machine has loaded Jpcap's classes: `FindClass` finds each class, and `GetMethodID` finds,
-- in each class, what the class declares, under its name and the signature of its types.
pub record HasClasses (vm : JavaVm) : Type 0 where
  pub class_of : JavaClass → ℕ
  pub finds_class : (c : JavaClass) → vm.find_class (class_text c) ≡ some (class_of c)
  pub id_of : MethodId → ℕ
  pub finds_method :
      (m : MethodId)
      → let d = declared m in
        vm.get_method_id (class_of d.owner) d.name (signature d) ≡ some (id_of m)

-- Where the classes are loaded and nothing has been looked up: `set_Java_env` finds every class and every
-- method. For each method the text of its signature in the C code is the one of the Java declaration;
-- and the arguments that the native code passes are, in number and in kind, those that the VM reads for
-- the declared parameters, except for `setICMPValueMID`, for which it passes three and the VM reads five.
pub set_java_env-calls :
    (vm : JavaVm) (s : JavaEnv)
    → s.classes jpcap_class ≡ none
    → HasClasses vm
    → (m : MethodId)
    → (id : ℕ) × ((set_java_env vm s).methods m ≡ some id)
      × ((method_text m).2 ≡ signature (declared m))
      × ((m ≢ set_icmp_value_mid → passed m ≡ read_all (declared m).params)
          × (m ≡ set_icmp_value_mid
              → (length (passed m) ≡ 3) × (length (read_all (declared m).params) ≡ 5)))
unfolding set_java_env
set_java_env-calls vm s new h m =
    let found : JavaClass → Option ℕ = λ c. vm.find_class (class_text c) in
    let same = method_text-declared m in
    let none_missing = all_found found (λ c. (h.class_of c, h.finds_class c)) all_classes in
    (
      h.id_of m,
      rw (set_java_env, new, none_missing, same, h.finds_class (declared m).owner)
          (h.finds_method m),
      ap (λ t. t.2) same,
      (passed-read m, passed-icmp m),
    )
