-- ===== src/JavaEnv/Declared.antt =====
-- Declarations of Java methods, and how the virtual machine spells their signatures.
use Prim.Native.String.{String, ◌++◌ as append}
use j_sdntrace.Base.{Option, none, some, List, [], ◌∷◌}
use j_sdntrace.JavaEnv.{JavaClass, class_text}

pub data JavaType : Type 0 where
  byte_type short_type int_type long_type boolean_type : JavaType
  object_type : JavaClass → JavaType
  array_type : JavaType → JavaType

-- A declaration: the class, the name, the types of the parameters and of the result, `void` being
-- `none`.
pub record Declaration : Type 0 where
  pub owner : JavaClass
  pub name : String
  pub params : List JavaType
  pub result : Option JavaType

abbrev pub method : JavaClass → Option JavaType → String → List JavaType → Declaration
method c result name params = record { owner = c; name = name; params = params; result = result }

-- The signature of a method in the virtual machine's spelling.
abbrev pub type_text : JavaType → String
type_text byte_type = "B"
type_text short_type = "S"
type_text int_type = "I"
type_text long_type = "J"
type_text boolean_type = "Z"
type_text (object_type c) = append "L" (append (class_text c) ";")
type_text (array_type t) = append "[" (type_text t)

abbrev pub params_text : List JavaType → String
params_text [] = ")"
params_text (t ∷ rest) = append (type_text t) (params_text rest)

abbrev pub result_text : Option JavaType → String
result_text none = "V"
result_text (some t) = type_text t

abbrev pub signature : Declaration → String
signature d = append "(" (append (params_text d.params) (result_text d.result))
