-- ===== src/Tools/Arguments.antt =====
-- bat/services/agent/tools.py: `validate_arguments`, the check of a call's arguments against the
-- tool's schema. An invocation's arguments are an object by their type, so the first test of the
-- source never fires.
use bat_ai.Prelude.{
  ◌≡◌, refl, ◌↔◌, Bool, true, false, ◌&&◌, ◌||◌, not, List, [], ◌∷◌, ◌++◌, Option, none, some,
  String, arith, if◌then◌else◌, ◌==◌, string_eq, is_some, all,
}
use bat_ai.Prelude.Dict.{Dict, get}
use bat_ai.Prelude.Text.{Text, codes}
use bat_ai.Domain.Conversation.{Value, null, boolean, integer, number, text, array, object}
use bat_ai.Tools.Policy.{Property, Schema}

-- One problem of the list, before it is put in words.
pub data Problem : Type 0 where
  missing unexpected not_a_choice : String → Problem
  wrong_type : String → String → Value → Problem

unfoldable pub type_ok : String → Value → Bool
type_ok expected v =
    if expected == "string"
    then elim v [ text t ↦ true | _ ↦ false ]
    else if expected == "integer"
    then elim v [ integer t ↦ true | _ ↦ false ]
    else if expected == "number"
    then elim v [ integer t ↦ true | number t ↦ true | _ ↦ false ]
    else if expected == "boolean"
    then elim v [ boolean b ↦ true | _ ↦ false ]
    else if expected == "array"
    then elim v [ array t ↦ true | _ ↦ false ]
    else if expected == "object"
    then elim v [ object t ↦ true | _ ↦ false ]
    else true

-- The loop over `required`.
unfoldable pub check_required : List String → Dict String Value → List Problem
check_required [] arguments = []
check_required (k ∷ ks) arguments =
    let rest = check_required ks arguments in
    if is_some (get arguments k) then rest else missing k ∷ rest

check_type : String → Option String → Value → List Problem
check_type k none v = []
check_type k (some expected) v = if type_ok expected v then [] else wrong_type k expected v ∷ []

check_choice : String → Option (Value → Bool) → Value → List Problem
check_choice k none v = []
check_choice k (some choices) v = if choices v then [] else not_a_choice k ∷ []

unfoldable pub is_empty {ℓ} : {A : Type ℓ} → List A → Bool
is_empty [] = true
is_empty (x ∷ xs) = false

-- The body of the loop over `arguments.items()`.
unfoldable pub check_argument : Schema → String → Value → List Problem
unfolding check_type check_choice is_empty
check_argument schema k v = elim (get schema.properties k) [
  | none ↦ if schema.closed || not (is_empty schema.properties) then unexpected k ∷ [] else []
  | some spec ↦ check_type k spec.type v ++ check_choice k spec.choices v
]

unfoldable pub check_arguments : Schema → Dict String Value → List Problem
check_arguments schema [] = []
check_arguments schema ((k, v) ∷ rest) = check_argument schema k v ++ check_arguments schema rest

unfoldable pub validate_arguments : Schema → Dict String Value → List Problem
unfolding check_required check_arguments
validate_arguments schema arguments =
    check_required schema.required arguments ++ check_arguments schema arguments

pub python_type : Value → String
python_type null = "NoneType"
python_type (boolean b) = "bool"
python_type (integer t) = "int"
python_type (number t) = "float"
python_type (text t) = "str"
python_type (array t) = "list"
python_type (object t) = "dict"

-- The words of a problem. `repr` is Python's, of a text; `shown` prints the choices of a property.
module _ (repr : String → Text) (shown : String → Text) where
  unfoldable pub problem_text : Problem → Text
  problem_text (missing k) = codes "missing required argument " ++ repr k
  problem_text (unexpected k) = codes "unexpected argument " ++ repr k
  problem_text (wrong_type k expected v) =
      codes "argument "
      ++ (repr k
          ++ (codes " must be of type "
              ++ (codes expected ++ (codes ", got " ++ codes (python_type v)))))
  problem_text (not_a_choice k) =
      codes "argument " ++ (repr k ++ (codes " must be one of " ++ shown k))

-- An argument that the schema accepts.
abbrev fits_type : Option String → Value → Bool
fits_type none v = true
fits_type (some expected) v = type_ok expected v

abbrev fits_choice : Option (Value → Bool) → Value → Bool
fits_choice none v = true
fits_choice (some choices) v = choices v

abbrev fits_property : Schema → Option Property → Value → Bool
fits_property schema none v = not schema.closed && is_empty schema.properties
fits_property schema (some spec) v = fits_type spec.type v && fits_choice spec.choices v

-- The schema's meaning: every required key is there, and every argument is declared with a type and
-- choices that its value meets; a schema with no properties that is not closed takes any argument.
abbrev pub conforms : Schema → Dict String Value → Bool
conforms schema arguments =
    all (λ k. is_some (get arguments k)) schema.required
    && all (λ (e : String × Value). fits_property schema (get schema.properties e.0) e.1) arguments

check_required-nil_iff :
    (ks : List String) (arguments : Dict String Value)
    → (check_required ks arguments ≡ []) ↔ (all (λ k. is_some (get arguments k)) ks ≡ true)
unfolding check_required
check_required-nil_iff [] arguments = (λ _. refl, λ _. refl)
check_required-nil_iff (k ∷ ks) arguments = ground (arith, check_required-nil_iff ks arguments)

append-nil_iff : {A : Type 0} (xs ys : List A) → (xs ++ ys ≡ []) ↔ ((xs ≡ []) × (ys ≡ []))
append-nil_iff [] ys = (λ h. (refl, h), λ h. h.1)
append-nil_iff (x ∷ xs) ys = ground arith

check_argument-nil_iff :
    (schema : Schema) (k : String) (v : Value)
    → (check_argument schema k v ≡ []) ↔ (fits_property schema (get schema.properties k) v ≡ true)
unfolding check_argument
check_argument-nil_iff schema k v = ground arith

check_arguments-nil_iff :
    (schema : Schema) (arguments : Dict String Value)
    → (check_arguments schema arguments ≡ []) ↔ (
        all (λ (e : String × Value). fits_property schema (get schema.properties e.0) e.1) arguments
        ≡ true)
unfolding check_arguments
check_arguments-nil_iff schema [] = (λ _. refl, λ _. refl)
check_arguments-nil_iff schema ((k, v) ∷ rest) = ground (
  arith,
  append-nil_iff (check_argument schema k v) (check_arguments schema rest),
  check_argument-nil_iff schema k v,
  check_arguments-nil_iff schema rest,
)

-- No problem is reported exactly for the arguments that conform to the schema.
pub validate_arguments-nil_iff :
    (schema : Schema) (arguments : Dict String Value)
    → (validate_arguments schema arguments ≡ []) ↔ (conforms schema arguments ≡ true)
unfolding validate_arguments
validate_arguments-nil_iff schema arguments = ground (
  arith,
  append-nil_iff (check_required schema.required arguments) (check_arguments schema arguments),
  check_required-nil_iff schema.required arguments,
  check_arguments-nil_iff schema arguments,
)
