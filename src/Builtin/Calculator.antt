-- ===== src/Builtin/Calculator.antt =====
-- bat/tools/builtin.py: `evaluate_expression`. The tree is what Python's `ast.parse` gives. Integers
-- are exact; floats, with what Python's operators and functions do to them, are a parameter.
use bat_ai.Prelude.{
  ℕ, zero, suc, ◌*◌, Bool, true, false, List, [], ◌∷◌, ◌++◌, Option, none, some, String,
  if◌then◌else◌, string_eq, ltb, nat_beq, length, contains, ◌==◌, ◌&&◌, ◌||◌, not, ◌⊎◌, inl, inr,
}
use bat_ai.Prelude.Integers.{
  ℤ, pos, negsuc, negate, magnitude, ◌+ℤ◌, ◌-ℤ◌, ◌*ℤ◌, ◌^ℤ◌, floor_div, floor_mod,
}
use bat_ai.Prelude.Text.{Text, codes}
use bat_ai.Domain.Errors.{error, tool}
use bat_ai.Tools.Registry.{Outcome, returns, raises, times_out, crashes, cancelled}

-- A constant of the tree; `other_constant` is a text, bytes, a complex number and the like.
pub data Constant (F : Type 0) : Type 0 where
  boolean : Bool → Constant F
  integer : ℕ → Constant F
  float : F → Constant F
  other_constant : Constant F

-- The nodes that the evaluator has a branch for, and any other by the name of its class. An operator
-- is the name of its class. A call has the name that it calls, if it calls a name, its arguments and
-- whether there are keywords.
mutual
  pub data Node (F : Type 0) : Type 0 where
    constant : Constant F → Node F
    name : String → Node F
    binary : String → Node F → Node F → Node F
    unary : String → Node F → Node F
    call : Option String → Nodes F → Bool → Node F
    sequence : Nodes F → Node F
    other : String → Node F

  pub data Nodes (F : Type 0) : Type 0 where
    end : Nodes F
    node : Node F → Nodes F → Nodes F

-- What an expression can come to: a number, or the list that a tuple or a list gives.
mutual
  pub data Value (F : Type 0) : Type 0 where
    exact : ℤ → Value F
    inexact : F → Value F
    items : Values F → Value F

  pub data Values (F : Type 0) : Type 0 where
    empty : Values F
    item : Value F → Values F → Values F

-- The entries of `_BIN_OPS` and `_UNARY_OPS`.
pub data BinOp : Type 0 where
  add sub mult div floor_division modulo power : BinOp

pub data UnaryOp : Type 0 where
  plus minus : UnaryOp

-- How one of Python's operators or functions ends. `refused` is a `ValueError`, an `OverflowError` or
-- a `TypeError`, with its message.
pub data Computed (F : Type 0) : Type 0 where
  value : Value F → Computed F
  zero_division : Computed F
  refused : Text → Computed F

-- Python's floats: the constants, what an operator does unless both sides are integers (or the result
-- of integers is a float), a comparison of magnitudes with a limit, and the functions of the table.
pub record Floats (F : Type 0) : Type 0 where
  pub pi : F
  pub e : F
  pub tau : F
  pub operate : BinOp → Value F → Value F → Computed F
  pub opposite_of : UnaryOp → Value F → Computed F
  pub exceeds : F → ℕ → Bool
  pub function : String → Values F → Computed F

unfoldable pub bin_op : String → Option BinOp
bin_op op =
    if op == "Add"
    then some add
    else if op == "Sub"
    then some sub
    else if op == "Mult"
    then some mult
    else if op == "Div"
    then some div
    else if op == "FloorDiv"
    then some floor_division
    else if op == "Mod"
    then some modulo
    else if op == "Pow"
    then some power
    else none

unfoldable pub unary_op : String → Option UnaryOp
unary_op op = if op == "UAdd" then some plus else if op == "USub" then some minus else none

abbrev pub functions : List String
functions =
    "abs" ∷ "round" ∷ "min" ∷ "max" ∷ "sum" ∷ "sqrt" ∷ "factorial" ∷ "log" ∷ "log2" ∷ "log10"
    ∷ "exp" ∷ "sin" ∷ "cos" ∷ "tan" ∷ "floor" ∷ "ceil" ∷ "gcd" ∷ []

abbrev pub max_exponent : ℕ
max_exponent = 10000

abbrev pub max_factorial : ℕ
max_factorial = 2000

unfoldable pub factorial : ℕ → ℕ
factorial zero = 1
factorial (suc n) = suc n * factorial n

unfoldable pub not_permitted {ℓ} : {A : Type ℓ} → String → Outcome A
not_permitted class =
    raises (error tool (codes class ++ codes " is not permitted in an arithmetic expression"))

abbrev pub follow {ℓ κ} : {A : Type ℓ} {B : Type κ} → Outcome A → (A → Outcome B) → Outcome B
follow (returns a) f = f a
follow (raises e) f = raises e
follow times_out f = times_out
follow crashes f = crashes
follow cancelled f = cancelled

module _ {F : Type 0} (py : Floats F) where
  open py use {pi, e, tau, operate, opposite_of, exceeds, function}

  -- `_CONSTANTS`
  unfoldable pub constant_of : String → Option (Value F)
  constant_of id =
      if id == "pi"
      then some (inexact pi)
      else if id == "e"
      then some (inexact e)
      else if id == "tau"
      then some (inexact tau)
      else none

  -- `_too_big`
  unfoldable pub too_big : Value F → ℕ → Bool
  too_big (exact a) limit = ltb limit (magnitude a)
  too_big (inexact x) limit = exceeds x limit
  too_big (items vs) limit = false

  -- An operator on two integers; a true quotient and a negative power are floats.
  unfoldable pub combine : BinOp → ℤ → ℤ → Computed F
  combine add a b = value (exact (a +ℤ b))
  combine sub a b = value (exact (a -ℤ b))
  combine mult a b = value (exact (a *ℤ b))
  combine div a b = operate div (exact a) (exact b)
  combine floor_division a b =
      if nat_beq (magnitude b) 0 then zero_division else value (exact (floor_div a b))
  combine modulo a b =
      if nat_beq (magnitude b) 0 then zero_division else value (exact (floor_mod a b))
  combine power a (pos n) = value (exact (a ^ℤ n))
  combine power a (negsuc n) = operate power (exact a) (exact (negsuc n))

  unfoldable pub apply_operator : BinOp → Value F → Value F → Computed F
  unfolding combine
  apply_operator op (exact a) (exact b) = combine op a b
  apply_operator op v w = operate op v w

  is_power : BinOp → Bool
  is_power power = true
  is_power _ = false

  -- The branch of `BinOp`: only a division by zero is caught.
  unfoldable pub operate_on : BinOp → Value F → Value F → Outcome (Value F)
  unfolding is_power too_big apply_operator
  operate_on op v w =
      if is_power op && too_big w max_exponent
      then raises (error tool (codes "exponent above 10000 is not permitted"))
      else elim (apply_operator op v w) [
        | value u ↦ returns u
        | zero_division ↦ raises (error tool (codes "division by zero"))
        | refused message ↦ crashes
      ]

  -- The branch of `UnaryOp`, where nothing is caught.
  unfoldable pub sign_of : UnaryOp → Value F → Outcome (Value F)
  sign_of plus (exact a) = returns (exact a)
  sign_of minus (exact a) = returns (exact (negate a))
  sign_of op v = elim (opposite_of op v) [ value u ↦ returns u | _ ↦ crashes ]

  -- The functions of one integer whose result is one; the others are Python's.
  unfoldable pub apply_function : String → Values F → Computed F
  unfolding factorial
  apply_function f (item (exact a) empty) =
      if f == "abs"
      then value (exact (pos (magnitude a)))
      else if f == "floor" || f == "ceil" || f == "round"
      then value (exact a)
      else if f == "factorial"
      then elim a [
        | pos n ↦ value (exact (pos (factorial n)))
        | negsuc n ↦ refused (codes "factorial() not defined for negative values")
      ]
      else function f (item (exact a) empty)
  apply_function f vs = function f vs

  first_too_big : Values F → Bool
  unfolding too_big
  first_too_big empty = false
  first_too_big (item v vs) = too_big v max_factorial

  -- The branch of `Call`: a division by zero is not among what it catches.
  unfoldable pub call_on : String → Values F → Outcome (Value F)
  unfolding first_too_big apply_function
  call_on f vs =
      if f == "factorial" && first_too_big vs
      then raises (error tool (codes "factorial above 2000 is not permitted"))
      else elim (apply_function f vs) [
        | value u ↦ returns u
        | zero_division ↦ crashes
        | refused message ↦ raises (error tool (codes f ++ (codes ": " ++ message)))
      ]

  unfoldable pub eval_constant : Constant F → Outcome (Value F)
  unfolding not_permitted
  eval_constant (boolean b) =
      raises (error tool (codes "booleans are not valid in an arithmetic expression"))
  eval_constant (integer n) = returns (exact (pos n))
  eval_constant (float x) = returns (inexact x)
  eval_constant other_constant = not_permitted "Constant"

  -- The operands of an operator that is not in its table are not evaluated.
  unfoldable pub binary_on : String → Outcome (Value F) → Outcome (Value F) → Outcome (Value F)
  unfolding not_permitted bin_op operate_on
  binary_on class lhs rhs = elim (bin_op class) [
    | none ↦ not_permitted "BinOp"
    | some op ↦ follow lhs λ v. follow rhs λ w. operate_on op v w
  ]

  unfoldable pub unary_on : String → Outcome (Value F) → Outcome (Value F)
  unfolding not_permitted unary_op sign_of
  unary_on class operand = elim (unary_op class) [
    | none ↦ not_permitted "UnaryOp"
    | some op ↦ follow operand (sign_of op)
  ]

  -- `_eval_node`, and the list of the nodes' values.
  unfoldable mutual
    unfolding eval_constant constant_of not_permitted binary_on unary_on call_on

    pub eval : Node F → Outcome (Value F)
    eval (constant c) = eval_constant c
    eval (name id) = elim (constant_of id) [ none ↦ not_permitted "Name" | some v ↦ returns v ]
    eval (binary class left right) =
        let lhs = eval left in let rhs = eval right in binary_on class lhs rhs
    eval (unary class operand) = let v = eval operand in unary_on class v
    eval (call none args keywords) = not_permitted "Call"
    eval (call (some f) args keywords) =
        let vs = eval_all args in
        if not keywords && contains f functions then follow vs (call_on f) else not_permitted "Call"
    eval (sequence elts) = follow (eval_all elts) λ vs. returns (items vs)
    eval (other class) = not_permitted class

    pub eval_all : Nodes F → Outcome (Values F)
    eval_all end = returns empty
    eval_all (node n ns) =
        let v = eval n in let vs = eval_all ns in follow v λ u. follow vs λ us. returns (item u us)

  -- `evaluate_expression`; a syntax error is its message.
  unfoldable pub evaluate_expression : (Text → Text ⊎ Node F) → Text → Outcome (Value F)
  unfolding eval
  evaluate_expression parse expression =
      if ltb 500 (length expression)
      then raises (error tool (codes "expression is too long"))
      else elim (parse expression) [
        | inl message ↦ raises (error tool (codes "could not parse expression: " ++ message))
        | inr tree ↦ eval tree
      ]
