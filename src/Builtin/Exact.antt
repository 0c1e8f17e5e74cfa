-- ===== src/Builtin/Exact.antt =====
-- bat/tools/builtin.py: the exact arithmetic of `_eval_node` on integers, against what the expression
-- means.
use bat_ai.Prelude.{
  ◌≡◌, refl, ◌∙◌, ◌⊎◌, inl, inr, ℕ, Bool, true, false, some, String, arith, nat_beq, Bool-cases,
  string_eq,
}
use bat_ai.Prelude.Integers.{
  ℤ, pos, negate, magnitude, ◌+ℤ◌, ◌-ℤ◌, ◌*ℤ◌, floor_div, floor_mod, IsBelow, floor_div-floor_mod,
}
use bat_ai.Prelude.Text.{codes}
use bat_ai.Domain.Errors.{error, tool}
use bat_ai.Tools.Registry.{Outcome, returns, raises}
use bat_ai.Builtin.Calculator.{
  integer, Node, constant, binary, unary, Value, exact, Floats, BinOp, add, sub, mult, div,
  floor_division, modulo, power, UnaryOp, plus, minus, bin_op, unary_op, eval, eval_constant,
  operate_on, sign_of, apply_operator, combine, follow, binary_on, unary_on,
}

-- The operators that stay among the integers.
unfoldable pub is_exact : BinOp → Bool
is_exact div = false
is_exact power = false
is_exact _ = true

-- Integer literals under + - * // % and the signs.
pub data IsIntegral {F : Type 0} : Node F → Type 0 where
  number : (n : ℕ) → IsIntegral (constant (integer n))
  combined :
      (class : String) (op : BinOp) {left right : Node F}
      → bin_op class ≡ some op
      → is_exact op ≡ true
      → IsIntegral left
      → IsIntegral right
      → IsIntegral (binary class left right)
  signed :
      (class : String) (op : UnaryOp) {operand : Node F}
      → unary_op class ≡ some op
      → IsIntegral operand
      → IsIntegral (unary class operand)

-- c is what the operator gives for a and b: a quotient and its remainder are known by their equation
-- and by where the remainder lies.
abbrev pub Gives : BinOp → ℤ → ℤ → ℤ → Type 0
Gives add a b c = c ≡ a +ℤ b
Gives sub a b c = c ≡ a -ℤ b
Gives mult a b c = c ≡ a *ℤ b
Gives floor_division a b c = (r : ℤ) × (c *ℤ b +ℤ r ≡ a) × IsBelow r b
Gives modulo a b c = (q : ℤ) × (q *ℤ b +ℤ c ≡ a) × IsBelow c b
Gives div a b c = ⊥
Gives power a b c = ⊥

abbrev pub signed_value : UnaryOp → ℤ → ℤ
signed_value plus a = a
signed_value minus a = negate a

-- What an expression means.
pub data Denotes {F : Type 0} : Node F → ℤ → Type 0 where
  number : (n : ℕ) → Denotes (constant (integer n)) (pos n)
  combined :
      (class : String) (op : BinOp) {left right : Node F} {a b c : ℤ}
      → bin_op class ≡ some op
      → Denotes left a
      → Denotes right b
      → Gives op a b c
      → Denotes (binary class left right) c
  signed :
      (class : String) (op : UnaryOp) {operand : Node F} {a : ℤ}
      → unary_op class ≡ some op
      → Denotes operand a
      → Denotes (unary class operand) (signed_value op a)

-- Somewhere in the expression a divisor is zero.
pub data DividesByZero {F : Type 0} : Node F → Type 0 where
  here :
      (class : String) {left right : Node F} {b : ℤ}
      → Denotes right b
      → magnitude b ≡ 0
      → DividesByZero (binary class left right)
  at_left :
      (class : String) {left right : Node F}
      → DividesByZero left
      → DividesByZero (binary class left right)
  at_right :
      (class : String) {left right : Node F}
      → DividesByZero right
      → DividesByZero (binary class left right)
  below :
      (class : String) {operand : Node F}
      → DividesByZero operand
      → DividesByZero (unary class operand)

abbrev pub division_by_zero : {F : Type 0} → Outcome (Value F)
division_by_zero = raises (error tool (codes "division by zero"))

module _ {F : Type 0} (py : Floats F) where
  operate_on-Gives :
      (op : BinOp) (a b : ℤ)
      → is_exact op ≡ true
      → ((c : ℤ) × (operate_on py op (exact a) (exact b) ≡ returns (exact c)) × Gives op a b c)
        ⊎ ((operate_on py op (exact a) (exact b) ≡ division_by_zero) × (magnitude b ≡ 0))
  unfolding operate_on apply_operator combine is_exact
  operate_on-Gives add a b h = inl (a +ℤ b, refl, refl)
  operate_on-Gives sub a b h = inl (a -ℤ b, refl, refl)
  operate_on-Gives mult a b h = inl (a *ℤ b, refl, refl)
  operate_on-Gives div a b h = absurd (ground arith)
  operate_on-Gives power a b h = absurd (ground arith)
  operate_on-Gives floor_division a b h = elim (Bool-cases (nat_beq (magnitude b) 0)) [
    | inl nothing ↦ inr (rw nothing refl, ground arith)
    | inr some_b ↦
        let (whole, small) = floor_div-floor_mod a b (ground arith) in
        inl (floor_div a b, rw some_b refl, (floor_mod a b, whole, small))
  ]
  operate_on-Gives modulo a b h = elim (Bool-cases (nat_beq (magnitude b) 0)) [
    | inl nothing ↦ inr (rw nothing refl, ground arith)
    | inr some_b ↦
        let (whole, small) = floor_div-floor_mod a b (ground arith) in
        inl (floor_mod a b, rw some_b refl, (floor_div a b, whole, small))
  ]

  sign_of_lem :
      (op : UnaryOp) (a : ℤ) → sign_of py op (exact a) ≡ returns (exact (signed_value op a))
  unfolding sign_of
  sign_of_lem plus a = refl
  sign_of_lem minus a = refl

  eval-binary :
      (class : String) (op : BinOp) (left right : Node F)
      → bin_op class ≡ some op
      → eval py (binary class left right)
        ≡ follow (eval py left) (λ v. follow (eval py right) (λ w. operate_on py op v w))
  unfolding eval
  eval-binary class op left right h = rw (h, binary_on) refl

  eval-unary :
      (class : String) (op : UnaryOp) (operand : Node F)
      → unary_op class ≡ some op
      → eval py (unary class operand) ≡ follow (eval py operand) (sign_of py op)
  unfolding eval
  eval-unary class op operand h = rw (h, unary_on) refl

  -- An expression of integer literals under + - * // % and signs never crashes the tool, and is exact:
  -- it evaluates to the integer that it means, a quotient rounded down and a remainder of the divisor's
  -- sign, or, where a divisor somewhere in it means zero, to the error for a division by zero.
  pub eval-Denotes :
      (n : Node F)
      → IsIntegral n
      → ((c : ℤ) × (eval py n ≡ returns (exact c)) × Denotes n c)
        ⊎ ((eval py n ≡ division_by_zero) × DividesByZero n)
  eval-Denotes _ (number n) = inl (pos n, unfold eval eval_constant in refl, number n)
  eval-Denotes _ (signed class op {operand} there i) = elim (eval-Denotes operand i) [
    | inl (a, at, means) ↦ inl (
      signed_value op a,
      eval-unary class op operand there ∙ rw at (sign_of_lem op a),
      signed class op there means,
    )
    | inr (fails, at_zero) ↦
        inr (eval-unary class op operand there ∙ rw fails refl, below class at_zero)
  ]
  eval-Denotes _ (combined class op {left} {right} there exact_op i j) =
      elim (eval-Denotes left i) [
        | inr (fails, at_zero) ↦
            inr (eval-binary class op left right there ∙ rw fails refl, at_left class at_zero)
        | inl (a, at, means) ↦ elim (eval-Denotes right j) [
          | inr (fails, at_zero) ↦
              inr (
                eval-binary class op left right there ∙ rw (at, fails) refl,
                at_right class at_zero,
              )
          | inl (b, at', means') ↦ elim (operate_on-Gives op a b exact_op) [
            | inl (c, gives, is) ↦ inl (
              c,
              eval-binary class op left right there ∙ rw (at, at') gives,
              combined class op there means means' is,
            )
            | inr (fails, at_zero) ↦ inr (
              eval-binary class op left right there ∙ rw (at, at') fails,
              here class means' at_zero,
            )
          ]
        ]
      ]
