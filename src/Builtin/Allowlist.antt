-- ===== src/Builtin/Allowlist.antt =====
-- bat/tools/builtin.py: what the allowlist of `_eval_node` lets through.
use bat_ai.Prelude.{
  ◌≡◌, refl, Bool, true, false, ◌&&◌, ◌||◌, ◌==◌, not, none, some, String, arith, string_eq,
  contains, is_some, Option-cases, inl, inr, Bool-cases,
}
use bat_ai.Tools.Registry.{Outcome, returns, raises, times_out, crashes, cancelled}
use bat_ai.Builtin.Calculator.{
  Constant, boolean, integer, float, other_constant, Node, Nodes, constant, name, binary, unary,
  call, sequence, other, end, node, Value, Values, Floats, bin_op, unary_op, functions,
  not_permitted, follow, constant_of, eval_constant, operate_on, sign_of, call_on, eval, eval_all,
  binary_on, unary_on, items,
}

abbrev is_constant : String → Bool
is_constant id = id == "pi" || (id == "e" || id == "tau")

is_number : {F : Type 0} → Constant F → Bool
is_number (integer n) = true
is_number (float x) = true
is_number _ = false

-- Every node is a number, one of the three constants, an operator of the tables on allowed
-- operands, a call by name and without keywords of a function of the table on allowed arguments,
-- or a list of allowed elements.
unfoldable mutual
  unfolding is_number

  pub is_arithmetic : {F : Type 0} → Node F → Bool
  is_arithmetic (constant c) = is_number c
  is_arithmetic (name id) = is_constant id
  is_arithmetic (binary class left right) =
      let l = is_arithmetic left in
      let r = is_arithmetic right in is_some (bin_op class) && (l && r)
  is_arithmetic (unary class operand) =
      let o = is_arithmetic operand in is_some (unary_op class) && o
  is_arithmetic (call none args keywords) = false
  is_arithmetic (call (some f) args keywords) =
      let a = all_arithmetic args in not keywords && (contains f functions && a)
  is_arithmetic (sequence elts) = all_arithmetic elts
  is_arithmetic (other class) = false

  pub all_arithmetic : {F : Type 0} → Nodes F → Bool
  all_arithmetic end = true
  all_arithmetic (node n ns) =
      let first = is_arithmetic n in let rest = all_arithmetic ns in first && rest

module _ {A B : Type 0} where
  follow-returns :
      (o : Outcome A) (f : A → Outcome B) (b : B)
      → follow o f ≡ returns b
      → (a : A) × (o ≡ returns a) × (f a ≡ returns b)
  follow-returns (returns a) f b h = (a, refl, h)
  follow-returns (raises e) f b h = absurd (ground arith)
  follow-returns times_out f b h = absurd (ground arith)
  follow-returns crashes f b h = absurd (ground arith)
  follow-returns cancelled f b h = absurd (ground arith)

module _ {F : Type 0} (py : Floats F) where
  constant-is_number :
      (c : Constant F) (v : Value F) → eval_constant py c ≡ returns v → is_number c ≡ true
  unfolding eval_constant is_number not_permitted
  constant-is_number (boolean b) v h = absurd (ground arith)
  constant-is_number (integer n) v h = refl
  constant-is_number (float x) v h = refl
  constant-is_number other_constant v h = absurd (ground arith)

  constant_of-is_constant :
      (id : String) (v : Value F) → constant_of py id ≡ some v → is_constant id ≡ true
  unfolding constant_of
  constant_of-is_constant id v h = ground arith

  mutual
    unfolding eval is_arithmetic not_permitted binary_on unary_on

    node-is_arithmetic : (n : Node F) (v : Value F) → eval py n ≡ returns v → is_arithmetic n ≡ true
    node-is_arithmetic (constant c) v h = constant-is_number c v h
    node-is_arithmetic (name id) v h = elim (Option-cases (constant_of py id)) [
      | inl absent ↦ absurd (ground arith)
      | inr (w, there) ↦ constant_of-is_constant id w there
    ]
    node-is_arithmetic (binary class left right) v h = elim (Option-cases (bin_op class)) [
      | inl absent ↦ absurd (ground arith)
      | inr (op, there) ↦
          let both : follow (eval py left) (λ x. follow (eval py right) λ y. operate_on py op x y)
              ≡ returns v =
            ground arith in
          let (x, at_left, next) = follow-returns (eval py left) _ v both in
          let (y, at_right, _) = follow-returns (eval py right) _ v next in
          ground (arith, node-is_arithmetic left x at_left, node-is_arithmetic right y at_right)
    ]
    node-is_arithmetic (unary class operand) v h = elim (Option-cases (unary_op class)) [
      | inl absent ↦ absurd (ground arith)
      | inr (op, there) ↦
          let one : follow (eval py operand) (sign_of py op) ≡ returns v = ground arith in
          let (x, at, _) = follow-returns (eval py operand) (sign_of py op) v one in
          ground (arith, node-is_arithmetic operand x at)
    ]
    node-is_arithmetic (call none args keywords) v h = absurd (ground arith)
    node-is_arithmetic (call (some f) args keywords) v h =
        elim (Bool-cases (not keywords && contains f functions)) [
          | inl allowed ↦
              let one : follow (eval_all py args) (call_on py f) ≡ returns v = ground arith in
              let (xs, at, _) = follow-returns (eval_all py args) (call_on py f) v one in
              ground (arith, nodes-all_arithmetic args xs at)
          | inr refused ↦ absurd (ground arith)
        ]
    node-is_arithmetic (sequence elts) v h =
        let (xs, at, _) = follow-returns (eval_all py elts) (λ vs. returns (items vs)) v h in
        nodes-all_arithmetic elts xs at
    node-is_arithmetic (other class) v h = absurd (ground arith)

    nodes-all_arithmetic :
        (ns : Nodes F) (vs : Values F) → eval_all py ns ≡ returns vs → all_arithmetic ns ≡ true
    nodes-all_arithmetic end vs h = refl
    nodes-all_arithmetic (node n ns) vs h =
        let (x, at, next) = follow-returns (eval py n) _ vs h in
        let (xs, rest, _) = follow-returns (eval_all py ns) _ vs next in
        ground (arith, node-is_arithmetic n x at, nodes-all_arithmetic ns xs rest)

  -- An expression has a value only if every node of it is allowed: nothing that stands anywhere in
  -- it, an attribute, a subscript, a comprehension, an unknown name or a call of anything else, can
  -- be evaluated, whatever Python's floats do.
  pub eval-is_arithmetic :
      (n : Node F) (v : Value F) → eval py n ≡ returns v → is_arithmetic n ≡ true
  eval-is_arithmetic n v h = node-is_arithmetic n v h
