-- ===== src/Prelude/Integers.antt =====
-- Python's integers over the native numbers, with division that rounds down and the modulus that takes
-- the sign of the divisor.
use Prim.Native.Nat.{ℕ, zero, suc, ◌+◌, ◌-◌, ◌*◌, ◌/◌, ◌%◌, ◌<◌}
use mathlib.Core.Path.{◌≡◌, refl, ap, ◌∙◌}
use mathlib.Core.Bool.{false}
use mathlib.Core.List.{◌∷◌}
use native.Mathlib.Nat.{mod-lt, div-add-mod'}
use native.Mathlib.Omega.{arith}
use bat_ai.Prelude.Tests.{if◌then◌else◌, leb, nat_beq}
use bat_ai.Prelude.Text.{Text, decimal}

-- `negsuc n` is −(n + 1).
pub data ℤ : Type 0 where
  pos negsuc : ℕ → ℤ

-- −n
abbrev pub opposite : ℕ → ℤ
opposite zero = pos zero
opposite (suc n) = negsuc n

abbrev pub negate : ℤ → ℤ
negate (pos n) = opposite n
negate (negsuc n) = pos (suc n)

-- m − n
abbrev difference : ℕ → ℕ → ℤ
difference m n = if leb n m then pos (m - n) else opposite (n - m)

infixl 65 ◌+ℤ◌ ◌-ℤ◌
infixl 70 ◌*ℤ◌
infixr 75 ◌^ℤ◌
unfoldable pub ◌+ℤ◌ : ℤ → ℤ → ℤ
pos m +ℤ pos n = pos (m + n)
pos m +ℤ negsuc n = difference m (suc n)
negsuc m +ℤ pos n = difference n (suc m)
negsuc m +ℤ negsuc n = negsuc (suc (m + n))

unfoldable pub ◌-ℤ◌ : ℤ → ℤ → ℤ
unfolding ◌+ℤ◌
a -ℤ b = a +ℤ negate b

unfoldable pub ◌*ℤ◌ : ℤ → ℤ → ℤ
pos m *ℤ pos n = pos (m * n)
pos m *ℤ negsuc n = opposite (m * suc n)
negsuc m *ℤ pos n = opposite (suc m * n)
negsuc m *ℤ negsuc n = pos (suc m * suc n)

abbrev pub magnitude : ℤ → ℕ
magnitude (pos n) = n
magnitude (negsuc n) = suc n

-- m / n away from zero.
abbrev ceil_div : ℕ → ℕ → ℕ
ceil_div m n = if nat_beq (m % n) 0 then m / n else suc (m / n)

-- What is missing from m to the next multiple of n.
abbrev shortfall : ℕ → ℕ → ℕ
shortfall m n = if nat_beq (m % n) 0 then 0 else n - m % n

-- `a // b`, for b other than 0
unfoldable pub floor_div : ℤ → ℤ → ℤ
floor_div (pos m) (pos n) = pos (m / n)
floor_div (pos m) (negsuc n) = opposite (ceil_div m (suc n))
floor_div (negsuc m) (pos n) = opposite (ceil_div (suc m) n)
floor_div (negsuc m) (negsuc n) = pos (suc m / suc n)

-- `a % b`, for b other than 0
unfoldable pub floor_mod : ℤ → ℤ → ℤ
floor_mod (pos m) (pos n) = pos (m % n)
floor_mod (pos m) (negsuc n) = opposite (shortfall m (suc n))
floor_mod (negsuc m) (pos n) = pos (shortfall (suc m) n)
floor_mod (negsuc m) (negsuc n) = opposite (suc m % suc n)

-- `a ** n`
unfoldable pub ◌^ℤ◌ : ℤ → ℕ → ℤ
unfolding ◌*ℤ◌
a ^ℤ zero = pos 1
a ^ℤ suc n = (a ^ℤ n) *ℤ a

-- `str(a)`
unfoldable pub print : ℤ → Text
print (pos n) = decimal n
print (negsuc n) = b'-' ∷ decimal (suc n)

-- The remainder lies between 0 and the divisor, which it does not reach.
abbrev pub IsBelow : ℤ → ℤ → Type 0
IsBelow (pos r) (pos n) = r < n
IsBelow (pos r) (negsuc n) = r ≡ 0
IsBelow (negsuc r) (pos n) = r < 0
IsBelow (negsuc r) (negsuc n) = r < n

-- Rounding up, a multiple of the divisor is reached with what was missing.
ceil_div-shortfall :
    (m n : ℕ)
    → (ceil_div m (suc n) * suc n ≡ m + shortfall m (suc n)) × (shortfall m (suc n) < suc n)
ceil_div-shortfall m n =
    rounded (m / suc n) (m % suc n) (div-add-mod' m (suc n)) (mod-lt m {m = suc n} (omega arith))
  where
    rounded :
        (q r : ℕ)
        → q * suc n + r ≡ m
        → r < suc n
        → ((if nat_beq r 0 then q else suc q) * suc n ≡ m + (if nat_beq r 0 then 0 else suc n - r))
          × ((if nat_beq r 0 then 0 else suc n - r) < suc n)
    rounded q zero whole small = (omega (arith, whole), omega arith)
    rounded q (suc r) whole small =
        let more : suc q * suc n ≡ q * suc n + suc n = omega arith in
        let positive : nat_beq (suc r) 0 ≡ false = ground arith in
        rw positive (omega (arith, more, whole, small), omega (arith, small))

difference_lem : (k m r : ℕ) → k ≡ m + r → difference r k ≡ opposite m
difference_lem k zero r h = ground arith
difference_lem k (suc m) r h = ground arith

-- Sums of a number and its opposite, which are what a division's cases come to.
opposite-add-pos : (k m r : ℕ) → k ≡ m + r → opposite k +ℤ pos r ≡ opposite m
unfolding ◌+ℤ◌
opposite-add-pos zero m r h = ground arith
opposite-add-pos (suc k) m r h = difference_lem (suc k) m r h

pos-add-opposite : (k m r : ℕ) → k ≡ m + r → pos k +ℤ opposite r ≡ pos m
unfolding ◌+ℤ◌
pos-add-opposite k m zero h = ground arith
pos-add-opposite k m (suc r) h = ground arith

opposite-add-opposite : (k m r : ℕ) → k + r ≡ m → opposite k +ℤ opposite r ≡ opposite m
unfolding ◌+ℤ◌
opposite-add-opposite zero m zero h = ground arith
opposite-add-opposite zero m (suc r) h = ground arith
opposite-add-opposite (suc k) m zero h = ground arith
opposite-add-opposite (suc k) m (suc r) h = ground arith

opposite-mul-pos : (q n : ℕ) → opposite q *ℤ pos n ≡ opposite (q * n)
unfolding ◌*ℤ◌
opposite-mul-pos zero n = let z : 0 * n ≡ 0 = omega arith in rw z refl
opposite-mul-pos (suc q) n = refl

opposite-mul-negsuc : (q n : ℕ) → opposite q *ℤ negsuc n ≡ pos (q * suc n)
unfolding ◌*ℤ◌
opposite-mul-negsuc zero n = let z : 0 * suc n ≡ 0 = omega arith in rw z refl
opposite-mul-negsuc (suc q) n = refl

pos-mul-negsuc : (q n : ℕ) → pos q *ℤ negsuc n ≡ opposite (q * suc n)
unfolding ◌*ℤ◌
pos-mul-negsuc q n = refl

opposite-IsBelow : (r n : ℕ) → r < suc n → IsBelow (opposite r) (negsuc n)
opposite-IsBelow zero n h = refl
opposite-IsBelow (suc r) n h = omega arith

-- Division and modulus as mathematics has them: b · (a // b) + a % b is a, and the remainder lies below
-- the divisor.
pub floor_div-floor_mod :
    (a b : ℤ)
    → 0 < magnitude b
    → (floor_div a b *ℤ b +ℤ floor_mod a b ≡ a) × IsBelow (floor_mod a b) b
unfolding floor_div floor_mod
floor_div-floor_mod a (pos zero) h = absurd (omega arith)
floor_div-floor_mod (pos m) (pos (suc n)) h =
    (unfold ◌*ℤ◌ ◌+ℤ◌ in ap pos (div-add-mod' m (suc n)), mod-lt m {m = suc n} (omega arith))
floor_div-floor_mod (pos m) (negsuc n) h =
    let (whole, small) = ceil_div-shortfall m n in
    (
      ap (λ x. x +ℤ opposite (shortfall m (suc n))) (opposite-mul-negsuc (ceil_div m (suc n)) n)
          ∙ pos-add-opposite _ m _ whole,
      opposite-IsBelow _ n small,
    )
floor_div-floor_mod (negsuc m) (pos (suc n)) h =
    let (whole, small) = ceil_div-shortfall (suc m) n in
    (
      ap (λ x. x +ℤ pos (shortfall (suc m) (suc n)))
            (opposite-mul-pos (ceil_div (suc m) (suc n)) (suc n))
          ∙ opposite-add-pos _ (suc m) _ whole,
      small,
    )
floor_div-floor_mod (negsuc m) (negsuc n) h = (
  ap (λ x. x +ℤ opposite (suc m % suc n)) (pos-mul-negsuc (suc m / suc n) n)
      ∙ opposite-add-opposite _ (suc m) _ (div-add-mod' (suc m) (suc n)),
  opposite-IsBelow _ n (mod-lt (suc m) {m = suc n} (omega arith)),
)
