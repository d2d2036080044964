-- ===== src/Python/Number.antt =====
-- Python's numbers: fixed point with six decimals, and the three values that IEEE adds. Times in
-- seconds and amounts in dollars are such numbers.
use domesticoracle.Prelude.{ℕ, ◌*◌, ◌/◌, Bool, true, false, Option, none, some, if◌then◌else◌}
use domesticoracle.Prelude.Int.{ℤ, pos, pos_part, neg_part, ◌+ℤ◌, ◌-ℤ◌, ltb_ℤ, abs, sub_ℕ}

-- `fin k` is k / 1000000.
pub data Num : Type 0 where
  fin : ℤ → Num
  inf neg_inf nan : Num

abbrev pub unit : ℕ
unit = 1_000_000

-- The integer n as a number.
abbrev pub num_of : ℕ → Num
num_of n = fin (pos (n * unit))

infix 50 ◌<?◌
-- `x < y`: false where either is nan.
abbrev pub ◌<?◌ : Num → Num → Bool
fin a <? fin b = ltb_ℤ a b
fin _ <? inf = true
neg_inf <? fin _ = true
neg_inf <? inf = true
_ <? _ = false

infixl 65 ◌+?◌ ◌-?◌
abbrev pub ◌+?◌ : Num → Num → Num
fin a +? fin b = fin (a +ℤ b)
fin _ +? inf = inf
fin _ +? neg_inf = neg_inf
inf +? fin _ = inf
inf +? inf = inf
neg_inf +? fin _ = neg_inf
neg_inf +? neg_inf = neg_inf
_ +? _ = nan

abbrev pub negate : Num → Num
negate (fin a) = fin (pos 0 -ℤ a)
negate inf = neg_inf
negate neg_inf = inf
negate nan = nan

abbrev pub ◌-?◌ : Num → Num → Num
x -? y = x +? negate y

-- `abs(x)`
abbrev pub abs_num : Num → Num
abs_num (fin a) = fin (abs a)
abs_num neg_inf = inf
abs_num x = x

-- `x / d` at a positive number d of units, rounded towards zero.
abbrev pub div_num : Num → ℕ → Num
div_num (fin a) d = fin (sub_ℕ (pos_part a / d) (neg_part a / d))
div_num x d = x

-- Python's `min(x, y)` and `max(x, y)`: the first, unless the second is below (above) it.
abbrev pub min_num : Num → Num → Num
min_num x y = if y <? x then y else x

abbrev pub max_num : Num → Num → Num
max_num x y = if x <? y then y else x

-- `int(x)` rounds towards zero, and raises at inf and nan.
abbrev pub int_of : Num → Option ℤ
int_of (fin a) = some (sub_ℕ (pos_part a / unit) (neg_part a / unit))
int_of _ = none
