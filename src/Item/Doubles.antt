-- ===== src/Item/Doubles.antt =====
-- Python's floats, IEEE 754 doubles, for the rate of the flapping detection in
-- alignak/objects/schedulingitem.py: those that are not negative, each as the number of times that
-- it holds the least one, 2 ^ -1074. Each operation is rounded to the nearest double, to the even one
-- between two. No rate comes near an overflow, which is left out, and integers are below 2 ^ 53.
use alignak.Prelude.{ℕ, zero, suc, ◌+◌, ◌-◌, ◌*◌, ◌/◌, ◌%◌, ltb, ◌==◌, ◌&&◌, ◌||◌, if◌then◌else◌}
use Prim.Native.Nat.{◌^◌, compare, Ordering}

abbrev pub Double : Type 0
Double = ℕ

-- Enough halvings for each double: 1074 and 1024.
abbrev halvings : ℕ
halvings = 2098

-- How many halvings bring a number below 2 ^ 53.
unfoldable pub excess : ℕ → ℕ → ℕ
excess zero x = zero
excess (suc n) x = elim (compare x (2 ^ 53)) [ Ordering.lt ↦ zero | _ ↦ suc (excess n (x / 2)) ]

abbrev rounds_up : ℕ → ℕ → ℕ → ℕ
rounds_up quotient rest step =
    if ltb step (2 * rest) || (2 * rest == step && quotient % 2 == 1)
    then suc quotient
    else quotient

-- The double nearest to a fraction p / q of the least one, for q not 0.
unfoldable pub nearest : ℕ → ℕ → Double
nearest p q =
    let scale = 2 ^ excess halvings (p / q) in
    let step = q * scale in rounds_up (p / step) (p % step) step * scale

unfoldable pub float : ℕ → Double
float n = n * 2 ^ 1074

-- The float of a literal with one decimal.
unfoldable pub tenths : ℕ → Double
unfolding float nearest
tenths n = nearest (float n) 10

unfoldable pub float_add : Double → Double → Double
unfolding nearest
float_add x y = nearest (x + y) 1

unfoldable pub float_sub : Double → Double → Double
unfolding nearest
float_sub x y = nearest (x - y) 1

-- A float times an integer, and divided by one.
unfoldable pub float_mul : Double → ℕ → Double
unfolding nearest
float_mul x n = nearest (x * n) 1

unfoldable pub float_div : Double → ℕ → Double
unfolding nearest
float_div x n = nearest x n
