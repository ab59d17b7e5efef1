-- ===== src/Idgen/Snowflake/Bits.antt =====
-- The bit operations that `Next` and `Parse` of common/idgen/snowflake.go use: an `|` of numbers with
-- no bit in common is a sum, and an `&` with a mask of ones is a remainder.
use Prim.Native.Nat.{digits, bit_or, bit_and, bit_or-bitwise, bit_and-bitwise}
use mathlib.Core.Path.{ap₂}
use native.Mathlib.Nat.{two-pow-succ}
use game01_server.Prelude.{
  ℕ, zero, suc, ◌+◌, ◌*◌, ◌/◌, ◌%◌, ◌^◌, ◌<◌, ◌≤◌, ◌≡◌, refl, min, max, ap, sym, ◌∙◌, arith,
}

-- Binary digits, lowest first, by the recursion behind `|` and `&`.
module _ (stop : ℕ → ℕ) (bit : ℕ → ℕ → ℕ) where
  run_out : (n y : ℕ) → digits stop bit n zero y ≡ stop y
  run_out zero y = refl
  run_out (suc n) y = refl

  -- Any count of digits that covers the first number gives the same.
  enough : (k l x y : ℕ) → x ≤ k → x ≤ l → digits stop bit k x y ≡ digits stop bit l x y
  enough k l zero y h i = run_out k y ∙ sym (run_out l y)
  enough zero l (suc x) y h i = absurd (omega (arith, h))
  enough (suc k) zero (suc x) y h i = absurd (omega (arith, i))
  enough (suc k) (suc l) (suc x) y h i =
      let rest = enough k l (suc x / 2) (y / 2) (omega arith) (omega arith) in
      ap (λ high. high * 2 + bit (suc x % 2) (y % 2)) rest

  low_digit :
      (x y : ℕ)
      → digits stop bit (suc x) (suc x) y
        ≡ digits stop bit (suc x / 2) (suc x / 2) (y / 2) * 2 + bit (suc x % 2) (y % 2)
  low_digit x y =
      ap (λ high. high * 2 + bit (suc x % 2) (y % 2))
        (enough x (suc x / 2) (suc x / 2) (y / 2) (omega arith) (omega arith))

-- `|` and `&` of numbers by their halves and their lowest digits.
or_halves : (x y : ℕ) → bit_or x y ≡ bit_or (x / 2) (y / 2) * 2 + max (x % 2) (y % 2)
or_halves zero y = rw (bit_or-bitwise 0 y, bit_or-bitwise 0 (y / 2)) (omega arith)
or_halves (suc x) y =
    rw (bit_or-bitwise (suc x) y, bit_or-bitwise (suc x / 2) (y / 2)) (low_digit (λ d. d) max x y)

and_halves : (x y : ℕ) → bit_and x y ≡ bit_and (x / 2) (y / 2) * 2 + min (x % 2) (y % 2)
and_halves zero y = omega (arith, bit_and-bitwise 0 y, bit_and-bitwise 0 (y / 2))
and_halves (suc x) y =
    rw (bit_and-bitwise (suc x) y, bit_and-bitwise (suc x / 2) (y / 2)) (low_digit (λ d. 0) min x y)

-- `| 0` and `& 0`, for the numbers up to a bound.
none_below : (bound x : ℕ) → x ≤ bound → (bit_or x 0 ≡ x) × (bit_and x 0 ≡ 0)
none_below bound zero le = (bit_or-bitwise 0 0, bit_and-bitwise 0 0)
none_below zero (suc x) le = absurd (omega arith)
none_below (suc bound) (suc x) le =
    let half = none_below bound (suc x / 2) (omega arith) in
    (omega (arith, or_halves (suc x) 0, half.0), omega (arith, and_halves (suc x) 0, half.1))

bit_or-zero : (a : ℕ) → bit_or a 0 ≡ a
bit_or-zero a = (none_below a a (omega arith)).0

double_pow : (h k : ℕ) → h * 2 ^ suc k ≡ 2 * (h * 2 ^ k)
double_pow h k = omega (arith, ap (λ (t : ℕ). h * t) (two-pow-succ k))

bit_or_double : (x y l : ℕ) → y ≡ 2 * x → bit_or y l ≡ bit_or x (l / 2) * 2 + l % 2
bit_or_double x y l e =
    let half : y / 2 ≡ x = omega arith in
    omega (arith, or_halves y l, ap (λ (t : ℕ). bit_or t (l / 2)) half)

-- The low `k` bits are free, so the sum has no carry.
pub bit_or-add : (k h l : ℕ) → l < 2 ^ k → bit_or (h * 2 ^ k) l ≡ h * 2 ^ k + l
bit_or-add zero h l lt = let e : l ≡ 0 = omega arith in rw e (omega (arith, bit_or-zero (h * 1)))
bit_or-add (suc k) h l lt = omega (
  arith,
  double_pow h k,
  two-pow-succ k,
  bit_or_double (h * 2 ^ k) (h * 2 ^ suc k) l (double_pow h k),
  bit_or-add k h (l / 2) (omega (arith, two-pow-succ k)),
)

-- `k` ones.
abbrev pub mask : ℕ → ℕ
mask zero = 0
mask (suc k) = 2 * mask k + 1

bit_and_odd : (a b c m : ℕ) → a / 2 ≡ b → m ≡ 2 * c + 1 → bit_and a m ≡ bit_and b c * 2 + a % 2
bit_and_odd a b c m e f =
    let half : m / 2 ≡ c = omega arith in omega (arith, and_halves a m, ap₂ bit_and e half)

bit_and-mask_sum : (k a q r : ℕ) → r < 2 ^ k → a ≡ q * 2 ^ k + r → bit_and a (mask k) ≡ r
bit_and-mask_sum zero a q r lt e = omega (arith, (none_below a a (omega arith)).1)
bit_and-mask_sum (suc k) a q r lt e = omega (
  arith,
  double_pow q k,
  bit_and_odd a (a / 2) (mask k) (2 * mask k + 1) refl refl,
  bit_and-mask_sum k (a / 2) q (r / 2) (omega (arith, two-pow-succ k))
      (omega (arith, double_pow q k)),
)

pub bit_and-sequence : (a : ℕ) → bit_and a 4095 ≡ a % 4096
bit_and-sequence a = bit_and-mask_sum 12 a (a / 4096) (a % 4096) (omega arith) (omega arith)

pub bit_and-node : (a : ℕ) → bit_and a 1023 ≡ a % 1024
bit_and-node a = bit_and-mask_sum 10 a (a / 1024) (a % 1024) (omega arith) (omega arith)
