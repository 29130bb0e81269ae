-- ===== src/Base/Bits.antt =====
-- Laws of `bit_and` and `bit_or` at variables, from the digit recursion: masks of low bits, masks of
-- high bits, and sums of disjoint parts.
use Prim.Native.Nat.{
  ℕ, zero, suc, ◌+◌, ◌-◌, ◌*◌, ◌/◌, ◌%◌, ◌^◌, ◌≤◌, ◌<◌, min, max, bit_and, bit_or, digits,
  bit_and-bitwise, bit_or-bitwise,
}
use mathlib.Core.Path.{◌≡◌, refl, ap, sym, ◌∙◌}
use native.Mathlib.Nat.{
  pow-suc, div-add-mod, mod-lt, mod-eq_of_lt, mul-add-mod_self_left, mul-one, div-one,
  div-div-eq-div-mul, zero-add, suc-add,
}
use mathlib.Core.Path.{subst}
use mathlib.Core.Logic.{◌≢◌}
use native.Mathlib.Decide.{ℕ_discrete}
use native.Mathlib.Omega.{arith}

-- A statement about every number, from its half.
by_halves : (P : ℕ → Type 0) → P 0 → ((x : ℕ) → P (suc x / 2) → P (suc x)) → (x : ℕ) → P x
by_halves P base step x = below (suc x) x (omega arith)
  where
    below : (bound x : ℕ) → x < bound → P x
    below zero x h = absurd (omega arith)
    below (suc bound) zero h = base
    below (suc bound) (suc x) h = step x (below bound (suc x / 2) (omega arith))

-- What `bit_and` and `bit_or` stand for: digits from the lowest, `rest` once the first number is out.
module _ (rest : ℕ → ℕ) (join : ℕ → ℕ → ℕ) where
  no_digits : (count y : ℕ) → digits rest join count 0 y ≡ rest y
  no_digits zero y = refl
  no_digits (suc count) y = refl

  same_digits : (x y m n : ℕ) → x ≤ m → x ≤ n → digits rest join m x y ≡ digits rest join n x y
  same_digits zero y m n k l = no_digits m y ∙ sym (no_digits n y)
  same_digits (suc x) y zero n k l = absurd (omega arith)
  same_digits (suc x) y (suc m) zero k l = absurd (omega arith)
  same_digits (suc x) y (suc m) (suc n) k l =
      ap (λ (t : ℕ). t * 2 + join (suc x % 2) (y % 2))
        (same_digits (suc x / 2) (y / 2) m n (omega arith) (omega arith))

  digit_step :
      (x y : ℕ)
      → digits rest join (suc x) (suc x) y
        ≡ digits rest join (suc x / 2) (suc x / 2) (y / 2) * 2 + join (suc x % 2) (y % 2)
  digit_step x y =
      ap (λ (t : ℕ). t * 2 + join (suc x % 2) (y % 2))
        (same_digits (suc x / 2) (y / 2) x (suc x / 2) (omega arith) (omega arith))

zero-bit_and : (y : ℕ) → bit_and 0 y ≡ 0
zero-bit_and y = bit_and-bitwise 0 y

and_halves : (x y : ℕ) → bit_and x y ≡ bit_and (x / 2) (y / 2) * 2 + min (x % 2) (y % 2)
and_halves zero y = omega (arith, zero-bit_and y, zero-bit_and (y / 2))
and_halves (suc x) y =
    bit_and-bitwise (suc x) y
    ∙ digit_step (λ _. 0) min x y
    ∙ ap (λ (t : ℕ). t * 2 + min (suc x % 2) (y % 2)) (sym (bit_and-bitwise (suc x / 2) (y / 2)))

zero-bit_or : (y : ℕ) → bit_or 0 y ≡ y
zero-bit_or y = bit_or-bitwise 0 y

or_halves : (x y : ℕ) → bit_or x y ≡ bit_or (x / 2) (y / 2) * 2 + max (x % 2) (y % 2)
or_halves zero y = omega (arith, zero-bit_or y, zero-bit_or (y / 2))
or_halves (suc x) y =
    bit_or-bitwise (suc x) y
    ∙ digit_step (λ t. t) max x y
    ∙ ap (λ (t : ℕ). t * 2 + max (suc x % 2) (y % 2)) (sym (bit_or-bitwise (suc x / 2) (y / 2)))

pub bit_or-zero : (x : ℕ) → bit_or x 0 ≡ x
bit_or-zero =
    by_halves (λ x. bit_or x 0 ≡ x) (zero-bit_or 0) λ x h. omega (arith, or_halves (suc x) 0, h)

bit_and-zero : (x : ℕ) → bit_and x 0 ≡ 0
bit_and-zero =
    by_halves (λ x. bit_and x 0 ≡ 0) (zero-bit_and 0) λ x h. omega (arith, and_halves (suc x) 0, h)

pub bit_and_self : (x : ℕ) → bit_and x x ≡ x
bit_and_self =
    by_halves (λ x. bit_and x x ≡ x) (zero-bit_and 0)
      λ x h. omega (arith, and_halves (suc x) (suc x), h)

pub pow_pos : (k : ℕ) → 0 < 2 ^ k
pow_pos zero = omega arith
pow_pos (suc k) = omega (arith, pow-suc 2 k, pow_pos k)

regroup : (a m : ℕ) → a ≡ 2 * m * (a / 2 / m) + (a / 2 % m * 2 + a % 2)
regroup a m = omega (arith, div-add-mod (a / 2) m)

low_part : (a m : ℕ) → 0 < m → a / 2 % m * 2 + a % 2 < 2 * m
low_part a m h = omega (arith, mod-lt (a / 2) h)

-- a mod 2m, by the last binary digit.
mod_double : (a m : ℕ) → 0 < m → a % (2 * m) ≡ (a / 2) % m * 2 + a % 2
mod_double a m h = omega (
  arith,
  ap (λ (t : ℕ). t % (2 * m)) (regroup a m),
  mul-add-mod_self_left (2 * m) (a / 2 / m) (a / 2 % m * 2 + a % 2),
  mod-eq_of_lt (low_part a m h),
)

double_pow : (k : ℕ) → 2 ^ suc k ≡ 2 * 2 ^ k
double_pow k = omega (arith, pow-suc 2 k)

half_mask : (k : ℕ) → (2 ^ suc k - 1) / 2 ≡ 2 ^ k - 1
half_mask k = omega (arith, double_pow k, pow_pos k)

-- A mask of k ones keeps the low k bits.
pub bit_and_low : (k a : ℕ) → bit_and a (2 ^ k - 1) ≡ a % 2 ^ k
bit_and_low zero a = omega (arith, bit_and-zero a)
bit_and_low (suc k) a = omega (
  arith,
  pow-suc 2 k,
  pow_pos k,
  and_halves a (2 ^ suc k - 1),
  ap (bit_and (a / 2)) (half_mask k),
  bit_and_low k (a / 2),
  mod_double a (2 ^ k) (pow_pos k),
  ap (λ (t : ℕ). a % t) (double_pow k),
)

half_shift : (k c : ℕ) → c * 2 ^ suc k / 2 ≡ c * 2 ^ k
half_shift k c = omega (arith, ap (λ (t : ℕ). c * t) (double_pow k))

even_shift : (k c : ℕ) → c * 2 ^ suc k % 2 ≡ 0
even_shift k c = omega (arith, ap (λ (t : ℕ). c * t) (double_pow k))

halves : (k a : ℕ) → a / 2 / 2 ^ k ≡ a / 2 ^ suc k
halves k a = div-div-eq-div-mul a 2 (2 ^ k) ∙ ap (λ (t : ℕ). a / t) (sym (double_pow k))

-- A mask whose low k bits are clear.
pub bit_and_high : (k a c : ℕ) → bit_and a (c * 2 ^ k) ≡ bit_and (a / 2 ^ k) c * 2 ^ k
bit_and_high zero a c =
    omega (arith, ap (bit_and a) (mul-one c), ap (λ (t : ℕ). bit_and t c) (div-one a))
bit_and_high (suc k) a c = omega (
  arith,
  and_halves a (c * 2 ^ suc k),
  ap (bit_and (a / 2)) (half_shift k c),
  even_shift k c,
  bit_and_high k (a / 2) c,
  ap (λ (t : ℕ). bit_and t c * 2 ^ k) (halves k a),
  ap (λ (t : ℕ). bit_and (a / 2 ^ suc k) c * t) (double_pow k),
)

zero_of_lt-one : (y : ℕ) → y < 1 → y ≡ 0
zero_of_lt-one y h = omega arith

-- Parts that share no bit add up.
pub bit_or_disjoint : (k x y : ℕ) → y < 2 ^ k → bit_or (x * 2 ^ k) y ≡ x * 2 ^ k + y
bit_or_disjoint zero x y h = omega (
  arith,
  bit_or-zero x,
  ap (bit_or (x * 1)) (zero_of_lt-one y h),
  ap (λ (t : ℕ). bit_or t 0) (mul-one x),
)
bit_or_disjoint (suc k) x y h = omega (
  arith,
  or_halves (x * 2 ^ suc k) y,
  ap (λ (t : ℕ). bit_or t (y / 2)) (half_shift k x),
  even_shift k x,
  bit_or_disjoint k x (y / 2) (omega (arith, double_pow k)),
  ap (λ (t : ℕ). x * t) (double_pow k),
)

pub pow-add : (m k : ℕ) → 2 ^ (m + k) ≡ 2 ^ m * 2 ^ k
pow-add zero k = omega (arith, ap (λ (t : ℕ). 2 ^ t) (zero-add k))
pow-add (suc m) k = omega (
  arith,
  ap (λ (t : ℕ). 2 ^ t) (suc-add m k),
  double_pow (m + k),
  ap (λ (t : ℕ). t * 2 ^ k) (double_pow m),
  pow-add m k,
)

-- A number with a power of two below it: `v & (v - 1)` clears the lowest one.
unfoldable pub IsPow2 : ℕ → Type 0
IsPow2 v = (k : ℕ) × (v ≡ 2 ^ k)

IsPow2-double : (v : ℕ) → IsPow2 v → IsPow2 (2 * v)
unfolding IsPow2
IsPow2-double v (k, e) = (suc k, omega (arith, double_pow k))

pow2_of_bit_and_fuel : (n v : ℕ) → v ≤ n → 0 < v → bit_and v (v - 1) ≡ 0 → IsPow2 v
pow2_of_bit_and_fuel zero v h p e = absurd (omega arith)
pow2_of_bit_and_fuel (suc n) v h p e = elim (ℕ_discrete (v % 2) 0) [
  | yes even ↦ subst IsPow2 (omega arith) (
      IsPow2-double (v / 2) (
        pow2_of_bit_and_fuel n (v / 2) (omega arith) (omega arith)
          (omega (arith, and_halves v (v - 1), ap (bit_and (v / 2)) (even_pred v p even)))))
  | no odd ↦
      unfold IsPow2 in
      (
        0,
        omega (
          arith,
          and_halves v (v - 1),
          ap (bit_and (v / 2)) (odd_pred v odd),
          bit_and_self (v / 2),
        ),
      )
]
  where
    even_pred : (v : ℕ) → 0 < v → v % 2 ≡ 0 → (v - 1) / 2 ≡ v / 2 - 1
    even_pred v p e = omega arith

    odd_pred : (v : ℕ) → v % 2 ≢ 0 → (v - 1) / 2 ≡ v / 2
    odd_pred v e = omega arith

-- The test that a positive number passes only if it is a power of two.
pub pow2_of_bit_and : (v : ℕ) → 0 < v → bit_and v (v - 1) ≡ 0 → IsPow2 v
pow2_of_bit_and v p e = pow2_of_bit_and_fuel v v (omega arith) p e
