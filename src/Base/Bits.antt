-- ===== src/Base/Bits.antt =====
-- Laws of `&`, `|` and `^` at variables, from the equation for the lowest digit.
use Prim.Native.Nat.{
  ℕ, zero, suc, ◌+◌, ◌-◌, ◌*◌, ◌/◌, ◌%◌, ◌≤◌, ◌<◌, min, max, bit_and, bit_or, bit_xor, digits,
  bitwise, bit_and-bitwise, bit_or-bitwise, bit_xor-bitwise, differ,
}
use mathlib.Core.Path.{◌≡◌, refl, sym, ap, ◌∙◌, subst}
use native.Mathlib.Nat.{le_refl}
use native.Mathlib.Omega.{arith}

-- The native operations are a recursion on binary digits that carries fuel. Fuel beyond the first
-- operand changes nothing, so the recursion has one equation.
module _ (rest : ℕ → ℕ) (pair : ℕ → ℕ → ℕ) where
  one_more : (fuel x y : ℕ) → x ≤ fuel → digits rest pair (suc fuel) x y ≡ digits rest pair fuel x y
  one_more zero zero y h = refl
  one_more zero (suc x) y h = absurd (omega arith)
  one_more (suc fuel) zero y h = refl
  one_more (suc fuel) (suc x) y h = rw (one_more fuel (suc x / 2) (y / 2) (omega arith)) refl

  surplus : (extra x y : ℕ) → digits rest pair (extra + x) x y ≡ digits rest pair x x y
  surplus zero x y =
      let none_extra : 0 + x ≡ x = omega arith in ap (λ n. digits rest pair n x y) none_extra
  surplus (suc extra) x y =
      let one_out : suc extra + x ≡ suc (extra + x) = omega arith in
      ap (λ n. digits rest pair n x y) one_out
      ∙ one_more (extra + x) x y (omega arith)
      ∙ surplus extra x y

  halved :
      (x y : ℕ)
      → digits rest pair x (suc x / 2) (y / 2) ≡ digits rest pair (suc x / 2) (suc x / 2) (y / 2)
  halved x y =
      let h = suc x / 2 in
      let split : (x - h) + h ≡ x = omega arith in
      subst (λ n. digits rest pair n h (y / 2) ≡ digits rest pair h h (y / 2)) split
        (surplus (x - h) h (y / 2))

  last_digit :
      (x y : ℕ)
      → bitwise rest pair (suc x) y
        ≡ bitwise rest pair (suc x / 2) (y / 2) * 2 + pair (suc x % 2) (y % 2)
  last_digit x y = ap (λ t. t * 2 + pair (suc x % 2) (y % 2)) (halved x y)

pub bit_and_step : (x y : ℕ) → bit_and x y ≡ bit_and (x / 2) (y / 2) * 2 + min (x % 2) (y % 2)
bit_and_step zero y = simp bit_and-bitwise (omega arith)
bit_and_step (suc x) y = simp bit_and-bitwise (last_digit (λ _. 0) min x y)

pub bit_or_step : (x y : ℕ) → bit_or x y ≡ bit_or (x / 2) (y / 2) * 2 + max (x % 2) (y % 2)
bit_or_step zero y = simp bit_or-bitwise (omega arith)
bit_or_step (suc x) y = simp bit_or-bitwise (last_digit (λ t. t) max x y)

-- Induction from a number's half to the number.
by_halves :
    (P : ℕ → Type 0) → P 0 → ((x : ℕ) → P (suc x / 2) → P (suc x)) → (bound x : ℕ) → x ≤ bound → P x
by_halves P z s bound zero h = z
by_halves P z s zero (suc x) h = absurd (omega arith)
by_halves P z s (suc bound) (suc x) h = s x (by_halves P z s bound (suc x / 2) (omega arith))

pub bit_and-zero : (x : ℕ) → bit_and x 0 ≡ 0
bit_and-zero x =
    by_halves (λ t. bit_and t 0 ≡ 0) refl (λ t h. omega (arith, bit_and_step (suc t) 0, h)) x x
      (le_refl x)

pub bit_or-zero : (x : ℕ) → bit_or x 0 ≡ x
bit_or-zero x =
    by_halves (λ t. bit_or t 0 ≡ t) refl (λ t h. omega (arith, bit_or_step (suc t) 0, h)) x x
      (le_refl x)

-- The tests and masks that the source uses.
pub bit_and-one : (a : ℕ) → bit_and a 1 ≡ a % 2
bit_and-one a = omega (arith, bit_and_step a 1, bit_and-zero (a / 2))

pub bit_and_three : (a : ℕ) → bit_and a 3 ≡ a % 4
bit_and_three a = omega (arith, bit_and_step a 3, bit_and-one (a / 2))

pub bit_and_7 : (a : ℕ) → bit_and a 0x07 ≡ a % 8
bit_and_7 a = omega (arith, bit_and_step a 7, bit_and_three (a / 2))

pub bit_and_15 : (a : ℕ) → bit_and a 0x0f ≡ a % 16
bit_and_15 a = omega (arith, bit_and_step a 15, bit_and_7 (a / 2))

bit_and_31 : (a : ℕ) → bit_and a 0x1f ≡ a % 32
bit_and_31 a = omega (arith, bit_and_step a 31, bit_and_15 (a / 2))

bit_and_63 : (a : ℕ) → bit_and a 0x3f ≡ a % 64
bit_and_63 a = omega (arith, bit_and_step a 63, bit_and_31 (a / 2))

pub bit_and_7f : (a : ℕ) → bit_and a 0x7f ≡ a % 128
bit_and_7f a = omega (arith, bit_and_step a 127, bit_and_63 (a / 2))

pub bit_and_ff : (a : ℕ) → bit_and a 0xff ≡ a % 256
bit_and_ff a = omega (arith, bit_and_step a 255, bit_and_7f (a / 2))

-- Setting the lowest bit of an even number.
pub bit_or-one_even : (a : ℕ) → bit_or (a * 2) 1 ≡ a * 2 + 1
bit_or-one_even a = omega (arith, bit_or_step (a * 2) 1, bit_or-zero (a * 2 / 2))

-- Exclusive or: its lowest digit, and that it loses nothing.
bit_xor_step : (x y : ℕ) → bit_xor x y ≡ bit_xor (x / 2) (y / 2) * 2 + differ (x % 2) (y % 2)
bit_xor_step zero y = simp bit_xor-bitwise (omega arith)
bit_xor_step (suc x) y = simp bit_xor-bitwise (last_digit (λ t. t) differ x y)

differ_digits : (x y : ℕ) → x < 2 → y < 2 → differ x y ≡ (x + y) % 2
differ_digits zero y h k = omega arith
differ_digits (suc zero) zero h k = refl
differ_digits (suc zero) (suc zero) h k = refl
differ_digits (suc zero) (suc (suc y)) h k = absurd (omega arith)
differ_digits (suc (suc x)) y h k = absurd (omega arith)

-- The same, with the digit written out.
bit_xor_digit : (x y : ℕ) → bit_xor x y ≡ bit_xor (x / 2) (y / 2) * 2 + (x % 2 + y % 2) % 2
bit_xor_digit x y =
    omega (arith, bit_xor_step x y, differ_digits (x % 2) (y % 2) (omega arith) (omega arith))

bit_xor-zero : (x : ℕ) → bit_xor x 0 ≡ x
bit_xor-zero x =
    by_halves (λ t. bit_xor t 0 ≡ t) refl (λ t h. omega (arith, bit_xor_digit (suc t) 0, h)) x x
      (le_refl x)

zero_bit_xor : (y : ℕ) → bit_xor 0 y ≡ y
zero_bit_xor y = simp bit_xor-bitwise refl

pub bit_xor_comm : (x y : ℕ) → bit_xor x y ≡ bit_xor y x
bit_xor_comm x =
    by_halves (λ t. (y : ℕ) → bit_xor t y ≡ bit_xor y t)
      (λ y. zero_bit_xor y ∙ sym (bit_xor-zero y))
      (λ t h y. omega (arith, bit_xor_digit (suc t) y, bit_xor_digit y (suc t), h (y / 2))) x x
      (le_refl x)

-- Exclusive or with one number loses nothing of the other.
pub bit_xor_cancel : (x y z : ℕ) → bit_xor x y ≡ bit_xor x z → y ≡ z
bit_xor_cancel x =
    by_halves (λ t. (y z : ℕ) → bit_xor t y ≡ bit_xor t z → y ≡ z)
      (λ y z e. sym (zero_bit_xor y) ∙ e ∙ zero_bit_xor z)
      (λ t h y z e.
        let f = bit_xor_digit (suc t) y in
        let g = bit_xor_digit (suc t) z in
        let tails : bit_xor (suc t / 2) (y / 2) ≡ bit_xor (suc t / 2) (z / 2) = omega (arith, e) in
        omega (arith, e, h (y / 2) (z / 2) tails))
      x x (le_refl x)
