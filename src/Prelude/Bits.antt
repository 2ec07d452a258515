-- ===== src/Prelude/Bits.antt =====
-- The bits of a number, and what `bit_or` and `bit_and` do to each of them.
use Prim.Native.Nat.{
  ℕ, zero, suc, ◌+◌, ◌-◌, ◌*◌, ◌/◌, ◌%◌, ◌^◌, ◌≤◌, ◌<◌, min, max, bit_and, bit_or, digits,
  bit_and-bitwise, bit_or-bitwise,
}
use mathlib.Core.Path.{◌≡◌, refl, ◌∙◌, ap}
use native.Mathlib.Omega.{arith}
use native.Mathlib.Nat.{
  pow-suc, pow-succ' as pow-suc', one-le-pow, div-add-mod, mod-lt, mod-eq_of_lt,
  mul-add-mod_self_left,
}
use ccs2_plus.Prelude.Tests.{eqb, if◌then◌else◌}

-- Bit `j` of `a`, counted from the lowest.
unfoldable pub bit : ℕ → ℕ → ℕ
bit a zero = a % 2
bit a (suc j) = bit (a / 2) j

pub bit-zero : (j : ℕ) → bit 0 j ≡ 0
unfolding bit
bit-zero zero = refl
bit-zero (suc j) = bit-zero j

pub bit-lt : (a j : ℕ) → bit a j < 2
unfolding bit
bit-lt a zero = omega arith
bit-lt a (suc j) = bit-lt (a / 2) j

-- A digitwise operation acts on each bit, whatever the count of digits that it was given.
module _ (z : ℕ → ℕ) (f : ℕ → ℕ → ℕ) (ended : (b j : ℕ) → bit (z b) j ≡ f 0 (bit b j))
    (small : (x y : ℕ) → x < 2 → y < 2 → f x y < 2) where
  bit_sum : (q r : ℕ) (j : ℕ) → r < 2 → bit (q * 2 + r) (suc j) ≡ bit q j
  unfolding bit
  bit_sum q r j h = let e : (q * 2 + r) / 2 ≡ q = omega arith in rw e

  bit-digits : (n a b j : ℕ) → a ≤ n → bit (digits z f n a b) j ≡ f (bit a j) (bit b j)
  bit-digits zero zero b j h = ended b j ∙ (rw (bit-zero j))
  bit-digits zero (suc a) b j h = absurd (omega arith)
  bit-digits (suc n) zero b j h = ended b j ∙ (rw (bit-zero j))
  bit-digits (suc n) (suc a) b zero h =
      unfold bit in omega (arith, small (suc a % 2) (b % 2) (omega arith) (omega arith))
  bit-digits (suc n) (suc a) b (suc j) h =
      bit_sum _ _ j (small (suc a % 2) (b % 2) (omega arith) (omega arith))
      ∙ bit-digits n (suc a / 2) (b / 2) j (omega arith)
      ∙ unfold bit in refl

pub bit-bit_or : (a b j : ℕ) → bit (bit_or a b) j ≡ max (bit a j) (bit b j)
bit-bit_or a b j =
    rw bit_or-bitwise
      (bit-digits (λ b. b) max (λ b j. omega arith) (λ x y p q. omega arith) a a b j (omega arith))

pub bit-bit_and : (a b j : ℕ) → bit (bit_and a b) j ≡ min (bit a j) (bit b j)
bit-bit_and a b j = rw bit_and-bitwise (
    bit-digits (λ b. 0) min (λ b j. omega (arith, bit-zero j)) (λ x y p q. omega arith) a a b j
      (omega arith))

-- The bits of a power of two: one alone is set.
pub bit-pow : (i j : ℕ) → bit (2 ^ i) j ≡ (if eqb i j then 1 else 0)
unfolding bit
bit-pow zero zero = refl
bit-pow zero (suc j) = ground (arith, bit-zero j)
bit-pow (suc i) zero = ground (arith, pow-suc 2 i)
bit-pow (suc i) (suc j) =
    let half : 2 ^ suc i / 2 ≡ 2 ^ i = omega (arith, pow-suc 2 i) in
    rw half (bit-pow i j ∙ ground arith)

-- The complement in `k` bits turns each of them over.
pub bit-complement : (k b j : ℕ) → b < 2 ^ k → j < k → bit (2 ^ k - 1 - b) j ≡ 1 - bit b j
unfolding bit
bit-complement zero b j h lt = absurd (omega arith)
bit-complement (suc k) b zero h lt = omega (arith, pow-suc 2 k, one-le-pow k 2)
bit-complement (suc k) b (suc j) h lt =
    let half : (2 ^ suc k - 1 - b) / 2 ≡ 2 ^ k - 1 - b / 2 =
      omega (arith, pow-suc 2 k, one-le-pow k 2) in
    rw half (bit-complement k (b / 2) j (omega (arith, pow-suc 2 k)) (omega arith))

-- A digitwise operation stays inside the width of its arguments.
module _ (z : ℕ → ℕ) (f : ℕ → ℕ → ℕ) (ended : (b k : ℕ) → b < 2 ^ k → z b < 2 ^ k)
    (small : (x y : ℕ) → x < 2 → y < 2 → f x y < 2) where
  digits-lt : (k n a b : ℕ) → a < 2 ^ k → b < 2 ^ k → digits z f n a b < 2 ^ k
  digits-lt k zero a b p q = ended b k q
  digits-lt k (suc n) zero b p q = ended b k q
  digits-lt zero (suc n) (suc a) b p q = absurd (omega arith)
  digits-lt (suc k) (suc n) (suc a) b p q = omega (
    arith,
    pow-suc 2 k,
    small (suc a % 2) (b % 2) (omega arith) (omega arith),
    digits-lt k n (suc a / 2) (b / 2) (omega (arith, pow-suc 2 k)) (omega (arith, pow-suc 2 k)),
  )

pub bit_or-lt : (k a b : ℕ) → a < 2 ^ k → b < 2 ^ k → bit_or a b < 2 ^ k
bit_or-lt k a b p q =
    rw bit_or-bitwise (digits-lt (λ b. b) max (λ b k h. h) (λ x y p q. omega arith) k a a b p q)

pub bit_and-lt : (k a b : ℕ) → a < 2 ^ k → b < 2 ^ k → bit_and a b < 2 ^ k
bit_and-lt k a b p q = rw bit_and-bitwise (
    digits-lt (λ b. 0) min (λ b k h. one-le-pow k 2 (omega arith)) (λ x y p q. omega arith) k a a b
      p q)

-- Two numbers of `k` bits with the same bits are one number.
pub eq_of_bits : (k a b : ℕ) → a < 2 ^ k → b < 2 ^ k → ((j : ℕ) → j < k → bit a j ≡ bit b j) → a ≡ b
unfolding bit
eq_of_bits zero a b p q h = omega arith
eq_of_bits (suc k) a b p q h = omega (
  arith,
  h 0 (omega arith),
  eq_of_bits k (a / 2) (b / 2) (omega (arith, pow-suc 2 k)) (omega (arith, pow-suc 2 k))
      (λ j lt. h (suc j) (omega arith)),
)

-- The low bits as a remainder.
mod_double : (m a : ℕ) → 0 < m → a % (2 * m) ≡ a / 2 % m * 2 + a % 2
mod_double m a h =
    let split : a ≡ 2 * m * (a / 2 / m) + (a / 2 % m * 2 + a % 2) =
      omega (arith, div-add-mod (a / 2) m) in
    ap (λ (t : ℕ). t % (2 * m)) split
    ∙ mul-add-mod_self_left (2 * m) _ _
    ∙ mod-eq_of_lt (omega (arith, mod-lt (a / 2) h))

double-pow : (k a : ℕ) → a % 2 ^ suc k ≡ a / 2 % 2 ^ k * 2 + a % 2
double-pow k a = rw (pow-suc' 2 k) (mod_double (2 ^ k) a (one-le-pow k 2 (omega arith)))

pub bit-mod : (k a j : ℕ) → j < k → bit (a % 2 ^ k) j ≡ bit a j
unfolding bit
bit-mod zero a j h = absurd (omega arith)
bit-mod (suc k) a zero h = omega (arith, double-pow k a)
bit-mod (suc k) a (suc j) h =
    let half : a % 2 ^ suc k / 2 ≡ a / 2 % 2 ^ k = omega (arith, double-pow k a) in
    rw half (bit-mod k (a / 2) j (omega arith))

-- The bits above the width are 0.
pub bit_above : (k a j : ℕ) → a < 2 ^ k → k ≤ j → bit a j ≡ 0
unfolding bit
bit_above zero a j h le = let e : a ≡ 0 = omega arith in rw e (bit-zero j)
bit_above (suc k) a zero h le = absurd (omega arith)
bit_above (suc k) a (suc j) h le = bit_above k (a / 2) j (omega (arith, pow-suc 2 k)) (omega arith)

-- A shift to the right by a byte.
pub bit-shift_byte :
    (a j : ℕ) → bit (a / 2 ^ 8) j ≡ bit a (suc (suc (suc (suc (suc (suc (suc (suc j))))))))
unfolding bit
bit-shift_byte a j = let e : a / 2 / 2 / 2 / 2 / 2 / 2 / 2 / 2 ≡ a / 2 ^ 8 = omega arith in rw e
