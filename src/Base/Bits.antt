-- ===== src/Base/Bits.antt =====
-- Facts about `&`, `|`, `~` and `1 << i` at every width, stated bit by bit.
use Prim.Native.Nat.{
  ℕ, zero, suc, ◌+◌, ◌-◌, ◌*◌, ◌/◌, ◌%◌, ◌^◌, ◌≤◌, ◌<◌, min, max, digits, bit_and, bit_or,
  bit_and-bitwise, bit_or-bitwise,
}
use mathlib.Core.Path.{◌≡◌, refl}
use mathlib.Core.Bool.{Bool, true, false, not, ◌&&◌, ◌||◌}
use native.Mathlib.Omega.{arith}
use native.Mathlib.Nat.{pow-suc, one-le-pow, pow-le-pow_right, le_refl}
use native.Mathlib.Decide.{ℕ_discrete, dec_lt}
use mathlib.Core.Logic.{◌≢◌, inl, inr}
use har_lin_kernel.Base.Tests.{◌==◌, Bool-cases}

-- Bit `i` of `m`, counted from the lowest.
abbrev pub test_bit : ℕ → ℕ → Bool
test_bit m zero = m % 2 == 1
test_bit m (suc i) = test_bit (m / 2) i

-- `~m` on `w` bits
abbrev pub bit_not : ℕ → ℕ → ℕ
bit_not w m = 2 ^ w - 1 - m

pub test_bit-zero : (i : ℕ) → test_bit 0 i ≡ false
test_bit-zero zero = refl
test_bit-zero (suc i) = test_bit-zero i

or_digits :
    (n a b i : ℕ) → a ≤ n → test_bit (digits (λ y. y) max n a b) i ≡ (test_bit a i || test_bit b i)
or_digits zero zero b i h = rw (test_bit-zero i)
or_digits zero (suc a) b i h = absurd (omega arith)
or_digits (suc n) zero b i h = rw (test_bit-zero i)
or_digits (suc n) (suc a) b zero h = ground arith
or_digits (suc n) (suc a) b (suc i) h =
    let rest : ℕ = digits (λ y. y) max n (suc a / 2) (b / 2) in
    let shift : (rest * 2 + max (suc a % 2) (b % 2)) / 2 ≡ rest = omega arith in
    rw shift (or_digits n (suc a / 2) (b / 2) i (omega arith))

-- `a | b`, bit by bit
pub test_bit-bit_or : (a b i : ℕ) → test_bit (bit_or a b) i ≡ (test_bit a i || test_bit b i)
test_bit-bit_or a b i = rw (bit_or-bitwise a b) (or_digits a a b i (le_refl a))

and_digits :
    (n a b i : ℕ) → a ≤ n → test_bit (digits (λ y. 0) min n a b) i ≡ (test_bit a i && test_bit b i)
and_digits zero zero b i h = rw (test_bit-zero i)
and_digits zero (suc a) b i h = absurd (omega arith)
and_digits (suc n) zero b i h = rw (test_bit-zero i)
and_digits (suc n) (suc a) b zero h = ground arith
and_digits (suc n) (suc a) b (suc i) h =
    let rest : ℕ = digits (λ y. 0) min n (suc a / 2) (b / 2) in
    let shift : (rest * 2 + min (suc a % 2) (b % 2)) / 2 ≡ rest = omega arith in
    rw shift (and_digits n (suc a / 2) (b / 2) i (omega arith))

-- `a & b`, bit by bit
pub test_bit-bit_and : (a b i : ℕ) → test_bit (bit_and a b) i ≡ (test_bit a i && test_bit b i)
test_bit-bit_and a b i = rw (bit_and-bitwise a b) (and_digits a a b i (le_refl a))

-- `1 << j` has bit `j` and no other.
pub test_bit-pow : (j i : ℕ) → test_bit (2 ^ j) i ≡ (j == i)
test_bit-pow zero zero = refl
test_bit-pow zero (suc i) = rw (test_bit-zero i) (ground arith)
test_bit-pow (suc j) zero = ground (arith, pow-suc 2 j)
test_bit-pow (suc j) (suc i) =
    let half : 2 ^ suc j / 2 ≡ 2 ^ j = omega (arith, pow-suc 2 j) in
    rw (half, test_bit-pow j i) (ground arith)

-- `~m` has exactly the bits below `w` that `m` lacks.
pub test_bit-bit_not :
    (w m i : ℕ) → i < w → m < 2 ^ w → test_bit (bit_not w m) i ≡ not (test_bit m i)
test_bit-bit_not zero m i h k = absurd (omega arith)
test_bit-bit_not (suc w) m zero h k = ground (arith, pow-suc 2 w, one-le-pow w 2)
test_bit-bit_not (suc w) m (suc i) h k =
    let half : bit_not (suc w) m / 2 ≡ bit_not w (m / 2) = omega (arith, pow-suc 2 w) in
    rw half (test_bit-bit_not w (m / 2) i (omega arith) (omega (arith, pow-suc 2 w)))

-- A word of `w` bits has no bit from `w` on.
pub test_bit-past : (w m i : ℕ) → m < 2 ^ w → w ≤ i → test_bit m i ≡ false
test_bit-past zero m i k h = let e : m ≡ 0 = omega arith in rw e (test_bit-zero i)
test_bit-past (suc w) m zero k h = absurd (omega arith)
test_bit-past (suc w) m (suc i) k h =
    test_bit-past w (m / 2) i (omega (arith, pow-suc 2 w)) (omega arith)

or_digits_bound : (n w a b : ℕ) → a ≤ n → a < 2 ^ w → b < 2 ^ w → digits (λ y. y) max n a b < 2 ^ w
or_digits_bound zero w zero b p h k = k
or_digits_bound zero w (suc a) b p h k = absurd (omega arith)
or_digits_bound (suc n) w zero b p h k = k
or_digits_bound (suc n) zero (suc a) b p h k = absurd (omega arith)
or_digits_bound (suc n) (suc w) (suc a) b p h k = omega (
  arith,
  pow-suc 2 w,
  or_digits_bound n w (suc a / 2) (b / 2) (omega arith) (omega (arith, pow-suc 2 w))
      (omega (arith, pow-suc 2 w)),
)

pub bit_or-lt-pow : (w a b : ℕ) → a < 2 ^ w → b < 2 ^ w → bit_or a b < 2 ^ w
bit_or-lt-pow w a b h k = rw (bit_or-bitwise a b) (or_digits_bound a w a b (le_refl a) h k)

and_digits_le : (n a b : ℕ) → digits (λ y. 0) min n a b ≤ a
and_digits_le zero a b = omega arith
and_digits_le (suc n) zero b = omega arith
and_digits_le (suc n) (suc a) b = omega (arith, and_digits_le n (suc a / 2) (b / 2))

pub bit_and-le : (a b : ℕ) → bit_and a b ≤ a
bit_and-le a b = rw (bit_and-bitwise a b) (and_digits_le a a b)

-- A number with no bit set is zero.
zero_of_bits : (n m : ℕ) → m ≤ n → ((i : ℕ) → test_bit m i ≡ false) → m ≡ 0
zero_of_bits zero m h k = omega arith
zero_of_bits (suc n) zero h k = refl
zero_of_bits (suc n) (suc m) h k =
    ground (arith, k 0, zero_of_bits n (suc m / 2) (omega arith) (λ i. k (suc i)))

pub eq-zero_of_bits : (m : ℕ) → ((i : ℕ) → test_bit m i ≡ false) → m ≡ 0
eq-zero_of_bits m k = zero_of_bits m m (le_refl m) k

and_pow_bit : (m j i : ℕ) → test_bit (bit_and m (2 ^ j)) i ≡ (test_bit m i && (j == i))
and_pow_bit m j i = rw (test_bit-bit_and, test_bit-pow) refl

and_pow_clear : (m j i : ℕ) → test_bit m j ≡ false → test_bit (bit_and m (2 ^ j)) i ≡ false
and_pow_clear m j i h = elim (ℕ_discrete j i) [
  | yes e ↦ rw (and_pow_bit, ← e, h) refl
  | no n ↦ ground (arith, and_pow_bit m j i)
]

and_pow_set : (m j : ℕ) → test_bit m j ≡ true → bit_and m (2 ^ j) ≢ 0
and_pow_set m j h e =
    let t : test_bit (bit_and m (2 ^ j)) j ≡ true = ground (arith, and_pow_bit m j j) in
    let f : test_bit (bit_and m (2 ^ j)) j ≡ false = rw (e, test_bit-zero j) refl in cc

-- `m & (1 << j)` is zero exactly when bit `j` of `m` is clear.
pub and_pow-eq-zero : (m j : ℕ) → (bit_and m (2 ^ j) == 0) ≡ not (test_bit m j)
and_pow-eq-zero m j = elim (Bool-cases (test_bit m j)) [
  | inl h ↦ ground (arith, and_pow_set m j h)
  | inr h ↦ ground (arith, eq-zero_of_bits (bit_and m (2 ^ j)) (λ i. and_pow_clear m j i h))
]

pub pow-lt-pow : (i w : ℕ) → i < w → 2 ^ i < 2 ^ w
pow-lt-pow i w h = omega (
  arith,
  pow-suc 2 i,
  one-le-pow i 2,
  pow-le-pow_right {n = 2} (omega arith) {i = suc i} {j = w} h,
)

-- `m | (1 << j)` has bit `j` besides those of `m`.
pub test_bit-set : (m j i : ℕ) → test_bit (bit_or m (2 ^ j)) i ≡ (test_bit m i || (j == i))
test_bit-set m j i = rw (test_bit-bit_or, test_bit-pow) refl

-- `m & ~k` on words of `w` bits
pub test_bit-and_not :
    (w m k i : ℕ)
    → m < 2 ^ w
    → k < 2 ^ w
    → test_bit (bit_and m (bit_not w k)) i ≡ (test_bit m i && not (test_bit k i))
test_bit-and_not w m k i h l = elim (dec_lt i w) [
  | yes p ↦ rw (test_bit-bit_and, test_bit-bit_not w k i p l) refl
  | no n ↦ ground (arith, test_bit-bit_and m (bit_not w k) i, test_bit-past w m i h)
]

-- `m & ~(1 << j)` has the bits of `m` but bit `j`.
pub test_bit-clear :
    (w m j i : ℕ)
    → m < 2 ^ w
    → j < w
    → test_bit (bit_and m (bit_not w (2 ^ j))) i ≡ (test_bit m i && not (j == i))
test_bit-clear w m j i h k =
    rw (test_bit-and_not w m (2 ^ j) i h (pow-lt-pow j w k), test_bit-pow) refl
