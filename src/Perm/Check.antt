-- ===== src/Perm/Check.antt =====
-- `Harlin_PermCheck` of src/harlin/fs/perm.c, bit by bit.
use har_lin_kernel.Base.{
  ℕ, zero, suc, ◌+◌, ◌/◌, ◌%◌, ◌^◌, ◌≤◌, ◌≡◌, ◌↔◌, refl, sym, ap, ◌∙◌, true, ◌&&◌, arith, ltb, ◌==◌,
  if◌then◌else◌, Bool-cases, inl, inr,
}
use Prim.Native.Nat.{bit_and}
use har_lin_kernel.Base.Bits.{test_bit, test_bit-zero, test_bit-bit_and}
use har_lin_kernel.Perm.{class_bits, perm_check}

-- Numbers with the same bits are equal.
bits_ext_upto : (n a b : ℕ) → a ≤ n → b ≤ n → ((i : ℕ) → test_bit a i ≡ test_bit b i) → a ≡ b
bits_ext_upto zero a b h k e = omega arith
bits_ext_upto (suc n) a b h k e =
    let half : a / 2 ≡ b / 2 =
      bits_ext_upto n (a / 2) (b / 2) (omega arith) (omega arith) (λ i. e (suc i)) in
    ground (arith, e 0)

-- `m & w == w` says that every bit of `w` is a bit of `m`.
covers :
    (m w : ℕ)
    → ((bit_and m w == w) ≡ true) ↔ ((i : ℕ) → (test_bit w i && test_bit m i) ≡ test_bit w i)
covers m w = (
  λ h i.
      let e : bit_and m w ≡ w = ground arith in
      ground (arith, sym (test_bit-bit_and m w i) ∙ ap (λ t. test_bit t i) e),
  λ h.
      let e : bit_and m w ≡ w =
        bits_ext_upto (bit_and m w + w) _ _ (omega arith) (omega arith)
          (λ i. ground (arith, test_bit-bit_and m w i, h i)) in
      ground arith,
)

-- How far the bits that hold for a user stand from the low end: those of the owner, of the group,
-- or of all others.
abbrev pub class_place : ℕ → ℕ → ℕ → ℕ → ℕ
class_place file_owner file_group uid gid =
    if uid == file_owner then 6 else if gid == file_group then 3 else 0

seven_bits : (i : ℕ) → test_bit 7 i ≡ ltb i 3
seven_bits zero = refl
seven_bits (suc zero) = refl
seven_bits (suc (suc zero)) = refl
seven_bits (suc (suc (suc i))) = test_bit-zero i ∙ ground arith

low_three : (m i : ℕ) → test_bit (bit_and m 7) i ≡ (test_bit m i && ltb i 3)
low_three m i = test_bit-bit_and m 7 i ∙ ap (λ b. test_bit m i && b) (seven_bits i)

class_bits_lem :
    (mode file_owner file_group uid gid i : ℕ)
    → test_bit (class_bits mode file_owner file_group uid gid) i
      ≡ (test_bit (mode / 2 ^ class_place file_owner file_group uid gid) i && ltb i 3)
unfolding class_bits
class_bits_lem mode file_owner file_group uid gid i = elim (Bool-cases (uid == file_owner)) [
  | inl o ↦ rw o (low_three (mode / 2 ^ 6) i)
  | inr o ↦ rw o (elim (Bool-cases (gid == file_group)) [
    | inl g ↦ rw g (low_three (mode / 2 ^ 3) i)
    | inr g ↦ let all : mode / 2 ^ 0 ≡ mode = omega arith in rw g (rw all (low_three mode i))
  ])
]

-- `Harlin_PermCheck` allows exactly when each bit of the low 16 bits of `want` is one of the three
-- low bits, and is set in `mode` among the bits of the one class of the user: the owner's, at 6,
-- if the user owns the file; else the group's, at 3, if the groups agree; else the others', at 0.
pub perm_check_lem :
    (mode file_owner file_group uid gid want : ℕ)
    → (perm_check mode file_owner file_group uid gid want ≡ true) ↔ (
        (i : ℕ)
        → (test_bit (want % 2 ^ 16) i
            && (test_bit (mode / 2 ^ class_place file_owner file_group uid gid) i && ltb i 3))
          ≡ test_bit (want % 2 ^ 16) i)
unfolding perm_check
perm_check_lem mode file_owner file_group uid gid want =
    let c = covers (class_bits mode file_owner file_group uid gid) (want % 2 ^ 16) in
    let bits = class_bits_lem mode file_owner file_group uid gid in
    (
      λ h i. ap (λ b. test_bit (want % 2 ^ 16) i && b) (sym (bits i)) ∙ c.0 h i,
      λ h. c.1 (λ i. ap (λ b. test_bit (want % 2 ^ 16) i && b) (bits i) ∙ h i),
    )
