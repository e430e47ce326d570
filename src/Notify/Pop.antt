-- ===== src/Notify/Pop.antt =====
-- `Harlin_NotifyPop` of signal.c takes the lowest event that may be delivered.
use har_lin_kernel.Base.{
  ℕ, zero, suc, ◌+◌, ◌^◌, ◌≤◌, ◌<◌, ◌≡◌, ◌≢◌, Bool, true, false, not, ◌&&◌, ◌⊎◌, arith, sym, ◌∙◌,
  get_or, pos, index-pos, Bool-cases, inl, inr,
}
use native.Mathlib.Decide.{dec_lt}
use har_lin_kernel.Base.Bits.{
  test_bit, test_bit-zero, and_pow-eq-zero, eq-zero_of_bits, test_bit-past, bit_and-le,
}
use har_lin_kernel.Notify.{Table, failed, deliverable, first_bit, clear, pop}
use har_lin_kernel.Notify.View.{pends, blocks, IsValid, deliverable_bit}

-- Event `what` may be delivered to task `pid`: it is pending and not blocked.
abbrev pub ready : Table → ℕ → ℕ → Bool
ready t pid what = pends t pid what && not (blocks t pid what)

-- The loop stops at the lowest bit that is set, if one of its bits is.
first_bit_lem :
    (rounds i m : ℕ)
    → ((j : ℕ) → i ≤ j → j < i + rounds → test_bit m j ≡ false)
      ⊎ (test_bit m (first_bit rounds i m) ≡ true)
        × (i ≤ first_bit rounds i m)
        × (first_bit rounds i m < i + rounds)
        × ((j : ℕ) → i ≤ j → j < first_bit rounds i m → test_bit m j ≡ false)
unfolding first_bit
first_bit_lem zero i m = inl (λ j h k. absurd (omega arith))
first_bit_lem (suc rounds) i m = elim (Bool-cases (test_bit m i)) [
  | inl hit ↦
      rw (and_pow-eq-zero, hit) (inr (hit, omega arith, omega arith, λ j h k. absurd (omega arith)))
  | inr miss ↦
      rw (and_pow-eq-zero, miss)
        (elim (first_bit_lem rounds (i + 1) m) [
          | inl clear_all ↦ inl (λ j h k. ground (arith, clear_all j))
          | inr found ↦ inr (
            found.0,
            omega (arith, found.1),
            omega (arith, found.2),
            λ j h k. ground (arith, found.3 j),
          )
        ])
]

deliverable_bound : {t : Table} (p : ℕ) → IsValid t → deliverable t p < 2 ^ 32
unfolding deliverable
deliverable_bound {t} p v = omega (arith, bit_and-le (get_or t.pending p 0) _, v.pending.1 p)

-- What `pop` has done: it took the lowest event that was ready.
pub record Popped (t : Table) (p w : ℕ) : Type 0 where
  pub result : pop t (pos p) ≡ (pos w, clear t p w)
  pub below : w < 32
  pub was_ready : ready t p w ≡ true
  pub least : (j : ℕ) → j < w → ready t p j ≡ false

pop_some :
    (t : Table) (p : ℕ)
    → p < 32
    → deliverable t p ≢ 0
    → pop t (pos p)
      ≡ (pos (first_bit 32 0 (deliverable t p)), clear t p (first_bit 32 0 (deliverable t p)))
unfolding pop
pop_some t p h n = rw (index-pos 32 p h) (ground arith)

pop_none : (t : Table) (p : ℕ) → p < 32 → deliverable t p ≡ 0 → pop t (pos p) ≡ (failed, t)
unfolding pop
pop_none t p h e = rw (index-pos 32 p h) (ground arith)

none_ready : {t : Table} (p j : ℕ) → IsValid t → deliverable t p ≡ 0 → ready t p j ≡ false
none_ready {t} p j v z = sym (deliverable_bit {t = t} p j v) ∙ rw z (test_bit-zero j)

deliverable-zero :
    {t : Table} (p : ℕ)
    → IsValid t
    → ((j : ℕ) → j < 32 → test_bit (deliverable t p) j ≡ false)
    → deliverable t p ≡ 0
deliverable-zero {t} p v h = eq-zero_of_bits _ (λ j. elim (dec_lt j 32) [
  | yes l ↦ h j l
  | no n ↦ test_bit-past 32 _ j (deliverable_bound {t = t} p v) (omega arith)
])

deliverable-nonzero :
    (t : Table) (p w : ℕ) → test_bit (deliverable t p) w ≡ true → deliverable t p ≢ 0
deliverable-nonzero t p w h e =
    let off : test_bit (deliverable t p) w ≡ false = rw e (test_bit-zero w) in cc

-- On tables of valid shape and for a task in range, either no event is ready, and `pop` fails and
-- changes nothing, or `pop` returns the lowest ready event and clears that one pending bit.
pub pop_lem :
    (t : Table) (p : ℕ)
    → IsValid t
    → p < 32
    → (((j : ℕ) → ready t p j ≡ false) × (pop t (pos p) ≡ (failed, t))) ⊎ ((w : ℕ) × Popped t p w)
pop_lem t p v h = elim (first_bit_lem 32 0 (deliverable t p)) [
  | inl all_clear ↦
      let z : deliverable t p ≡ 0 =
        deliverable-zero {t = t} p v (λ j l. all_clear j (omega arith) l) in
      inl (λ j. none_ready {t = t} p j v z, pop_none t p h z)
  | inr found ↦
      let w : ℕ = first_bit 32 0 (deliverable t p) in
      inr (
        w,
        record {
          result = pop_some t p h (deliverable-nonzero t p w found.0);
          below = found.2;
          was_ready = sym (deliverable_bit {t = t} p w v) ∙ found.0;
          least = λ j l. sym (deliverable_bit {t = t} p j v) ∙ found.3 j (omega arith) l;
        },
      )
]
