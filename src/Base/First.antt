-- ===== src/Base/First.antt =====
-- The index of the first element of a list that passes a test: the searches of the C files through
-- their tables.
use har_lin_kernel.Base.Tests.{if◌then◌else◌, Bool-cases, Option-cases}
use har_lin_kernel.Base.Lists.{length, get_or}
use Prim.Native.Nat.{ℕ, zero, suc, ◌+◌, ◌<◌}
use mathlib.Core.Path.{◌≡◌, refl, ap, ◌∙◌}
use mathlib.Core.Logic.{inl, inr}
use mathlib.Core.Bool.{Bool, true, false}
use mathlib.Core.Option.{Option, none, some}
use mathlib.Core.List.{List, [], ◌∷◌}
use native.Mathlib.Omega.{arith}

module _ {ℓ} {A : Type ℓ} where
  -- The list starts with element `i` of the table.
  unfoldable pub first : (A → Bool) → List A → ℕ → Option ℕ
  first p [] i = none
  first p (x ∷ xs) i = let later = first p xs (i + 1) in if p x then some i else later

  past_head :
      (p : A → Bool) (d x : A) (xs : List A) (k : ℕ)
      → p x ≡ false
      → ((j : ℕ) → j < k → p (get_or xs j d) ≡ false)
      → (j : ℕ) → j < suc k
      → p (get_or (x ∷ xs) j d) ≡ false
  past_head p d x xs k t f zero h = t
  past_head p d x xs k t f (suc j) h = f j (omega (arith, h))

  first_offset :
      (p : A → Bool) (d : A) (xs : List A) (i s : ℕ)
      → first p xs i ≡ some s
      → (k : ℕ) × (s ≡ i + k)
        × (k < length xs)
        × (p (get_or xs k d) ≡ true)
        × ((j : ℕ) → j < k → p (get_or xs j d) ≡ false)
  unfolding first
  first_offset p d [] i s e = absurd (ground arith)
  first_offset p d (x ∷ xs) i s e = elim (Bool-cases (p x)) [
    | inl t ↦ (0, ground (arith, e, t), omega arith, t, λ j h. absurd (omega (arith, h)))
    | inr t ↦
        (let (k, same, lt, u, before) = first_offset p d xs (i + 1) s (ground (arith, e, t)) in
          (suc k, omega (arith, same), omega (arith, lt), u, past_head p d x xs k t before))
  ]

  pub first-some :
      (p : A → Bool) (d : A) (xs : List A) (s : ℕ)
      → first p xs 0 ≡ some s
      → (s < length xs) × (p (get_or xs s d) ≡ true) × ((j : ℕ) → j < s → p (get_or xs j d) ≡ false)
  first-some p d xs s e =
      let (k, same, lt, u, before) = first_offset p d xs 0 s e in
      let q : s ≡ k = omega (arith, same) in
      (
        omega (arith, q, lt),
        ap (λ j. p (get_or xs j d)) q ∙ u,
        λ j h. before j (omega (arith, q, h)),
      )

  none_offset :
      (p : A → Bool) (d : A) (xs : List A) (i j : ℕ)
      → first p xs i ≡ none
      → j < length xs
      → p (get_or xs j d) ≡ false
  unfolding first
  none_offset p d [] i j e h = absurd (omega (arith, h))
  none_offset p d (x ∷ xs) i zero e h = ground (arith, e)
  none_offset p d (x ∷ xs) i (suc j) e h =
      none_offset p d xs (i + 1) j (ground (arith, e)) (omega (arith, h))

  pub first-none :
      (p : A → Bool) (d : A) (xs : List A) (j : ℕ)
      → first p xs 0 ≡ none
      → j < length xs
      → p (get_or xs j d) ≡ false
  first-none p d xs j e h = none_offset p d xs 0 j e h

  nowhere_offset :
      (p : A → Bool) (d : A) (xs : List A) (i : ℕ)
      → ((j : ℕ) → j < length xs → p (get_or xs j d) ≡ false)
      → first p xs i ≡ none
  unfolding first
  nowhere_offset p d [] i f = refl
  nowhere_offset p d (x ∷ xs) i f =
      rw (f 0 (omega arith)) (nowhere_offset p d xs (i + 1) (λ j h. f (suc j) (omega (arith, h))))

  pub first-nowhere :
      (p : A → Bool) (d : A) (xs : List A)
      → ((j : ℕ) → j < length xs → p (get_or xs j d) ≡ false)
      → first p xs 0 ≡ none
  first-nowhere p d xs f = nowhere_offset p d xs 0 f

  pub first-at :
      (p : A → Bool) (d : A) (xs : List A) (s : ℕ)
      → s < length xs
      → p (get_or xs s d) ≡ true
      → ((j : ℕ) → j < s → p (get_or xs j d) ≡ false)
      → first p xs 0 ≡ some s
  first-at p d xs s h t f = elim (Option-cases (first p xs 0)) [
    | inl e ↦ absurd (ground (arith, t, none_offset p d xs 0 s e h))
    | inr (r, e) ↦
        (let (lt, u, before) = first-some p d xs r e in
          let above : (r < s → ⊥) = λ q. ground (arith, u, f r q) in
          let below : (s < r → ⊥) = λ q. ground (arith, t, before s q) in
          e ∙ ap some (omega (arith, above, below)))
  ]

  -- The test is all that counts.
  pub first-same :
      (p : A → Bool) (d : A) (xs ys : List A) (i : ℕ)
      → length xs ≡ length ys
      → ((j : ℕ) → p (get_or xs j d) ≡ p (get_or ys j d))
      → first p xs i ≡ first p ys i
  unfolding first
  first-same p d [] [] i h f = refl
  first-same p d [] (y ∷ ys) i h f = absurd (omega (arith, h))
  first-same p d (x ∷ xs) [] i h f = absurd (omega (arith, h))
  first-same p d (x ∷ xs) (y ∷ ys) i h f =
      let rest = first-same p d xs ys (i + 1) (omega (arith, h)) (λ j. f (suc j)) in
      rw (f 0, rest) refl
