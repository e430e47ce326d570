-- ===== src/ReadCache/Victim.antt =====
-- The slot that `pick_victim` of src/harlin/fs/page_cache.c gives up.
use har_lin_kernel.Base.{
  ℕ, zero, suc, ◌+◌, ◌-◌, ◌^◌, ◌≤◌, ◌<◌, ◌≡◌, refl, sym, ◌∙◌, true, false, ◌⊎◌, inl, inr, List, [],
  ◌∷◌, ltb, length, Bool-cases, arith,
}
use mathlib.Core.Path.{subst}
use har_lin_kernel.ReadCache.{Slot, slot, pick_loop, pick_victim}

-- The first unused slot; or, where all are used, what was best before or the first of the oldest.
data Picked (slots : List Slot) (i best idx : ℕ) : ℕ → Type 0 where
  unused :
      (k : ℕ)
      → k < length slots
      → (slot slots k).used ≡ false
      → ((j : ℕ) → j < k → (slot slots j).used ≡ true)
      → Picked slots i best idx (i + k)
  kept :
      ((j : ℕ) → j < length slots → (slot slots j).used ≡ true)
      → ((j : ℕ) → j < length slots → best ≤ (slot slots j).touch)
      → Picked slots i best idx idx
  older :
      (k : ℕ)
      → k < length slots
      → ((j : ℕ) → j < length slots → (slot slots j).used ≡ true)
      → (slot slots k).touch < best
      → ((j : ℕ) → j < length slots → (slot slots k).touch ≤ (slot slots j).touch)
      → Picked slots i best idx (i + k)

-- What holds of the first slot and of the rest.
all_slots :
    (P : Slot → Type 0) (e : Slot) (slots : List Slot) (n : ℕ)
    → P e
    → ((j : ℕ) → j < n → P (slot slots j))
    → (j : ℕ) → j < suc n
    → P (slot (e ∷ slots) j)
all_slots P e slots n p f zero h = p
all_slots P e slots n p f (suc j) h = f j (omega (arith, h))

behind_head :
    {slots : List Slot} {i best idx r : ℕ} (e : Slot) (k : ℕ)
    → Picked (e ∷ slots) i best idx (i + suc k)
    → i + 1 + k ≡ r
    → Picked (e ∷ slots) i best idx r
behind_head {slots} {i} {best} {idx} {r} e k p q =
    let same : i + suc k ≡ r = omega (arith, q) in subst (Picked (e ∷ slots) i best idx) same p

-- A used slot that is not older than the best before.
pass_younger :
    {slots : List Slot} {i best idx r : ℕ} (e : Slot)
    → e.used ≡ true
    → best ≤ e.touch
    → Picked slots (i + 1) best idx r
    → Picked (e ∷ slots) i best idx r
pass_younger {slots} {i} {best} {idx} e u h (unused k lt f before) =
    behind_head e k
      (unused (suc k) (omega (arith, lt)) f (all_slots (λ x. x.used ≡ true) e slots k u before))
      refl
pass_younger {slots} {best = best} e u h (kept all low) =
    kept (all_slots (λ x. x.used ≡ true) e slots (length slots) u all)
      (all_slots (λ x. best ≤ x.touch) e slots (length slots) h low)
pass_younger {slots} {i} {best} {idx} e u h (older k lt all less least) =
    behind_head e k
      (older (suc k) (omega (arith, lt))
        (all_slots (λ x. x.used ≡ true) e slots (length slots) u all) less
        (all_slots (λ x. (slot slots k).touch ≤ x.touch) e slots (length slots)
          (omega (arith, less, h)) least))
      refl

-- A used slot that is older than the best before.
pass_older :
    {slots : List Slot} {i best idx r : ℕ} (e : Slot)
    → e.used ≡ true
    → e.touch < best
    → Picked slots (i + 1) e.touch i r
    → Picked (e ∷ slots) i best idx r
pass_older {slots} e u h (unused k lt f before) =
    behind_head e k
      (unused (suc k) (omega (arith, lt)) f (all_slots (λ x. x.used ≡ true) e slots k u before))
      refl
pass_older {slots} {i} {best} {idx} e u h (kept all low) =
    let same : i + 0 ≡ i = omega arith in
    subst (Picked (e ∷ slots) i best idx) same (
      older 0 (omega arith) (all_slots (λ x. x.used ≡ true) e slots (length slots) u all) h
        (all_slots (λ x. e.touch ≤ x.touch) e slots (length slots) (omega arith) low))
pass_older {slots} e u h (older k lt all less least) =
    behind_head e k
      (older (suc k) (omega (arith, lt))
        (all_slots (λ x. x.used ≡ true) e slots (length slots) u all) (omega (arith, less, h))
        (all_slots (λ x. (slot slots k).touch ≤ x.touch) e slots (length slots)
          (omega (arith, less)) least))
      refl

pick_loop-Picked :
    (slots : List Slot) (i best idx : ℕ) → Picked slots i best idx (pick_loop slots i best idx)
unfolding pick_loop
pick_loop-Picked [] i best idx =
    kept (λ j h. absurd (omega (arith, h))) (λ j h. absurd (omega (arith, h)))
pick_loop-Picked (e ∷ slots) i best idx =
    let same : i + 0 ≡ i = omega arith in
    let whole = pick_loop (e ∷ slots) i best idx in
    elim (Bool-cases e.used) [
      | inl u ↦ elim (Bool-cases (ltb e.touch best)) [
        | inl t ↦
            (let step : whole ≡ pick_loop slots (i + 1) e.touch i = rw (u, t) refl in
              subst (Picked (e ∷ slots) i best idx) (sym step)
                (pass_older e u (ground (arith, t)) (pick_loop-Picked slots (i + 1) e.touch i)))
        | inr t ↦
            (let step : whole ≡ pick_loop slots (i + 1) best idx = rw (u, t) refl in
              subst (Picked (e ∷ slots) i best idx) (sym step)
                (pass_younger e u (ground (arith, t)) (pick_loop-Picked slots (i + 1) best idx)))
      ]
      | inr u ↦
          (let step : whole ≡ i = rw u refl in
            subst (Picked (e ∷ slots) i best idx) (same ∙ sym step)
              (unused 0 (omega arith) u (λ j h. absurd (omega (arith, h)))))
    ]

-- What `pick_victim` returns: the first unused slot, or else one that was touched no later than
-- any.
pub record Oldest (slots : List Slot) (r : ℕ) : Type 0 where
  pub inside : r < length slots
  pub choice :
      (((slot slots r).used ≡ false) × ((j : ℕ) → j < r → (slot slots j).used ≡ true))
      ⊎ (((j : ℕ) → j < length slots → (slot slots j).used ≡ true)
          × ((j : ℕ) → j < length slots → (slot slots r).touch ≤ (slot slots j).touch))

Picked-Oldest :
    {slots : List Slot} {r : ℕ}
    → 0 < length slots
    → (slot slots 0).touch < 2 ^ 64
    → Picked slots 0 (2 ^ 64 - 1) 0 r
    → Oldest slots r
Picked-Oldest {slots} h small (unused k lt u before) =
    let same : k ≡ 0 + k = omega arith in
    subst (Oldest slots) same (record { inside = lt; choice = inl (u, before) })
Picked-Oldest h small (kept all low) = record {
  inside = h;
  choice = inr (all, λ j k. omega (arith, small, low j k));
}
Picked-Oldest {slots} h small (older k lt all less least) =
    let same : k ≡ 0 + k = omega arith in
    subst (Oldest slots) same (record { inside = lt; choice = inr (all, least) })

-- When the cache is full, the victim is a slot that was touched no later than any other; otherwise
-- it is the first unused slot.
pub pick_victim-Oldest :
    (slots : List Slot)
    → 0 < length slots
    → (slot slots 0).touch < 2 ^ 64
    → Oldest slots (pick_victim slots)
unfolding pick_victim
pick_victim-Oldest slots h small = Picked-Oldest h small (pick_loop-Picked slots 0 (2 ^ 64 - 1) 0)
