-- ===== src/Scheduler/Timer/Charge.antt =====
-- What `timer_handler` of src/harlin/proc/scheduler.c charges for a tick.
use har_lin_kernel.Base.{
  ℕ, ◌+◌, ◌%◌, ◌^◌, ◌≤◌, ◌<◌, ◌≡◌, refl, Bool, true, false, ◌&&◌, arith, ltb, leb, ◌==◌,
  if◌then◌else◌, ℤ, pos, negsuc, all_below, all_below_sound, Bool-cases, inl, inr,
}
use har_lin_kernel.Scheduler.{Process}
use har_lin_kernel.Scheduler.Timer.{weight_of, delta_of, charge}

-- -10 or less.
abbrev pub is_greedy : ℤ → Bool
is_greedy (pos n) = false
is_greedy (negsuc n) = leb 9 n

-- A share is none at all, or not, as `greedy` says, and at most 1000000.
abbrev is_share : Bool → ℕ → Bool
is_share greedy d = (if greedy then d == 0 else ltb 0 d) && leb d 1000000

negative_shares : all_below 20 (λ n. is_share (leb 9 n) (delta_of (negsuc n))) ≡ true
unfolding delta_of
negative_shares = refl

positive_shares : all_below 20 (λ n. is_share false (delta_of (pos n))) ≡ true
unfolding delta_of
positive_shares = refl

-- Beyond the ends of the range the share is that of the end.
delta_of-past : (n : ℕ) → 19 < n → (delta_of (negsuc n) ≡ 0) × (delta_of (pos n) ≡ 1000000)
unfolding delta_of weight_of
delta_of-past n h = let past : ltb 19 n ≡ true = ground arith in (rw past refl, rw past refl)

share_lem : (nice : ℤ) → is_share (is_greedy nice) (delta_of nice) ≡ true
share_lem (pos n) = elim (Bool-cases (ltb 19 n)) [
  | inl past ↦ ground (arith, delta_of-past n)
  | inr within ↦
      all_below_sound 20 (λ k. is_share false (delta_of (pos k))) n positive_shares (ground arith)
]
share_lem (negsuc n) = elim (Bool-cases (ltb 19 n)) [
  | inl past ↦ ground (arith, delta_of-past n)
  | inr within ↦
      all_below_sound 20 (λ k. is_share (leb 9 k) (delta_of (negsuc k))) n negative_shares
        (ground arith)
]

-- Where the key by which processes are chosen is the run time, and does not wrap, a tick adds at
-- most 1000000 to it, and adds nothing exactly when the process has a `nice` of -10 or less.
pub charge_bounds :
    (p : Process)
    → p.fair_key ≡ p.runtime_ns
    → p.runtime_ns + 1000000 < 2 ^ 64
    → (p.fair_key ≤ (charge p).fair_key)
      × ((charge p).fair_key ≤ p.fair_key + 1000000)
      × (((charge p).fair_key == p.fair_key) ≡ is_greedy p.nice)
unfolding charge
charge_bounds p e h =
    let share = share_lem p.nice in
    let bound : delta_of p.nice ≤ 1000000 = ground arith in
    let sum : (p.runtime_ns + delta_of p.nice) % 2 ^ 64 ≡ p.runtime_ns + delta_of p.nice =
      omega arith in
    (omega arith, omega arith, ground arith)
