-- ===== src/Notify/Pump.antt =====
-- `Harlin_NotifyPump` of signal.c: which events it delivers, and in which order.
use har_lin_kernel.Base.{
  ℕ, zero, suc, ◌+◌, ◌<◌, ◌≡◌, refl, true, false, not, ◌&&◌, arith, ◌∙◌, ◌==◌, if◌then◌else◌, pos,
  Bool-cases, inl, inr, some, List, [], ◌∷◌,
}
use har_lin_kernel.Notify.{Table, failed, clear, pop, pump, pump_loop}
use har_lin_kernel.Notify.View.{pends, IsValid}
use har_lin_kernel.Notify.Change.{clear_lem}
use har_lin_kernel.Notify.Pop.{ready, pop_lem}

-- The events from `i` on, `n` of them at most, that are ready, in ascending order.
unfoldable pub ready_from : ℕ → ℕ → Table → ℕ → List ℕ
ready_from zero i t p = []
ready_from (suc n) i t p =
    if ready t p i then i ∷ ready_from n (suc i) t p else ready_from n (suc i) t p

-- What the pump has done for task `p`.
pub record Pumped (t : Table) (p : ℕ) (t' : Table) : Type 0 where
  pub valid : IsValid t'
  pub blocked : t'.blocked ≡ t.blocked
  pub pending : (q j : ℕ) → pends t' q j ≡ (pends t q j && not (p == q && ready t p j))

-- With no event ready, one round ends the loop.
pump_idle :
    (f : ℕ) (t : Table) (p : ℕ)
    → pop t (pos p) ≡ (failed, t)
    → pump_loop (suc f) t (pos p) ≡ some ([], t)
unfolding pump_loop
pump_idle f t p e = ground arith

-- Event 0 ends the loop too.
pump_stop :
    (f : ℕ) (t t' : Table) (p : ℕ)
    → pop t (pos p) ≡ (pos 0, t')
    → pump_loop (suc f) t (pos p) ≡ some ([], t')
unfolding pump_loop
pump_stop f t t' p e = ground arith

pump_next :
    (f : ℕ) (t t' : Table) (p w : ℕ) {out : List ℕ} {u : Table}
    → pop t (pos p) ≡ (pos (suc w), t')
    → pump_loop f t' (pos p) ≡ some (out, u)
    → pump_loop (suc f) t (pos p) ≡ some (suc w ∷ out, u)
unfolding pump_loop
pump_next f t t' p w e k = ground arith

pub blocked-clear : (t : Table) (p w : ℕ) → (clear t p w).blocked ≡ t.blocked
unfolding clear
blocked-clear t p w = refl

-- Clearing an event below `i` changes nothing from `i` on.
ready_from-clear :
    (n i w : ℕ) (t : Table) (p : ℕ)
    → IsValid t
    → p < 32
    → w < 32
    → w < i
    → ready_from n i (clear t p w) p ≡ ready_from n i t p
unfolding ready_from
ready_from-clear zero i w t p v h k l = refl
ready_from-clear (suc n) i w t p v h k l = ground (
  arith,
  ready_from-clear n (suc i) w t p v h k,
  (clear_lem t p w v h k).1 p i,
  blocked-clear t p w,
)

-- With nothing ready below it, a ready event is the one that `pop` takes.
pop_least :
    (t : Table) (p w : ℕ)
    → IsValid t
    → p < 32
    → ready t p w ≡ true
    → ((j : ℕ) → j < w → ready t p j ≡ false)
    → (w < 32) × (pop t (pos p) ≡ (pos w, clear t p w))
pop_least t p w v h hit low = elim (pop_lem t p v h) [
  | inl idle ↦ absurd (ground (arith, idle.0 w))
  | inr (w', popped) ↦
      let e : w' ≡ w = ground (arith, low w', popped.least w, popped.was_ready) in
      (rw e at (popped.below), rw e at (popped.result))
]

ready-clear :
    (t : Table) (p w j : ℕ)
    → IsValid t
    → p < 32
    → w < 32
    → ready (clear t p w) p j ≡ (ready t p j && not (w == j))
ready-clear t p w j v h k = ground (arith, (clear_lem t p w v h k).1 p j, blocked-clear t p w)

-- One event taken, and then all that was left.
Pumped-clear :
    {t t' : Table} (p w : ℕ)
    → IsValid t
    → p < 32
    → w < 32
    → ready t p w ≡ true
    → Pumped (clear t p w) p t'
    → Pumped t p t'
Pumped-clear {t} p w v h k hit rest = record {
  valid = rest.valid;
  blocked = rest.blocked ∙ blocked-clear t p w;
  pending = λ q j.
      ground (arith, rest.pending q j, (clear_lem t p w v h k).1 q j, ready-clear t p w j v h k);
}

Pumped-idle : {t : Table} (p : ℕ) → IsValid t → ((j : ℕ) → ready t p j ≡ false) → Pumped t p t
Pumped-idle {t} p v idle = record {
  valid = v;
  blocked = refl;
  pending = λ q j. ground (arith, idle j);
}

-- With every event up to `k` not ready and fuel for the `n` events left, the loop delivers what is
-- ready above `k`.
pump_loop_lem :
    (n k f : ℕ) (t : Table) (p : ℕ)
    → IsValid t
    → p < 32
    → suc k + n ≡ 32
    → n < f
    → ((j : ℕ) → j < suc k → ready t p j ≡ false)
    → (t' : Table) × (pump_loop f t (pos p) ≡ some (ready_from n (suc k) t p, t')) × Pumped t p t'
unfolding ready_from
pump_loop_lem n k zero t p v h e l low = absurd (omega arith)
pump_loop_lem zero k (suc f) t p v h e l low = elim (pop_lem t p v h) [
  | inl idle ↦ (t, pump_idle f t p idle.1, Pumped-idle p v idle.0)
  | inr (w, popped) ↦ absurd (ground (arith, low w, popped.was_ready, popped.below))
]
pump_loop_lem (suc n) k (suc f) t p v h e l low = elim (Bool-cases (ready t p (suc k))) [
  | inl hit ↦
      let took = pop_least t p (suc k) v h hit low in
      let (t', runs, done) =
        pump_loop_lem n (suc k) f (clear t p (suc k)) p (clear_lem t p (suc k) v h took.0).0 h
          (omega arith) (omega arith)
          (λ j s. ground (arith, ready-clear t p (suc k) j v h took.0, low j)) in
      (
        t',
        rw (hit, ← ready_from-clear n (suc (suc k)) (suc k) t p v h took.0 (omega arith))
            (pump_next f t (clear t p (suc k)) p k took.1 runs),
        Pumped-clear p (suc k) v h took.0 hit done,
      )
  | inr miss ↦ rw miss (
      pump_loop_lem n (suc k) (suc f) t p v h (omega arith) (omega arith)
        (λ j s. ground (arith, low j)))
]

-- On tables of valid shape, when event 0 is not ready for a task in range, `pump` ends within its
-- fuel, delivers exactly the ready events of that task in ascending order, and leaves none of them
-- pending; the other pending bits and all blocked bits stay.
pub pump_lem :
    (t : Table) (p : ℕ)
    → IsValid t
    → p < 32
    → ready t p 0 ≡ false
    → (t' : Table) × (pump t (pos p) ≡ some (ready_from 31 1 t p, t')) × Pumped t p t'
unfolding pump
pump_lem t p v h z = pump_loop_lem 31 0 33 t p v h (omega arith) (omega arith) (λ j s. ground arith)

-- On tables of valid shape, when event 0 is ready for a task in range, `pump` clears that pending
-- bit, delivers nothing, and changes nothing else.
pub pump-zero :
    (t : Table) (p : ℕ)
    → IsValid t
    → p < 32
    → ready t p 0 ≡ true
    → pump t (pos p) ≡ some ([], clear t p 0)
unfolding pump
pump-zero t p v h z =
    pump_stop 32 t (clear t p 0) p (pop_least t p 0 v h z (λ j s. absurd (omega arith))).1
