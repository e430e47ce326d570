-- ===== src/Wait/Calls.antt =====
-- `Harlin_NotifyExit`, `Harlin_Wait` and `Harlin_WaitAny` of src/harlin/proc/wait.c on the map from
-- processes to exit codes.
use har_lin_kernel.Base.{
  ℕ, zero, suc, ◌≡◌, refl, ap, sym, ◌∙◌, Bool, true, false, Option, none, some, List, ◌==◌,
  if◌then◌else◌, length, replicate, arith, Bool-cases, inl, inr,
}
use har_lin_kernel.Wait.{
  Exit, State, no_exit, exit_count, init, with_exits, Done, notify_enter, notify_renew, notify_exit,
  wait_found, wait, wait_any_found, wait_any,
}
use har_lin_kernel.Wait.Codes.{
  lookup, Once, nil, free, Changed, changed, Renewed, absent, present, renew-Renewed,
}
use har_lin_kernel.Wait.Loops.{
  AllUsed, Entered, full, placed, enter-Entered, Collected, missing, taken_out, collect-Collected,
  CollectedAny, nothing, one_out, collect_any-CollectedAny,
}

-- The map, as the next call finds it: a table that is not set up is empty.
abbrev pub kept : ℕ → State → Option ℕ
kept pid s = lookup pid (init s).exits

-- A process has one entry at most, and an entry in use was not reaped.
pub data IsValid (s : State) : Type 0 where
  valid : Once (init s).exits → IsValid s

-- The map has `code` for `pid`, and is otherwise as before; the table keeps its length.
pub data Now (pid : ℕ) (code : Option ℕ) (s s' : State) : Type 0 where
  now :
      length (init s').exits ≡ length (init s).exits
      → IsValid s'
      → ((q : ℕ) → kept q s' ≡ (if pid == q then code else kept q s))
      → Now pid code s s'

Once-empty : (n : ℕ) → Once (replicate n no_exit)
Once-empty zero = nil
Once-empty (suc n) = free refl (Once-empty n)

-- What `Harlin_NotifyExit` does.
pub data Noted (pid code : ℕ) (s : State) (r : Bool × State) : Type 0 where
  noted : r.0 ≡ true → Now pid (some code) s r.1 → Noted pid code s r
  no_room : r ≡ (false, init s) → kept pid s ≡ none → AllUsed (init s).exits → Noted pid code s r

inited_init : (s : State) → (init s).inited ≡ true
unfolding init
inited_init s = elim (Bool-cases s.inited) [ inl t ↦ rw t refl | inr f ↦ rw f refl ]

-- A table that a call has written to is set up.
init-with_exits :
    (s : State) (exits : List Exit) → init (with_exits (init s) exits) ≡ with_exits (init s) exits
unfolding init
init-with_exits s exits = rw (inited_init s) refl

Changed-Now :
    (pid : ℕ) (code : Option ℕ) (s : State) (after : List Exit)
    → Changed pid code (init s).exits after
    → Now pid code s (with_exits (init s) after)
Changed-Now pid code s after (changed size once look) =
    let e : (init (with_exits (init s) after)).exits ≡ after =
      ap (λ t. t.exits) (init-with_exits s after) in
    now (ap length e ∙ size) (valid (rw e once)) (λ q. ap (lookup q) e ∙ look q)

enter-Noted :
    (pid code : ℕ) (s : State) (o : Option (Done × List Exit))
    → lookup pid (init s).exits ≡ none
    → Entered pid code (init s).exits o
    → Noted pid code s (notify_enter o (init s))
unfolding notify_enter
enter-Noted pid code s none h (full all) = no_room refl h all
enter-Noted pid code s (some _) h (placed after c) =
    noted refl (Changed-Now pid (some code) s after c)

renew-Noted :
    (pid code : ℕ) (s : State) (o : Option (Done × List Exit))
    → Once (init s).exits
    → Renewed pid code (init s).exits o
    → Noted pid code s (notify_renew o pid code (init s))
unfolding notify_renew
renew-Noted pid code s none once (absent h) =
    enter-Noted pid code s _ h (enter-Entered pid code (init s).exits once h)
renew-Noted pid code s (some _) once (present after c) =
    noted refl (Changed-Now pid (some code) s after c)

-- On a table with at most one entry for a process, none of those in use reaped,
-- `Harlin_NotifyExit` keeps the code for the process in place of one that was kept before, and
-- touches no other; it fails only for a process with no code, when every entry is in use, and then
-- the table stays. The table is again of that kind.
pub notify_exit_lem :
    (pid code : ℕ) (s : State) → IsValid s → Noted pid code s (notify_exit pid code s)
unfolding notify_exit
notify_exit_lem pid code s (valid once) =
    renew-Noted pid code s _ once (renew-Renewed pid code (init s).exits once)

init_twice : (s : State) → init (init s) ≡ init s
unfolding init
init_twice s = rw (inited_init s) refl

-- Nothing to take out.
Now-init :
    (pid : ℕ) (s : State) → lookup pid (init s).exits ≡ none → IsValid s → Now pid none s (init s)
Now-init pid s h (valid once) =
    let e : (init (init s)).exits ≡ (init s).exits = ap (λ t. t.exits) (init_twice s) in
    now (ap length e) (valid (rw e once)) (λ q. ap (lookup q) e ∙ elim (Bool-cases (pid == q)) [
      | inl t ↦
          let same : pid ≡ q = ground arith in
          rw t (ap (λ p. lookup p (init s).exits) (sym same) ∙ h)
      | inr f ↦ rw f refl
    ])

waited :
    (pid : ℕ) (s : State) (o : Option (ℕ × List Exit))
    → Collected pid (init s).exits o
    → IsValid s
    → ((wait_found o (init s)).0 ≡ kept pid s) × Now pid none s (wait_found o (init s)).1
unfolding wait_found
waited pid s none (missing h) v = (sym h, Now-init pid s h v)
waited pid s (some _) (taken_out code after h c) v = (sym h, Changed-Now pid none s after c)

-- On a table with at most one entry for a process, none of those in use reaped, `Harlin_Wait`
-- returns the code that is kept for the process, if there is one, and from then on none is kept
-- for it; the codes of the other processes stay.
pub wait_lem :
    (pid : ℕ) (s : State)
    → IsValid s
    → (let (code, s') = wait pid s in (code ≡ kept pid s) × Now pid none s s')
unfolding wait
wait_lem pid s (valid once) =
    waited pid s _ (collect-Collected pid (init s).exits once) (valid once)

-- What `Harlin_WaitAny` does.
pub data WaitedAny (s : State) (r : Option (ℕ × ℕ) × State) : Type 0 where
  no_code : r ≡ (none, init s) → ((q : ℕ) → kept q s ≡ none) → WaitedAny s r
  some_code :
      (pid code : ℕ)
      → r.0 ≡ some (pid, code)
      → kept pid s ≡ some code
      → Now pid none s r.1
      → WaitedAny s r

waited_any :
    (s : State) (o : Option ((ℕ × ℕ) × List Exit))
    → CollectedAny (init s).exits o
    → WaitedAny s (wait_any_found o (init s))
unfolding wait_any_found
waited_any s none (nothing h) = no_code refl h
waited_any s (some _) (one_out pid code after h c) =
    some_code pid code refl h (Changed-Now pid none s after c)

-- On a table with at most one entry for a process, none of those in use reaped, `Harlin_WaitAny`
-- returns some process with the code that is kept for it, which is none from then on, the codes of
-- the other processes staying; or it fails, and then no code is kept.
pub wait_any_lem : (s : State) → IsValid s → WaitedAny s (wait_any s)
unfolding wait_any
wait_any_lem s (valid once) = waited_any s _ (collect_any-CollectedAny (init s).exits once)

-- A table that was never set up, of any content, is valid and keeps no code.
pub not_inited-IsValid : (s : State) → s.inited ≡ false → IsValid s
unfolding init
not_inited-IsValid s h = valid (rw h (Once-empty exit_count))

init-IsValid : (s : State) → IsValid s → IsValid (init s)
init-IsValid s (valid once) = valid (rw (ap (λ t. t.exits) (init_twice s)) once)

Noted-IsValid :
    (pid code : ℕ) (s : State) (r : Bool × State) → IsValid s → Noted pid code s r → IsValid r.1
Noted-IsValid pid code s r v (noted e (now size w look)) = w
Noted-IsValid pid code s r v (no_room e h all) = rw (ap (λ t. t.1) e) (init-IsValid s v)

pub notify_exit-IsValid :
    (pid code : ℕ) (s : State) → IsValid s → IsValid (notify_exit pid code s).1
notify_exit-IsValid pid code s v = Noted-IsValid pid code s _ v (notify_exit_lem pid code s v)
