-- ===== src/Wait/Loops.antt =====
-- The other loops of src/harlin/proc/wait.c, against the map from processes to exit codes.
use har_lin_kernel.Base.{
  ℕ, ◌≡◌, refl, ap, sym, ◌∙◌, true, false, not, ◌&&◌, Option, none, some, List, [], ◌∷◌, ◌==◌,
  arith, Bool-cases, inl, inr,
}
use har_lin_kernel.Wait.{Exit, stands_for, behind, Done, done, enter, reap, collect, collect_any}
use har_lin_kernel.Wait.Codes.{
  lookup, Once, free, taken, Once-tail, Changed, changed, Changed-behind,
}

-- Every entry is in use.
pub data AllUsed : List Exit → Type 0 where
  nil_used : AllUsed []
  cons_used : {e : Exit} {rest : List Exit} → e.used ≡ true → AllUsed rest → AllUsed (e ∷ rest)

-- What `enter` does, for a process with no entry.
pub data Entered (pid code : ℕ) (exits : List Exit) : Option (Done × List Exit) → Type 0 where
  full : AllUsed exits → Entered pid code exits none
  placed :
      (after : List Exit)
      → Changed pid (some code) exits after
      → Entered pid code exits (some (done, after))

Entered-behind :
    (pid code : ℕ) (e : Exit) (rest : List Exit) (o : Option (Done × List Exit))
    → e.used ≡ true
    → stands_for pid e ≡ false
    → Once (e ∷ rest)
    → Entered pid code rest o
    → Entered pid code (e ∷ rest) (behind e o)
Entered-behind pid code e rest none u f once (full all) = full (cons_used u all)
Entered-behind pid code e rest (some _) u f once (placed after c) =
    placed (e ∷ after) (Changed-behind pid (some code) e rest after f once c)

pub enter-Entered :
    (pid code : ℕ) (exits : List Exit)
    → Once exits
    → lookup pid exits ≡ none
    → Entered pid code exits (enter pid code exits)
unfolding enter
enter-Entered pid code [] once h = full nil_used
enter-Entered pid code (e ∷ rest) once h = elim (Bool-cases e.used) [
  | inl u ↦ simp u (
      Entered-behind pid code e rest _ u (ground arith) once
        (enter-Entered pid code rest (Once-tail once) (ground arith)))
  | inr f ↦ simp f (
      placed _ (changed refl (taken refl refl (ground arith) (Once-tail once)) (λ q. ground arith)))
]

-- What `collect` does.
pub data Collected (pid : ℕ) (exits : List Exit) : Option (ℕ × List Exit) → Type 0 where
  missing : lookup pid exits ≡ none → Collected pid exits none
  taken_out :
      (code : ℕ) (after : List Exit)
      → lookup pid exits ≡ some code
      → Changed pid none exits after
      → Collected pid exits (some (code, after))

Collected-behind :
    (pid : ℕ) (e : Exit) (rest : List Exit) (o : Option (ℕ × List Exit))
    → stands_for pid e ≡ false
    → Once (e ∷ rest)
    → Collected pid rest o
    → Collected pid (e ∷ rest) (behind e o)
Collected-behind pid e rest none f once (missing h) = missing (ground arith)
Collected-behind pid e rest (some _) f once (taken_out code after h c) =
    taken_out code (e ∷ after) (ground arith) (Changed-behind pid none e rest after f once c)

-- An entry goes out of use.
out_of_use :
    (pid : ℕ) (e e' : Exit) (rest : List Exit)
    → stands_for pid e ≡ true
    → e'.used ≡ false
    → Once (e ∷ rest)
    → Changed pid none (e ∷ rest) (e' ∷ rest)
out_of_use pid e e' rest s u (free v o) = absurd (ground arith)
out_of_use pid e e' rest s u (taken v r n o) =
    let same : e.child ≡ pid = ground arith in
    let gone : lookup pid rest ≡ none = ap (λ p. lookup p rest) (sym same) ∙ n in
    changed refl (free u o) (λ q. elim (Bool-cases (pid == q)) [
      | inl h ↦
          let eq : pid ≡ q = ground arith in
          let none_left : lookup q rest ≡ none = ap (λ p. lookup p rest) (sym eq) ∙ gone in
          ground arith
      | inr h ↦ ground arith
    ])

reap_used : (e : Exit) → e.reaped ≡ false → (reap e).used ≡ false
reap_used e h = rw h refl

Once-reaped : {e : Exit} {rest : List Exit} → Once (e ∷ rest) → e.used ≡ true → e.reaped ≡ false
Once-reaped (free u o) h = absurd (cc)
Once-reaped (taken u r n o) h = r

pub collect-Collected :
    (pid : ℕ) (exits : List Exit) → Once exits → Collected pid exits (collect pid exits)
unfolding collect
collect-Collected pid [] once = missing refl
collect-Collected pid (e ∷ rest) once = elim (Bool-cases (stands_for pid e)) [
  | inl t ↦
      let not_reaped = Once-reaped once (ground arith) in
      rw t (
        taken_out e.code _ (ground arith)
          (out_of_use pid e (reap e) rest t (reap_used e not_reaped) once))
  | inr f ↦
      rw f (Collected-behind pid e rest _ f once (collect-Collected pid rest (Once-tail once)))
]

-- What `collect_any` does.
pub data CollectedAny (exits : List Exit) : Option ((ℕ × ℕ) × List Exit) → Type 0 where
  nothing : ((q : ℕ) → lookup q exits ≡ none) → CollectedAny exits none
  one_out :
      (pid code : ℕ) (after : List Exit)
      → lookup pid exits ≡ some code
      → Changed pid none exits after
      → CollectedAny exits (some ((pid, code), after))

CollectedAny-behind :
    (e : Exit) (rest : List Exit) (o : Option ((ℕ × ℕ) × List Exit))
    → e.used ≡ false
    → Once (e ∷ rest)
    → CollectedAny rest o
    → CollectedAny (e ∷ rest) (behind e o)
CollectedAny-behind e rest none u once (nothing h) = nothing (λ q. ground (arith, h q))
CollectedAny-behind e rest (some _) u once (one_out pid code after h c) =
    one_out pid code (e ∷ after) (ground arith)
      (Changed-behind pid none e rest after (ground arith) once c)

pub collect_any-CollectedAny :
    (exits : List Exit) → Once exits → CollectedAny exits (collect_any exits)
unfolding collect_any
collect_any-CollectedAny [] once = nothing (λ q. refl)
collect_any-CollectedAny (e ∷ rest) once = elim (Bool-cases e.used) [
  | inl u ↦
      let not_reaped = Once-reaped once u in
      let first : (e.used && not e.reaped) ≡ true = rw (u, not_reaped) refl in
      let self : stands_for e.child e ≡ true = ground arith in
      rw first
        (one_out e.child e.code _ (ground arith) (out_of_use e.child e _ rest self refl once))
  | inr f ↦
      let skip : (e.used && not e.reaped) ≡ false = ground arith in
      rw skip (CollectedAny-behind e rest _ f once (collect_any-CollectedAny rest (Once-tail once)))
]
