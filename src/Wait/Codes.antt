-- ===== src/Wait/Codes.antt =====
-- The table of src/harlin/proc/wait.c as a map from processes to exit codes.
use har_lin_kernel.Base.{
  ℕ, suc, ◌≡◌, refl, ap, true, false, Option, none, some, List, [], ◌∷◌, ◌==◌, if◌then◌else◌,
  length, arith, Bool-cases, inl, inr,
}
use har_lin_kernel.Wait.{Exit, stands_for, behind, Done, done, renew}

-- The code that is kept for a process.
abbrev pub lookup : ℕ → List Exit → Option ℕ
lookup pid [] = none
lookup pid (e ∷ rest) = if stands_for pid e then some e.code else lookup pid rest

-- A process has one entry at most, and an entry in use was not reaped.
pub data Once : List Exit → Type 0 where
  nil : Once []
  free : {e : Exit} {rest : List Exit} → e.used ≡ false → Once rest → Once (e ∷ rest)
  taken :
      {e : Exit} {rest : List Exit}
      → e.used ≡ true
      → e.reaped ≡ false
      → lookup e.child rest ≡ none
      → Once rest
      → Once (e ∷ rest)

pub Once-tail : {e : Exit} {rest : List Exit} → Once (e ∷ rest) → Once rest
Once-tail (free u o) = o
Once-tail (taken u r n o) = o

-- The map has the code for `pid`, and is otherwise as before.
pub data Changed (pid : ℕ) (code : Option ℕ) (before after : List Exit) : Type 0 where
  changed :
      length after ≡ length before
      → Once after
      → ((q : ℕ) → lookup q after ≡ (if pid == q then code else lookup q before))
      → Changed pid code before after

-- What `renew` does to it.
pub data Renewed (pid code : ℕ) (exits : List Exit) : Option (Done × List Exit) → Type 0 where
  absent : lookup pid exits ≡ none → Renewed pid code exits none
  present :
      (after : List Exit)
      → Changed pid (some code) exits after
      → Renewed pid code exits (some (done, after))

pub Changed-behind :
    (pid : ℕ) (code : Option ℕ) (e : Exit) (before after : List Exit)
    → stands_for pid e ≡ false
    → Once (e ∷ before)
    → Changed pid code before after
    → Changed pid code (e ∷ before) (e ∷ after)
Changed-behind pid code e before after f (free u o) (changed s once look) =
    changed (ap suc s) (free u once) (λ q. ground (arith, look q))
Changed-behind pid code e before after f (taken u r n o) (changed s once look) =
    changed (ap suc s) (taken u r (ground (arith, look e.child)) once) (λ q. ground (arith, look q))

Renewed-behind :
    (pid code : ℕ) (e : Exit) (rest : List Exit) (o : Option (Done × List Exit))
    → stands_for pid e ≡ false
    → Once (e ∷ rest)
    → Renewed pid code rest o
    → Renewed pid code (e ∷ rest) (behind e o)
Renewed-behind pid code e rest none f once (absent n) = absent (ground arith)
Renewed-behind pid code e rest (some _) f once (present after c) =
    present (e ∷ after) (Changed-behind pid (some code) e rest after f once c)

renew-head :
    (pid code : ℕ) (e : Exit) (rest : List Exit)
    → stands_for pid e ≡ true
    → Once (e ∷ rest)
    → Changed pid (some code) (e ∷ rest) (record e { code = code } ∷ rest)
renew-head pid code e rest f (free u o) = absurd (ground arith)
renew-head pid code e rest f (taken u r n o) = changed refl (taken u r n o) (λ q. ground arith)

pub renew-Renewed :
    (pid code : ℕ) (exits : List Exit) → Once exits → Renewed pid code exits (renew pid code exits)
unfolding renew
renew-Renewed pid code [] once = absent refl
renew-Renewed pid code (e ∷ rest) once = elim (Bool-cases (stands_for pid e)) [
  | inl t ↦ rw t (present _ (renew-head pid code e rest t once))
  | inr f ↦
      rw f (Renewed-behind pid code e rest _ f once (renew-Renewed pid code rest (Once-tail once)))
]
