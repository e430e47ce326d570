-- ===== src/PathWalk/Parts.antt =====
-- The parts of a path, as the text between slashes says them: what the loops of `Harlin_PathParse`
-- in src/harlin/fs/path_walk.c are compared with.
use har_lin_kernel.Base.{
  ℕ, zero, suc, ◌≤◌, ◌≡◌, refl, ap, ◌∙◌, List, [], ◌∷◌, arith, ◌==◌, if◌then◌else◌, length, take,
  min, Bool-cases, inl, inr,
}
use har_lin_kernel.PathWalk.{slash, str_length}

-- The bytes of a C string.
abbrev pub contents : List ℕ → List ℕ
contents [] = []
contents (c ∷ s) = if c == 0 then [] else c ∷ contents s

-- A byte in front of the first text.
abbrev pub extend : ℕ → List (List ℕ) → List (List ℕ)
extend c [] = (c ∷ []) ∷ []
extend c (p ∷ ps) = (c ∷ p) ∷ ps

-- The texts between the slashes, those that are empty too.
abbrev pub split : List ℕ → List (List ℕ)
split [] = [] ∷ []
split (c ∷ s) = if c == slash then [] ∷ split s else extend c (split s)

-- A text that is not empty goes to the front.
abbrev pub keep : List ℕ → List (List ℕ) → List (List ℕ)
keep [] ps = ps
keep (c ∷ p) ps = (c ∷ p) ∷ ps

abbrev pub filled : List (List ℕ) → List (List ℕ)
filled [] = []
filled (p ∷ ps) = keep p (filled ps)

-- The texts between the slashes that are not empty.
abbrev pub parts : List ℕ → List (List ℕ)
parts s = filled (split s)

-- The text before the first slash, and what follows that slash.
abbrev pub first : List ℕ → List ℕ
first [] = []
first (c ∷ s) = if c == slash then [] else c ∷ first s

abbrev pub after : List ℕ → List ℕ
after [] = []
after (c ∷ s) = if c == slash then s else after s

others : List ℕ → List (List ℕ)
others [] = []
others (c ∷ s) = if c == slash then split s else others s

split-first : (s : List ℕ) → split s ≡ first s ∷ others s
unfolding others
split-first [] = refl
split-first (c ∷ s) = elim (Bool-cases (c == slash)) [
  | inl e ↦ rw e refl
  | inr e ↦ rw e (ap (extend c) (split-first s))
]

filled-others : (s : List ℕ) → filled (others s) ≡ parts (after s)
unfolding others
filled-others [] = refl
filled-others (c ∷ s) = elim (Bool-cases (c == slash)) [
  | inl e ↦ rw e refl
  | inr e ↦ rw e (filled-others s)
]

-- The parts of a path are its first text, if that is not empty, and those of what follows.
pub parts-first : (s : List ℕ) → parts s ≡ keep (first s) (parts (after s))
parts-first s = ap filled (split-first s) ∙ ap (keep (first s)) (filled-others s)

pub length-after : (c : ℕ) (s : List ℕ) → length (after (c ∷ s)) ≤ length s
length-after c s = elim (Bool-cases (c == slash)) [
  | inl e ↦ rw e (omega arith)
  | inr e ↦ rw e (shorter s)
]
  where
    shorter : (t : List ℕ) → length (after t) ≤ length t
    shorter [] = omega arith
    shorter (d ∷ t) = ground (arith, shorter t)

pub take-first : (s : List ℕ) → take (length (first s)) s ≡ first s
take-first [] = refl
take-first (c ∷ s) = elim (Bool-cases (c == slash)) [
  | inl e ↦ rw e refl
  | inr e ↦ rw e (ap (λ t. c ∷ t) (take-first s))
]

pub str_length-contents :
    (rounds : ℕ) (s : List ℕ) → str_length rounds s ≡ min rounds (length (contents s))
unfolding str_length
str_length-contents zero s = omega arith
str_length-contents (suc rounds) [] = omega arith
str_length-contents (suc rounds) (c ∷ s) = elim (Bool-cases (c == 0)) [
  | inl e ↦ rw e (omega arith)
  | inr e ↦ rw e (omega (arith, str_length-contents rounds s))
]

pub take-contents : (s : List ℕ) → take (length (contents s)) s ≡ contents s
take-contents [] = refl
take-contents (c ∷ s) = elim (Bool-cases (c == 0)) [
  | inl e ↦ rw e refl
  | inr e ↦ rw e (ap (λ t. c ∷ t) (take-contents s))
]
