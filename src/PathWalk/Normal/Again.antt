-- ===== src/PathWalk/Normal/Again.antt =====
-- The normal forms that `Harlin_PathNormalize` of src/harlin/fs/path_walk.c writes: paths with no
-- `.`, no `..` and no doubled slash, which it leaves as they are.
use har_lin_kernel.Base.{
  ℕ, zero, suc, ◌+◌, ◌≤◌, ◌≡◌, ◌≢◌, refl, sym, ap, ◌∙◌, Bool, true, false, none, some, List, [],
  ◌∷◌, ◌++◌, arith, ltb, ◌==◌, if◌then◌else◌, length, get_or, take, Bool-cases, inl, inr,
  length-append, length-take,
}
use mathlib.Core.Path.{ap₂, subst}
use mathlib.Core.List.{append_assoc, append-nil}
use har_lin_kernel.PathWalk.{slash, max_segments, max_chars, pop, or_dot, reversed, normalize}
use har_lin_kernel.PathWalk.Parts.{contents, extend, split, filled, parts}
use har_lin_kernel.PathWalk.Normal.{
  is_here, is_up, enter, walk, slashed, joined, root, path_to, normal,
}
use har_lin_kernel.PathWalk.Normal.Stack.{length-enter}
use har_lin_kernel.PathWalk.Normal.Print.{is_refused, normalize_lem}

pub data All {ℓ} {A : Type ℓ} (P : A → Type 0) : List A → Type ℓ where
  nil : All P []
  cons : {x : A} {xs : List A} → P x → All P xs → All P (x ∷ xs)

module _ {ℓ} {A : Type ℓ} {P : A → Type 0} where
  All-append : {xs ys : List A} → All P xs → All P ys → All P (xs ++ ys)
  All-append nil q = q
  All-append (cons p ps) q = cons p (All-append ps q)

  All-reversed : {xs : List A} → All P xs → All P (reversed xs)
  All-reversed nil = nil
  All-reversed (cons p ps) = All-append (All-reversed ps) (cons p nil)

  All-take : (n : ℕ) {xs : List A} → All P xs → All P (take n xs)
  All-take zero ps = nil
  All-take (suc n) nil = nil
  All-take (suc n) (cons p ps) = cons p (All-take n ps)

  All-pop : {xs : List A} → All P xs → All P (pop xs)
  All-pop nil = nil
  All-pop (cons p ps) = ps

-- A byte of a part of a path, a part, and a part other than `.` and `..`.
abbrev NonZero : ℕ → Type 0
NonZero c = c ≢ 0

record Clean (c : ℕ) : Type 0 where
  no_slash : c == slash ≡ false
  no_end : c ≢ 0

record Word (w : List ℕ) : Type 0 where
  filled_word : w ≢ []
  clean : All Clean w

record Plain (w : List ℕ) : Type 0 where
  word : Word w
  not_here : is_here w ≡ false
  not_up : is_up w ≡ false

contents-NonZero : (s : List ℕ) → All NonZero (contents s)
contents-NonZero [] = nil
contents-NonZero (c ∷ s) = elim (Bool-cases (c == 0)) [
  | inl e ↦ rw e nil
  | inr e ↦ rw e (cons (λ z. ground (arith, z, e)) (contents-NonZero s))
]

contents_self : {s : List ℕ} → All NonZero s → contents s ≡ s
contents_self nil = refl
contents_self (cons {x = c} {xs = s} p ps) =
    let inside : c == 0 ≡ false = ground (arith, p) in
    rw inside (ap (λ t. c ∷ t) (contents_self ps))

extend-Clean :
    {c : ℕ} {ps : List (List ℕ)} → Clean c → All (All Clean) ps → All (All Clean) (extend c ps)
extend-Clean h nil = cons (cons h nil) nil
extend-Clean h (cons q qs) = cons (cons h q) qs

split-Clean : {s : List ℕ} → All NonZero s → All (All Clean) (split s)
split-Clean nil = cons nil nil
split-Clean (cons {x = c} p ps) = elim (Bool-cases (c == slash)) [
  | inl e ↦ rw e (cons nil (split-Clean ps))
  | inr e ↦ rw e (extend-Clean (record { no_slash = e; no_end = p }) (split-Clean ps))
]

filled-Word : {ps : List (List ℕ)} → All (All Clean) ps → All Word (filled ps)
filled-Word nil = nil
filled-Word (cons nil qs) = filled-Word qs
filled-Word (cons (cons q r) qs) =
    cons (record { filled_word = λ e. ground (arith, e); clean = cons q r }) (filled-Word qs)

enter-Plain :
    {w : List ℕ} {place : List (List ℕ)} → Word w → All Plain place → All Plain (enter w place)
enter-Plain {w} h ps = elim (Bool-cases (is_here w)) [
  | inl t ↦ rw t ps
  | inr t ↦ elim (Bool-cases (is_up w)) [
    | inl u ↦ rw (t, u) (All-pop ps)
    | inr u ↦ rw (t, u) (cons (record { word = h; not_here = t; not_up = u }) ps)
  ]
]

walk-Plain :
    {ws : List (List ℕ)} (place : List (List ℕ))
    → All Word ws
    → All Plain place
    → All Plain (walk ws place)
walk-Plain place nil ps = ps
walk-Plain place (cons h hs) ps = walk-Plain _ hs (enter-Plain h ps)

-- Parts other than `.` and `..` are walked through to themselves.
reversed-walk :
    {ws : List (List ℕ)} (place : List (List ℕ))
    → All Plain ws
    → reversed (walk ws place) ≡ reversed place ++ ws
reversed-walk place nil = sym (append-nil (reversed place))
reversed-walk place (cons {x = w} {xs = ws} p ps) =
    rw (p.not_here, p.not_up)
      (reversed-walk (w ∷ place) ps ∙ append_assoc (reversed place) (w ∷ []) ws)

length-walk : (ws place : List (List ℕ)) → length (walk ws place) ≤ length ws + length place
length-walk [] place = omega arith
length-walk (w ∷ ws) place = omega (arith, length-walk ws (enter w place), length-enter w place)

length-reversed : (xs : List (List ℕ)) → length (reversed xs) ≡ length xs
length-reversed [] = refl
length-reversed (x ∷ xs) = omega (arith, length-append (reversed xs) (x ∷ []), length-reversed xs)

take-all : (n : ℕ) (xs : List (List ℕ)) → length xs ≤ n → take n xs ≡ xs
take-all zero [] h = refl
take-all zero (x ∷ xs) h = absurd (omega (arith, h))
take-all (suc n) [] h = refl
take-all (suc n) (x ∷ xs) h = ap (λ t. x ∷ t) (take-all n xs (omega (arith, h)))

-- Parts that are joined are found again.
split-slashed :
    (ws : List (List ℕ)) (w : List ℕ) → All Clean w → All Word ws → split (w ++ slashed ws) ≡ w ∷ ws
split-slashed [] [] nil nil = refl
split-slashed (v ∷ vs) [] nil (cons h hs) = ap (λ t. [] ∷ t) (split-slashed vs v h.clean hs)
split-slashed ws (c ∷ w) (cons q qs) hs = rw q.no_slash (ap (extend c) (split-slashed ws w qs hs))

filled_self : {ws : List (List ℕ)} → All Word ws → filled ws ≡ ws
filled_self nil = refl
filled_self (cons {x = []} h hs) = absurd (h.filled_word refl)
filled_self (cons {x = c ∷ w} h hs) = ap (λ t. (c ∷ w) ∷ t) (filled_self hs)

parts-joined :
    (absolute : Bool) {ws : List (List ℕ)} → All Word ws → parts (root absolute ++ joined ws) ≡ ws
parts-joined true nil = refl
parts-joined false nil = refl
parts-joined true (cons {x = w} {xs = ws} h hs) =
    ap filled (split-slashed ws w h.clean hs) ∙ filled_self (cons h hs)
parts-joined false (cons {x = w} {xs = ws} h hs) =
    ap filled (split-slashed ws w h.clean hs) ∙ filled_self (cons h hs)

Clean-NonZero : {w : List ℕ} → All Clean w → All NonZero w
Clean-NonZero nil = nil
Clean-NonZero (cons q qs) = cons q.no_end (Clean-NonZero qs)

slashed-NonZero : {ws : List (List ℕ)} → All Word ws → All NonZero (slashed ws)
slashed-NonZero nil = nil
slashed-NonZero (cons h hs) =
    cons (ground arith) (All-append (Clean-NonZero h.clean) (slashed-NonZero hs))

joined-NonZero : {ws : List (List ℕ)} → All Word ws → All NonZero (joined ws)
joined-NonZero nil = nil
joined-NonZero (cons h hs) = All-append (Clean-NonZero h.clean) (slashed-NonZero hs)

or_dot-NonZero : {out : List ℕ} → All NonZero out → All NonZero (or_dot out)
or_dot-NonZero nil = cons (ground arith) nil
or_dot-NonZero (cons p ps) = cons p ps

path_to-NonZero :
    (absolute : Bool) {ws : List (List ℕ)} → All Word ws → All NonZero (path_to absolute ws)
path_to-NonZero true hs = cons (ground arith) (joined-NonZero hs)
path_to-NonZero false hs = or_dot-NonZero (joined-NonZero hs)

Plain-Word : {ws : List (List ℕ)} → All Plain ws → All Word ws
Plain-Word nil = nil
Plain-Word (cons p ps) = cons p.word (Plain-Word ps)

walked_again :
    {ws : List (List ℕ)} (t : List ℕ)
    → All Plain ws
    → length ws ≤ max_segments
    → parts t ≡ ws
    → reversed (walk (take max_segments (parts t)) []) ≡ ws
walked_again {ws} t ps h e = rw (e, take-all max_segments ws h) (reversed-walk [] ps)

first_Clean : {c : ℕ} {w : List ℕ} → All Clean (c ∷ w) → Clean c
first_Clean (cons q qs) = q

-- A path made of plain parts is its own normal form.
normal-path_to :
    (absolute : Bool) {ws : List (List ℕ)}
    → All Plain ws
    → length ws ≤ max_segments
    → normal (path_to absolute ws) ≡ path_to absolute ws
normal-path_to true {ws} ps h =
    ap (λ v. slash ∷ joined v) (walked_again (joined ws) ps h (parts-joined false (Plain-Word ps)))
normal-path_to false nil h = refl
normal-path_to false (cons {x = []} p ps) h = absurd (p.word.filled_word refl)
normal-path_to false (cons {x = c ∷ w} {xs = ws} p ps) h =
    let found : parts (c ∷ (w ++ slashed ws)) ≡ (c ∷ w) ∷ ws =
      parts-joined false (Plain-Word (cons {x = c ∷ w} p ps)) in
    ap₂ path_to (first_Clean p.word.clean).no_slash
      (walked_again (c ∷ (w ++ slashed ws)) (cons {x = c ∷ w} p ps) h found)

normal_parts-Plain :
    (s : List ℕ) → All NonZero s → All Plain (reversed (walk (take max_segments (parts s)) []))
normal_parts-Plain s h =
    All-reversed (walk-Plain [] (All-take max_segments (filled-Word (split-Clean h))) nil)

normal-NonZero : (s : List ℕ) → All NonZero s → All NonZero (normal s)
normal-NonZero s h = path_to-NonZero (get_or s 0 0 == slash) (Plain-Word (normal_parts-Plain s h))

normal-normal : (s : List ℕ) → All NonZero s → normal (normal s) ≡ normal s
normal-normal s h = normal-path_to (get_or s 0 0 == slash) (normal_parts-Plain s h) (
    omega (
      arith,
      length-reversed (walk (take max_segments (parts s)) []),
      length-walk (take max_segments (parts s)) [],
      length-take max_segments (parts s),
    ))

something : (out : List ℕ) → length (or_dot out) ≢ 0
something [] e = ground (arith, e)
something (c ∷ out) e = ground (arith, e)

-- What a result of the function says.
wrote :
    (short refused fits : Bool) (out t : List ℕ)
    → (if short then none else if refused then none else if fits then some out else none) ≡ some t
    → (short ≡ false) × (fits ≡ true) × (out ≡ t)
wrote true refused fits out t e = absurd (ground arith)
wrote false true fits out t e = absurd (ground arith)
wrote false false true out t e = (refl, refl, ground arith)
wrote false false false out t e = absurd (ground arith)

stays :
    (out : List ℕ) (size : ℕ)
    → ltb size 2 ≡ false
    → contents out ≡ out
    → is_refused out ≡ false
    → normal out ≡ out
    → ltb (length out) size ≡ true
    → normalize out size ≡ some out
stays out size long whole accepted self fits =
    normalize_lem out size ∙ rw (long, whole, accepted, self, fits) refl

-- What `Harlin_PathNormalize` writes for a path and a buffer of at most 128 bytes, it writes again
-- for that text and the same buffer.
pub normalize_again :
    (s t : List ℕ) (size : ℕ)
    → size ≤ max_chars
    → normalize s size ≡ some t
    → normalize t size ≡ some t
normalize_again s t size h e =
    let out = normal (contents s) in
    let (long, fits, same) =
      wrote (ltb size 2) (is_refused (contents s)) (ltb (length out) size) out t
        (sym (normalize_lem s size) ∙ e) in
    let bytes = contents-NonZero s in
    let accepted : is_refused out ≡ false = ground (arith, fits, h, something _) in
    subst (λ u. normalize u size ≡ some u) same
      (stays out size long (contents_self (normal-NonZero (contents s) bytes)) accepted
        (normal-normal (contents s) bytes) fits)
