-- ===== src/PathWalk/Normal/Print.antt =====
-- `Harlin_PathNormalize` of src/harlin/fs/path_walk.c writes the normal form of a path.
use har_lin_kernel.Base.{
  ℕ, ◌+◌, ◌≤◌, ◌<◌, ◌≡◌, refl, sym, ap, ◌∙◌, Bool, true, false, ◌||◌, Option, none, some, List, [],
  ◌∷◌, ◌++◌, map, arith, ltb, leb, ◌==◌, if◌then◌else◌, length, take, drop, Bool-cases, inl, inr,
  ◌>>=◌, length-append, length-take,
}
use mathlib.Core.List.{append_assoc, append-nil}
use har_lin_kernel.PathWalk.{
  PathParts, slash, max_segments, max_chars, put_slash, put_segment, put_loop, or_dot, reversed,
  normalize_parts, normalize, parse,
}
use har_lin_kernel.PathWalk.Parts.{contents, parts}
use har_lin_kernel.PathWalk.Parse.{view, sized, Parsed, refused, accepted, parse-Parsed, no_bytes}
use har_lin_kernel.PathWalk.Normal.{walk, slashed, joined, root, path_to, normal}
use har_lin_kernel.PathWalk.Normal.Stack.{push_loop-Shows}

-- A text, if a buffer has room for it and a final 0.
abbrev pub fitting : ℕ → List ℕ → Option (List ℕ)
fitting size out = if ltb (length out) size then some out else none

-- The second loop, behind a first part.
put_loop-slashed :
    (size : ℕ) (buf : List ℕ) (segments : List (ℕ × ℕ)) (ws : List (List ℕ)) (i : ℕ) (out : List ℕ)
    → map (view buf) segments ≡ map sized ws
    → 0 < i
    → length out < size
    → put_loop size buf segments i out ≡ fitting size (out ++ slashed ws)
unfolding put_loop put_slash put_segment
put_loop-slashed size buf [] [] i out e p h =
    let fits : ltb (length out) size ≡ true = ground arith in rw (append-nil, fits) refl
put_loop-slashed size buf [] (w ∷ ws) i out e p h = absurd (ground arith)
put_loop-slashed size buf (segment ∷ segments) [] i out e p h = absurd (ground arith)
put_loop-slashed size buf ((start, len) ∷ segments) (w ∷ ws) i out e p h =
    let later : ltb 0 i ≡ true = ground arith in
    let word : take len (drop start buf) ≡ w = ground arith in
    let wide : len ≡ length w = ground arith in
    let all = length-append out (slash ∷ (w ++ slashed ws)) in
    let some_more = length-append w (slashed ws) in
    let with_slash = length-append out (slash ∷ []) in
    elim (Bool-cases (leb size (length out + 1))) [
      | inl t ↦
          (let over : ltb (length (out ++ slash ∷ (w ++ slashed ws))) size ≡ false =
              ground (arith, all, t) in
            rw (later, t, over) refl)
      | inr t ↦ elim (Bool-cases (leb size (length (out ++ slash ∷ []) + len))) [
        | inl u ↦
            (let over : ltb (length (out ++ slash ∷ (w ++ slashed ws))) size ≡ false =
                ground (arith, all, some_more, with_slash, wide, u) in
              rw (later, t, u, over) refl)
        | inr u ↦
            (let room : length ((out ++ slash ∷ []) ++ w) < size =
                ground (arith, length-append (out ++ slash ∷ []) w, wide, u) in
              rw (later, t, u, word)
                (put_loop-slashed size buf segments ws (i + 1) ((out ++ slash ∷ []) ++ w)
                    (ground arith) (omega arith) room
                  ∙ ap (fitting size) (
                      append_assoc (out ++ slash ∷ []) w (slashed ws)
                      ∙ append_assoc out (slash ∷ []) (w ++ slashed ws))))
      ]
    ]

put_loop-joined :
    (size : ℕ) (buf : List ℕ) (segments : List (ℕ × ℕ)) (ws : List (List ℕ)) (out : List ℕ)
    → map (view buf) segments ≡ map sized ws
    → length out < size
    → put_loop size buf segments 0 out ≡ fitting size (out ++ joined ws)
unfolding put_loop put_segment
put_loop-joined size buf [] [] out e h =
    let fits : ltb (length out) size ≡ true = ground arith in rw (append-nil, fits) refl
put_loop-joined size buf [] (w ∷ ws) out e h = absurd (ground arith)
put_loop-joined size buf (segment ∷ segments) [] out e h = absurd (ground arith)
put_loop-joined size buf ((start, len) ∷ segments) (w ∷ ws) out e h =
    let word : take len (drop start buf) ≡ w = ground arith in
    let wide : len ≡ length w = ground arith in
    let all = length-append out (w ++ slashed ws) in
    let some_more = length-append w (slashed ws) in
    elim (Bool-cases (leb size (length out + len))) [
      | inl u ↦
          (let over : ltb (length (out ++ (w ++ slashed ws))) size ≡ false =
              ground (arith, all, some_more, wide, u) in
            rw (u, over) refl)
      | inr u ↦
          (let room : length (out ++ w) < size = ground (arith, length-append out w, wide, u) in
            rw (u, word)
              (put_loop-slashed size buf segments ws 1 (out ++ w) (ground arith) (omega arith) room
                ∙ ap (fitting size) (append_assoc out w (slashed ws))))
    ]

map-append_one :
    {A B : Type 0} (f : A → B) (xs : List A) (x : A) → map f (xs ++ x ∷ []) ≡ map f xs ++ f x ∷ []
map-append_one f [] x = refl
map-append_one f (y ∷ xs) x = ap (λ t. f y ∷ t) (map-append_one f xs x)

map-reversed : {A B : Type 0} (f : A → B) (xs : List A) → map f (reversed xs) ≡ reversed (map f xs)
map-reversed f [] = refl
map-reversed f (x ∷ xs) =
    map-append_one f (reversed xs) x ∙ ap (λ t. t ++ f x ∷ []) (map-reversed f xs)

fitting-or_dot :
    (size : ℕ) (out : List ℕ)
    → 2 ≤ size
    → (fitting size out >>= λ t. some (or_dot t)) ≡ fitting size (or_dot out)
fitting-or_dot size [] h =
    let fits : ltb 0 size ≡ true = ground arith in
    let fits' : ltb 1 size ≡ true = ground arith in rw (fits, fits') refl
fitting-or_dot size (c ∷ out) h = elim (Bool-cases (ltb (length (c ∷ out)) size)) [
  | inl t ↦ rw t refl
  | inr t ↦ rw t refl
]

put_root :
    (size : ℕ) (absolute : Bool)
    → 2 ≤ size
    → (if absolute then put_slash size [] else some []) ≡ some (root absolute)
unfolding put_slash
put_root size true h = let room : leb size (0 + 1) ≡ false = ground arith in rw room refl
put_root size false h = refl

normalize_parts-path_to :
    (size : ℕ) (p : PathParts) (ws : List (List ℕ))
    → map (view p.buf) p.segments ≡ map sized ws
    → length ws ≤ max_segments
    → 2 ≤ size
    → normalize_parts size p ≡ fitting size (path_to p.is_absolute (reversed (walk ws [])))
unfolding normalize_parts
normalize_parts-path_to size p ws e h two =
    let s = push_loop-Shows p.buf p.segments ws [] [] e refl (omega (arith, h)) in
    let order : map (view p.buf) (reversed s.stack) ≡ map sized (reversed (walk ws [])) =
      map-reversed (view p.buf) s.stack
      ∙ ap reversed s.shown
      ∙ sym (map-reversed sized (walk ws [])) in
    let small : length (root p.is_absolute) < size = ground (arith, two) in
    rw
      (
        s.succeeds,
        put_root size p.is_absolute two,
        put_loop-joined size p.buf (reversed s.stack) (reversed (walk ws [])) (root p.is_absolute)
            order small,
      )
      (fitting-or_dot size (root p.is_absolute ++ joined (reversed (walk ws []))) two)

-- A path that `Harlin_PathParse` refuses.
abbrev pub is_refused : List ℕ → Bool
is_refused s = length s == 0 || leb max_chars (length s)

normalize-Parsed :
    (s : List ℕ) (size : ℕ) (o : Option PathParts)
    → Parsed s o
    → 2 ≤ size
    → (o >>= normalize_parts size)
      ≡ (if is_refused (contents s) then none else fitting size (normal (contents s)))
normalize-Parsed s size _ (refused (inl e)) two = rw e refl
normalize-Parsed s size _ (refused (inr l)) two =
    let no : is_refused (contents s) ≡ true = ground (arith, l) in rw no refl
normalize-Parsed s size _ (accepted p ne lt copy absolute found) two =
    let filled : (length (contents s) ≡ 0) → ⊥ = λ e. ne (no_bytes (contents s) e) in
    let yes : is_refused (contents s) ≡ false = ground (arith, filled, lt) in
    rw yes (
      normalize_parts-path_to size p (take max_segments (parts (contents s))) found
        (omega (arith, length-take max_segments (parts (contents s)))) two
      ∙ ap
          (λ a.
            fitting size (path_to a (reversed (walk (take max_segments (parts (contents s))) []))))
          absolute)

-- `Harlin_PathNormalize` fails for a buffer of less than 2 bytes and for a path that is empty or
-- has 128 bytes or more. Otherwise it writes the normal form, if the buffer has room for it and a
-- final 0: the first 8 parts of the path are walked through, `.` stays at a place, and `..` goes
-- back by one part if there is one.
pub normalize_lem :
    (s : List ℕ) (size : ℕ)
    → normalize s size ≡ (
        if ltb size 2
        then none
        else if is_refused (contents s)
        then none
        else fitting size (normal (contents s)))
unfolding normalize
normalize_lem s size = elim (Bool-cases (ltb size 2)) [
  | inl t ↦ rw t refl
  | inr t ↦ rw t (normalize-Parsed s size (parse s) (parse-Parsed s) (ground (arith, t)))
]
