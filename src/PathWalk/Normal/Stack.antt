-- ===== src/PathWalk/Normal/Stack.antt =====
-- The first loop of `Harlin_PathNormalize` in src/harlin/fs/path_walk.c walks through the parts.
use har_lin_kernel.Base.{
  ℕ, suc, ◌+◌, ◌≤◌, ◌<◌, ◌≡◌, refl, sym, ap, ◌∙◌, false, Option, some, List, [], ◌∷◌, map, arith,
  leb, length, get_or, take, drop, Bool-cases, inl, inr, get_or-take, get_or-drop,
}
use mathlib.Core.Path.{ap₂}
use har_lin_kernel.PathWalk.{max_segments, is_dot, is_dot_dot, pop, push, push_loop}
use har_lin_kernel.PathWalk.Parse.{view, sized}
use har_lin_kernel.PathWalk.Normal.{is_here, is_up, enter, walk}

-- A byte of the text of a segment.
byte_of :
    (buf : List ℕ) (start len k : ℕ) (w : List ℕ)
    → take len (drop start buf) ≡ w
    → k < len
    → get_or buf (start + k) 0 ≡ get_or w k 0
byte_of buf start len k w e h =
    sym (get_or-drop buf start k 0)
    ∙ sym (get_or-take (drop start buf) len k 0 h)
    ∙ ap (λ t. get_or t k 0) e

is_dot-is_here :
    (buf : List ℕ) (start len : ℕ) (w : List ℕ)
    → take len (drop start buf) ≡ w
    → len ≡ length w
    → is_dot buf (start, len) ≡ is_here w
is_dot-is_here buf start len [] e h = rw h refl
is_dot-is_here buf start len (c ∷ []) e h =
    ground (arith, byte_of buf start len 0 (c ∷ []) e (omega (arith, h)))
is_dot-is_here buf start len (c ∷ d ∷ w) e h = ground (arith, h)

is_dot_dot-is_up :
    (buf : List ℕ) (start len : ℕ) (w : List ℕ)
    → take len (drop start buf) ≡ w
    → len ≡ length w
    → is_dot_dot buf (start, len) ≡ is_up w
is_dot_dot-is_up buf start len [] e h = rw h refl
is_dot_dot-is_up buf start len (c ∷ []) e h = rw h refl
is_dot_dot-is_up buf start len (c ∷ d ∷ []) e h = ground (
  arith,
  byte_of buf start len 0 (c ∷ d ∷ []) e (omega (arith, h)),
  byte_of buf start len 1 (c ∷ d ∷ []) e (omega (arith, h)),
)
is_dot_dot-is_up buf start len (c ∷ d ∷ f ∷ w) e h = ground (arith, h)

-- A stack of segments that stands for parts.
pub record Shows (buf : List ℕ) (result : Option (List (ℕ × ℕ))) (place : List (List ℕ))
    : Type 0 where
  pub stack : List (ℕ × ℕ)
  pub succeeds : result ≡ some stack
  pub shown : map (view buf) stack ≡ map sized place

same_length :
    (buf : List ℕ) (stack : List (ℕ × ℕ)) (place : List (List ℕ))
    → map (view buf) stack ≡ map sized place
    → length stack ≡ length place
same_length buf [] [] e = refl
same_length buf [] (w ∷ place) e = absurd (ground arith)
same_length buf (segment ∷ stack) [] e = absurd (ground arith)
same_length buf (segment ∷ stack) (w ∷ place) e =
    ap suc (same_length buf stack place (ground arith))

pop-shown :
    (buf : List ℕ) (stack : List (ℕ × ℕ)) (place : List (List ℕ))
    → map (view buf) stack ≡ map sized place
    → map (view buf) (pop stack) ≡ map sized (pop place)
pop-shown buf [] [] e = refl
pop-shown buf [] (w ∷ place) e = absurd (ground arith)
pop-shown buf (segment ∷ stack) [] e = absurd (ground arith)
pop-shown buf (segment ∷ stack) (w ∷ place) e = ground arith

push-Shows :
    (buf : List ℕ) (start len : ℕ) (w : List ℕ) (stack : List (ℕ × ℕ)) (place : List (List ℕ))
    → take len (drop start buf) ≡ w
    → len ≡ length w
    → map (view buf) stack ≡ map sized place
    → length place < max_segments
    → Shows buf (push buf (start, len) stack) (enter w place)
unfolding push
push-Shows buf start len w stack place e f h room =
    let here = is_dot-is_here buf start len w e f in
    let up = is_dot_dot-is_up buf start len w e f in
    let free : leb max_segments (length stack) ≡ false =
      ground (arith, same_length buf stack place h, room) in
    elim (Bool-cases (is_here w)) [
      | inl t ↦ rw (here, t) (record { stack = stack; succeeds = refl; shown = h })
      | inr t ↦ elim (Bool-cases (is_up w)) [
        | inl u ↦
            rw (here, t, up, u)
              (record { stack = pop stack; succeeds = refl; shown = pop-shown buf stack place h })
        | inr u ↦
            rw (here, t, up, u, free)
              (record {
                stack = (start, len) ∷ stack;
                succeeds = refl;
                shown = ap₂ (λ x y. x ∷ y) (ap₂ (λ x y. (x, y)) e f) h;
              })
      ]
    ]

pub length-enter :
    (w : List ℕ) (place : List (List ℕ)) → length (enter w place) ≤ suc (length place)
length-enter w place = elim (Bool-cases (is_here w)) [
  | inl t ↦ rw t (omega arith)
  | inr t ↦ elim (Bool-cases (is_up w)) [
    | inl u ↦ rw (t, u) (length-pop place)
    | inr u ↦ rw (t, u) (omega arith)
  ]
]
  where
    length-pop : (xs : List (List ℕ)) → length (pop xs) ≤ suc (length xs)
    length-pop [] = omega arith
    length-pop (x ∷ xs) = omega arith

-- The loop leaves the parts that lead to the place; there is room for all.
pub push_loop-Shows :
    (buf : List ℕ) (segments : List (ℕ × ℕ)) (ws : List (List ℕ)) (stack : List (ℕ × ℕ))
    (place : List (List ℕ))
    → map (view buf) segments ≡ map sized ws
    → map (view buf) stack ≡ map sized place
    → length ws + length place ≤ max_segments
    → Shows buf (push_loop buf segments stack) (walk ws place)
unfolding push_loop
push_loop-Shows buf [] [] stack place e f h = record { stack = stack; succeeds = refl; shown = f }
push_loop-Shows buf [] (w ∷ ws) stack place e f h = absurd (ground arith)
push_loop-Shows buf (segment ∷ segments) [] stack place e f h = absurd (ground arith)
push_loop-Shows buf ((start, len) ∷ segments) (w ∷ ws) stack place e f h =
    let pushed =
      push-Shows buf start len w stack place (ground arith) (ground arith) f (omega (arith, h)) in
    rw pushed.succeeds (
      push_loop-Shows buf segments ws pushed.stack (enter w place) (ground arith) pushed.shown
        (omega (arith, h, length-enter w place)))
