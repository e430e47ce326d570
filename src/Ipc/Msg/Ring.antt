-- ===== src/Ipc/Msg/Ring.antt =====
-- The messages of a queue as the front of its array.
use har_lin_kernel.Base.{
  ℕ, suc, ◌+◌, ◌<◌, ◌≡◌, refl, ap, sym, ◌∙◌, List, [], ◌∷◌, ◌++◌, length, get_or, set, arith,
  length-append,
}
use mathlib.Core.Path.{ap₂}
use mathlib.Core.List.{append_assoc}
use har_lin_kernel.Ipc.Msg.{Message, blank, shift, place, messages_max}

module _ {ℓ} {A : Type ℓ} where
  pub get_or-append : (xs ys : List A) (x d : A) → get_or (xs ++ (x ∷ ys)) (length xs) d ≡ x
  get_or-append [] ys x d = refl
  get_or-append (a ∷ xs) ys x d = get_or-append xs ys x d

  pub get_or-append_next :
      (xs ys : List A) (x y d : A) → get_or (xs ++ (x ∷ y ∷ ys)) (suc (length xs)) d ≡ y
  get_or-append_next [] ys x y d = refl
  get_or-append_next (a ∷ xs) ys x y d = get_or-append_next xs ys x y d

  pub set-append : (xs ys : List A) (x v : A) → set (xs ++ (x ∷ ys)) (length xs) v ≡ xs ++ (v ∷ ys)
  set-append [] ys x v = refl
  set-append (a ∷ xs) ys x v = ap (λ t. a ∷ t) (set-append xs ys x v)

-- The last of `x ∷ rest`.
abbrev pub last : Message → List Message → Message
last x [] = x
last x (y ∷ rest) = last y rest

-- In a ring that starts at 0, the loop drops the message in front of the moved ones and doubles the
-- last.
pub shift-append :
    (front : List Message) (x : Message) (rest tail : List Message) (k : ℕ)
    → k ≡ length front
    → k + length rest < messages_max
    → shift 0 (length rest) k (front ++ (x ∷ (rest ++ tail)))
      ≡ front ++ (rest ++ (last x rest ∷ tail))
unfolding shift
shift-append front x [] tail k e h = refl
shift-append front x (y ∷ rest) tail k e h =
    let here : place 0 k ≡ length front = omega arith in
    let next : place 0 (k + 1) ≡ suc (length front) = omega arith in
    let ih =
      shift-append (front ++ (y ∷ [])) y rest tail (k + 1)
        (omega (arith, length-append front (y ∷ []))) (omega arith) in
    let copied =
      ap₂
        (λ i j.
          set (front ++ (x ∷ y ∷ (rest ++ tail))) i
            (get_or (front ++ (x ∷ y ∷ (rest ++ tail))) j blank))
        here next in
    let moved =
      ap (set (front ++ (x ∷ y ∷ (rest ++ tail))) (length front))
        (get_or-append_next front (rest ++ tail) x y blank)
      ∙ set-append front (y ∷ (rest ++ tail)) x y in
    ap (shift 0 (length rest) (k + 1))
      (copied ∙ moved ∙ sym (append_assoc front (y ∷ []) (y ∷ (rest ++ tail))))
    ∙ ih
    ∙ append_assoc front (y ∷ []) (rest ++ (last y rest ∷ tail))
