-- ===== src/MemFs/Chain.antt =====
-- Chains of siblings in the table of src/harlin/fs/mem_fs.c.
use har_lin_kernel.Base.{
  ℕ, zero, suc, ◌≤◌, ◌<◌, ◌≡◌, refl, sym, Bool, true, false, ◌||◌, Option, none, some, List, [],
  ◌∷◌, arith, ◌==◌, if◌then◌else◌, length, Bool-cases, inl, inr,
}
use mathlib.Core.Path.{ap₂, subst}
use har_lin_kernel.MemFs.{Nodes, node, same_bytes, name_eq, find_loop}

abbrev pub has : ℕ → List ℕ → Bool
has a [] = false
has a (x ∷ xs) = a == x || has a xs

-- The list without `a`.
abbrev pub delete : ℕ → List ℕ → List ℕ
delete a [] = []
delete a (x ∷ xs) = if a == x then xs else x ∷ delete a xs

-- From `c` the siblings are the distinct nodes of the list, and no more.
pub data Chain (nodes : Nodes) : Option ℕ → List ℕ → Type 0 where
  nil : Chain nodes none []
  cons :
      {c : ℕ} {xs : List ℕ}
      → has c xs ≡ false
      → Chain nodes (node nodes c).next_sibling xs
      → Chain nodes (some c) (c ∷ xs)

pub data Distinct : List ℕ → Type 0 where
  nil : Distinct []
  cons : {c : ℕ} {xs : List ℕ} → has c xs ≡ false → Distinct xs → Distinct (c ∷ xs)

pub Chain-Distinct : {nodes : Nodes} {o : Option ℕ} {xs : List ℕ} → Chain nodes o xs → Distinct xs
Chain-Distinct nil = nil
Chain-Distinct (cons out s) = cons out (Chain-Distinct s)

-- A chain survives a change that keeps the siblings of its nodes.
pub frame :
    {nodes nodes' : Nodes} {o : Option ℕ} {xs : List ℕ}
    → Chain nodes o xs
    → ((a : ℕ) → has a xs ≡ true → (node nodes' a).next_sibling ≡ (node nodes a).next_sibling)
    → Chain nodes' o xs
frame nil same = nil
frame {nodes' = nodes'} (cons {c = c} {xs = xs} out s) same = cons out (
    subst (λ o. Chain nodes' o xs) (sym (same c (ground arith)))
      (frame s (λ a i. same a (ground (arith, i)))))

pub has-delete : (a b : ℕ) (xs : List ℕ) → has b xs ≡ false → has b (delete a xs) ≡ false
has-delete a b [] h = refl
has-delete a b (x ∷ xs) h = ground (arith, has-delete a b xs (ground arith))

pub has-delete_self : (a : ℕ) {xs : List ℕ} → Distinct xs → has a (delete a xs) ≡ false
has-delete_self a nil = refl
has-delete_self a (cons {c = c} {xs = xs} out s) = elim (Bool-cases (a == c)) [
  | inl e ↦ rw e (ground (arith, out, e))
  | inr e ↦ rw (e, e) (has-delete_self a s)
]

pub has-delete_other : (a b : ℕ) (xs : List ℕ) → has b (delete a xs) ≡ true → has b xs ≡ true
has-delete_other a b xs h = elim (Bool-cases (has b xs)) [
  | inl e ↦ e
  | inr e ↦ absurd (ground (arith, h, has-delete a b xs e))
]

-- There are no more distinct numbers below `n` than `n`.
length-delete : (a : ℕ) (xs : List ℕ) → has a xs ≡ true → length xs ≡ suc (length (delete a xs))
length-delete a [] h = absurd (ground arith)
length-delete a (x ∷ xs) h = ground (arith, length-delete a xs)

Distinct-delete : (a : ℕ) {xs : List ℕ} → Distinct xs → Distinct (delete a xs)
Distinct-delete a nil = nil
Distinct-delete a (cons {c = c} {xs = xs} out s) = elim (Bool-cases (a == c)) [
  | inl e ↦ rw e s
  | inr e ↦ rw e (cons (has-delete a c xs out) (Distinct-delete a s))
]

pub length-Distinct :
    (n : ℕ) (xs : List ℕ) → Distinct xs → ((a : ℕ) → has a xs ≡ true → a < n) → length xs ≤ n
length-Distinct zero [] s below = omega arith
length-Distinct zero (x ∷ xs) s below = absurd (omega (arith, below x (ground arith)))
length-Distinct (suc n) xs s below = elim (Bool-cases (has n xs)) [
  | inl e ↦ omega (
    arith,
    length-delete n xs e,
    length-Distinct n (delete n xs) (Distinct-delete n s)
        (λ a i. ground (arith, below a (has-delete_other n a xs i), i, has-delete_self n s)),
  )
  | inr e ↦
      (let fewer = length-Distinct n xs s (λ a i. ground (arith, below a i, i, e)) in
        omega (arith, fewer))
]

same_bytes_sound : (a b : List ℕ) → length a ≡ length b → same_bytes a b ≡ true → a ≡ b
unfolding same_bytes
same_bytes_sound [] [] l h = refl
same_bytes_sound [] (y ∷ b) l h = absurd (omega (arith, l))
same_bytes_sound (x ∷ a) [] l h = absurd (omega (arith, l))
same_bytes_sound (x ∷ a) (y ∷ b) l h = elim (Bool-cases (x == y)) [
  | inl e ↦
      ap₂ (λ c t. c ∷ t) (ground (arith, e))
        (same_bytes_sound a b (omega (arith, l)) (ground (arith, h, e)))
  | inr e ↦ absurd (ground (arith, h, e))
]

same_bytes_self : (a : List ℕ) → same_bytes a a ≡ true
unfolding same_bytes
same_bytes_self [] = refl
same_bytes_self (x ∷ a) = ground (arith, same_bytes_self a)

pub name_eq_sound : (a b : List ℕ) → name_eq a b ≡ true → a ≡ b
unfolding name_eq
name_eq_sound a b h = elim (Bool-cases (length a == length b)) [
  | inl e ↦ same_bytes_sound a b (ground (arith, e)) (ground (arith, h, e))
  | inr e ↦ absurd (ground (arith, h, e))
]

pub name_eq_self : (a : List ℕ) → name_eq a a ≡ true
unfolding name_eq
name_eq_self a = ground (arith, same_bytes_self a)

-- The first node of the list that has the name.
abbrev pub named : Nodes → List ℕ → List ℕ → Option ℕ
named nodes name [] = none
named nodes name (c ∷ xs) = if name_eq (node nodes c).name name then some c else named nodes name xs

pub find_loop-named :
    {nodes : Nodes} (name : List ℕ) (rounds : ℕ) {o : Option ℕ} {xs : List ℕ}
    → Chain nodes o xs
    → length xs ≤ rounds
    → find_loop nodes name rounds o ≡ named nodes name xs
unfolding find_loop
find_loop-named name zero nil h = refl
find_loop-named name (suc rounds) nil h = refl
find_loop-named name zero (cons out s) h = absurd (omega (arith, h))
find_loop-named {nodes} name (suc rounds) (cons {c = c} {xs = xs} out s) h =
    rw (find_loop-named name rounds s (omega (arith, h))) refl
