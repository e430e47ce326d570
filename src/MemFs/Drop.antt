-- ===== src/MemFs/Drop.antt =====
-- A node leaves its directory, in `Harlin_MemFsRmdir` and `Harlin_MemFsRemove` of
-- src/harlin/fs/mem_fs.c.
pub mod Unlink
pub mod Tree
use har_lin_kernel.Base.{
  ℕ, zero, suc, ◌+◌, ◌≤◌, ◌<◌, ◌≡◌, ◌≢◌, refl, ap, sym, ◌∙◌, Bool, true, false, not, ◌||◌, Option,
  none, some, List, [], ◌∷◌, arith, ◌==◌, leb, if◌then◌else◌, length, get_or, set, Bool-cases, inl,
  inr, length-set, Option-cases,
}
use mathlib.Core.Path.{subst}
use native.Mathlib.Decide.{ℕ_discrete}
use har_lin_kernel.MemFs.{
  Node, Nodes, node, blank, change, node_count, freed, free_node, find_child,
}
use har_lin_kernel.MemFs.Calls.{
  with_first, with_next, is_node, find_before, unlink, unlink_behind, drop_node,
}
use har_lin_kernel.MemFs.Chain.{
  has, has-delete, delete, has-delete_self, has-delete_other, Distinct, Chain, nil, cons,
  Chain-Distinct, frame,
}
use har_lin_kernel.MemFs.Valid.{IsValid, Child, node_self, node_other, child-lt, few_kids, used-lt}

-- What `find_before` finds for a node `n` of a chain: the sibling before it, which then leads past
-- `n` in every table that differs there only.
pub record Before (nodes : Nodes) (n x : ℕ) (xs : List ℕ) (found : Option ℕ) : Type 0 where
  pub before : ℕ
  pub result : found ≡ some before
  pub in_chain : has before (x ∷ xs) ≡ true
  pub not_it : before ≢ n
  pub bypass :
      (nodes' : Nodes)
      → (node nodes' before).next_sibling ≡ (node nodes n).next_sibling
      → ((a : ℕ)
          → has a (x ∷ xs) ≡ true
          → a ≢ before
          → a ≢ n
          → (node nodes' a).next_sibling ≡ (node nodes a).next_sibling)
      → Chain nodes' (some x) (x ∷ delete n xs)

is_node-some : (n : ℕ) (o : Option ℕ) → is_node n o ≡ true → o ≡ some n
is_node-some n none h = absurd (ground arith)
is_node-some n (some c) h = ground (arith, h)

pub apart : (a b : ℕ) (xs : List ℕ) → has a xs ≡ true → has b xs ≡ false → a ≢ b
apart a b xs h i q = ground (arith, sym (ap (λ t. has t xs) q) ∙ h, i)

pub find_before-Before :
    {nodes : Nodes} (n x : ℕ) {o : Option ℕ} {xs : List ℕ} (rounds : ℕ)
    → (node nodes x).next_sibling ≡ o
    → x ≢ n
    → has x xs ≡ false
    → Chain nodes o xs
    → has n xs ≡ true
    → length xs ≤ rounds
    → Before nodes n x xs (find_before nodes n (suc rounds) (some x))
unfolding find_before
find_before-Before n x rounds e ne out nil h l = absurd (ground arith)
find_before-Before {nodes} n x zero e ne out (cons {c = c} {xs = xs} f s) h l =
    absurd (omega (arith, l))
find_before-Before {nodes} n x (suc rounds) e ne out (cons {c = c} {xs = xs} f s) h l =
    elim (ℕ_discrete c n) [
      | yes same ↦
          (let hit : is_node n (node nodes x).next_sibling ≡ true = ground (arith, e, same) in
            rw hit (record {
              before = x;
              result = refl;
              in_chain = ground arith;
              not_it = ne;
              bypass = λ nodes' past keeps.
                  let met : (n == c) ≡ true = ground (arith, same) in
                  let leads = past ∙ ap (λ a. (node nodes a).next_sibling) (sym same) in
                  let rest = frame s (λ a i.
                    keeps a (ground (arith, i)) (apart a x xs i (ground (arith, out)))
                      (apart a n xs i (sym (ap (λ t. has t xs) same) ∙ f))) in
                  rw met
                    (cons (ground (arith, out)) (subst (λ o. Chain nodes' o xs) (sym leads) rest));
            }))
      | no differ ↦
          (let miss : is_node n (node nodes x).next_sibling ≡ false = ground (arith, e, differ) in
            let r =
              find_before-Before n c rounds refl differ f s (ground (arith, h, differ))
                (omega (arith, l)) in
            rw (miss, e)
              (record {
                before = r.before;
                result = r.result;
                in_chain = ground (arith, r.in_chain);
                not_it = r.not_it;
                bypass = λ nodes' past keeps.
                    let passed : (n == c) ≡ false = ground (arith, differ) in
                    let not_there : x ≢ r.before = λ q. ground (arith, r.in_chain, q, out) in
                    let leads = keeps x (ground arith) not_there ne ∙ e in
                    let rest = r.bypass nodes' past (λ a i. keeps a (ground (arith, i))) in
                    rw passed (
                      cons (ground (arith, out, has-delete n x xs (ground (arith, out))))
                        (subst (λ o. Chain nodes' o (c ∷ delete n xs)) (sym leads) rest));
              }))
    ]

-- A table in which node `c` was changed and then node `n` freed.
abbrev pub change_free : Nodes → ℕ → ℕ → (Node → Node) → Nodes
change_free nodes c n g = change n freed (change c g nodes)

module _ (nodes : Nodes) (c n : ℕ) (g : Node → Node) (h : n < length nodes) (k : c < length nodes)
    (ne : c ≢ n) where
  size_first : length (change c g nodes) ≡ length nodes
  size_first = length-set nodes c (g (node nodes c))

  size_both : length (change_free nodes c n g) ≡ length nodes
  size_both = length-set (change c g nodes) n _ ∙ size_first

  free_at : node (change_free nodes c n g) n ≡ freed (node nodes n)
  free_at =
      node_self (change c g nodes) n freed (omega (arith, size_first, h))
      ∙ ap freed (node_other nodes c n g (λ e. ne (sym e)))

  change_at : node (change_free nodes c n g) c ≡ g (node nodes c)
  change_at = node_other (change c g nodes) n c freed ne ∙ node_self nodes c g k

  others_at : (a : ℕ) → a ≢ n → a ≢ c → node (change_free nodes c n g) a ≡ node nodes a
  others_at a d e = node_other (change c g nodes) n a freed d ∙ node_other nodes c a g e

-- What the removal of node `n` from the children `xs` of `p` leaves.
pub record Dropped (nodes : Nodes) (p n : ℕ) (xs : List ℕ) (nodes' : Nodes) : Type 0 where
  pub size : length nodes' ≡ length nodes
  pub at_n : node nodes' n ≡ freed (node nodes n)
  pub same :
      (a : ℕ)
      → a ≢ n
      → (o : Option ℕ) × (q : Option ℕ) × (node nodes' a
          ≡ with_first o (with_next q (node nodes a)))
  pub first_same :
      (a : ℕ) → a ≢ n → a ≢ p → (node nodes' a).first_child ≡ (node nodes a).first_child
  pub next_same :
      (a : ℕ)
      → a ≢ n
      → has a xs ≡ false
      → (node nodes' a).next_sibling ≡ (node nodes a).next_sibling
  pub p_chain : Chain nodes' (node nodes' p).first_child (delete n xs)

pub first-Dropped :
    (nodes : Nodes) (p n : ℕ) (xs : List ℕ)
    → n < length nodes
    → p < length nodes
    → p ≢ n
    → has n xs ≡ false
    → Chain nodes (node nodes n).next_sibling xs
    → Dropped nodes p n (n ∷ xs) (change_free nodes p n (with_first (node nodes n).next_sibling))
first-Dropped nodes p n xs h k ne out s =
    let g = with_first (node nodes n).next_sibling in
    let next_kept : (a : ℕ)
        → a ≢ n
        → (node (change_free nodes p n g) a).next_sibling ≡ (node nodes a).next_sibling =
      λ a d. elim (ℕ_discrete a p) [
        | yes q ↦ rw q (ap (λ x. x.next_sibling) (change_at nodes p n g h k ne))
        | no q ↦ ap (λ x. x.next_sibling) (others_at nodes p n g h k ne a d q)
      ] in
    let here : (n == n) ≡ true = ground arith in
    record {
      size = size_both nodes p n g h k ne;
      at_n = free_at nodes p n g h k ne;
      same = λ a d. elim (ℕ_discrete a p) [
        | yes q ↦ (
          (node nodes n).next_sibling,
          (node nodes a).next_sibling,
          rw q (change_at nodes p n g h k ne),
        )
        | no q ↦ (
          (node nodes a).first_child,
          (node nodes a).next_sibling,
          others_at nodes p n g h k ne a d q,
        )
      ];
      first_same = λ a d q. ap (λ x. x.first_child) (others_at nodes p n g h k ne a d q);
      next_same = λ a d i. next_kept a d;
      p_chain = rw here (
          subst (λ o. Chain (change_free nodes p n g) o xs)
            (sym (ap (λ x. x.first_child) (change_at nodes p n g h k ne)))
            (frame s (λ a i. next_kept a (apart a n xs i out))));
    }

pub behind-Dropped :
    (nodes : Nodes) (p n c : ℕ) (xs : List ℕ)
    → n < length nodes
    → c < length nodes
    → c ≢ n
    → p ≢ n
    → has c xs ≡ true
    → ((nodes' : Nodes)
        → (node nodes' c).next_sibling ≡ (node nodes n).next_sibling
        → ((a : ℕ)
            → has a xs ≡ true
            → a ≢ c
            → a ≢ n
            → (node nodes' a).next_sibling ≡ (node nodes a).next_sibling)
        → Chain nodes' (node nodes p).first_child (delete n xs))
    → Dropped nodes p n xs (change_free nodes c n (with_next (node nodes n).next_sibling))
behind-Dropped nodes p n c xs h k ne np i bypass =
    let g = with_next (node nodes n).next_sibling in
    let first_kept : (a : ℕ)
        → a ≢ n
        → (node (change_free nodes c n g) a).first_child ≡ (node nodes a).first_child =
      λ a d. elim (ℕ_discrete a c) [
        | yes q ↦ rw q (ap (λ x. x.first_child) (change_at nodes c n g h k ne))
        | no q ↦ ap (λ x. x.first_child) (others_at nodes c n g h k ne a d q)
      ] in
    record {
      size = size_both nodes c n g h k ne;
      at_n = free_at nodes c n g h k ne;
      same = λ a d. elim (ℕ_discrete a c) [
        | yes q ↦ (
          (node nodes a).first_child,
          (node nodes n).next_sibling,
          rw q (change_at nodes c n g h k ne),
        )
        | no q ↦ (
          (node nodes a).first_child,
          (node nodes a).next_sibling,
          others_at nodes c n g h k ne a d q,
        )
      ];
      first_same = λ a d q. first_kept a d;
      next_same = λ a d f.
          ap (λ x. x.next_sibling)
            (others_at nodes c n g h k ne a d
              (λ q. ground (arith, sym (ap (λ t. has t xs) q) ∙ f, i)));
      p_chain =
          subst (λ o. Chain (change_free nodes c n g) o (delete n xs)) (sym (first_kept p np))
            (bypass (change_free nodes c n g)
              (ap (λ x. x.next_sibling) (change_at nodes c n g h k ne))
              (λ a j d e. ap (λ x. x.next_sibling) (others_at nodes c n g h k ne a e d)));
    }
