-- ===== src/MemFs/Enter.antt =====
-- A node entered into the tree of src/harlin/fs/mem_fs.c.
pub mod Tree
use har_lin_kernel.Base.{
  ℕ, ◌<◌, ◌≡◌, ◌≢◌, ◌⊎◌, refl, ap, sym, ◌∙◌, true, false, Option, none, some, List, [], ◌∷◌, arith,
  ◌==◌, if◌then◌else◌, length, Bool-cases, inl, inr, length-set,
}
use mathlib.Core.Path.{subst}
use native.Mathlib.Decide.{ℕ_discrete}
use har_lin_kernel.MemFs.{Node, Nodes, node, change, taken, dir_type, find_child}
use har_lin_kernel.MemFs.Calls.{filled, with_first}
use har_lin_kernel.MemFs.Chain.{has, Chain, nil, cons, frame}
use har_lin_kernel.MemFs.Valid.{
  IsValid, Child, node_self, node_other, find_child-none, find_child-has, find_child-only,
}

-- What the functions that create a node leave: node `n` is the first child of `p`, and nothing else
-- has changed.
pub record Entered (nodes : Nodes) (p n type : ℕ) (name : List ℕ) (mode : ℕ) (nodes' : Nodes)
    : Type 0 where
  pub size : length nodes' ≡ length nodes
  pub in_dir : (node nodes p).type ≡ dir_type
  pub at_n :
      node nodes' n ≡ filled type name p mode (node nodes p).first_child (taken (node nodes n))
  pub at_p : node nodes' p ≡ with_first (some n) (node nodes p)
  pub others : (a : ℕ) → a ≢ n → a ≢ p → node nodes' a ≡ node nodes a

-- The table after the writes.
abbrev pub entered_in : ℕ → ℕ → ℕ → List ℕ → ℕ → Nodes → Nodes
entered_in p n type name mode nodes = change p (with_first (some n)) (
    change n (filled type name p mode (node (change n taken nodes) p).first_child)
      (change n taken nodes))

pub entered_in-Entered :
    (nodes : Nodes) (p n type : ℕ) (name : List ℕ) (mode : ℕ)
    → n < length nodes
    → p < length nodes
    → p ≢ n
    → (node nodes p).type ≡ dir_type
    → Entered nodes p n type name mode (entered_in p n type name mode nodes)
entered_in-Entered nodes p n type name mode h k ne dir =
    let first = change n taken nodes in
    let fill = filled type name p mode (node first p).first_child in
    let then_filled = change n fill first in
    let size_first : length first ≡ length nodes = length-set nodes n _ in
    let size_then : length then_filled ≡ length nodes = length-set first n _ ∙ size_first in
    let old_p : node first p ≡ node nodes p = node_other nodes n p taken ne in
    record {
      size = length-set then_filled p _ ∙ size_then;
      in_dir = dir;
      at_n =
          node_other then_filled p n (with_first (some n)) (λ e. ne (sym e))
          ∙ node_self first n fill (omega (arith, size_first, h))
          ∙ ap fill (node_self nodes n taken h)
          ∙ ap (λ e. filled type name p mode e.first_child (taken (node nodes n))) old_p;
      at_p =
          node_self then_filled p (with_first (some n)) (omega (arith, size_then, k))
          ∙ ap (with_first (some n)) (node_other first n p fill ne ∙ old_p);
      others = λ a d e.
          node_other then_filled p a (with_first (some n)) e
          ∙ node_other first n a fill d
          ∙ node_other nodes n a taken d;
    }
