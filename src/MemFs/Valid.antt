-- ===== src/MemFs/Valid.antt =====
-- The trees in the table of src/harlin/fs/mem_fs.c: each directory has a finite chain of children.
use har_lin_kernel.Base.{
  ℕ, suc, ◌≤◌, ◌<◌, ◌≡◌, ◌≢◌, refl, ap, sym, ◌∙◌, true, false, none, some, List, [], ◌∷◌, arith,
  length, Bool-cases, inl, inr, get_or-past, get_or-set_self, get_or-set_ne, ltb, Option-cases,
}
use native.Mathlib.Decide.{ℕ_discrete}
use har_lin_kernel.MemFs.{
  Node, Nodes, node, blank, change, node_count, dir_type, name_eq, find_child,
}
use har_lin_kernel.MemFs.Chain.{
  has, Chain, Chain-Distinct, length-Distinct, name_eq_sound, name_eq_self, named, find_loop-named,
}

-- A node among the children of node `d`.
pub record Child (nodes : Nodes) (d c : ℕ) : Type 0 where
  pub in_use : (node nodes c).used ≡ true
  pub below : (node nodes c).parent ≡ some d
  pub not_root : c ≢ 0
  pub not_self : c ≢ d
  pub in_dir : (node nodes d).type ≡ dir_type

-- `kids d` are the children of node `d`, which lie one level deeper. The levels exclude circles;
-- nodes that no directory leads to any more may be in use.
pub record IsValid (nodes : Nodes) : Type 0 where
  pub size : length nodes ≡ node_count
  pub kids : ℕ → List ℕ
  pub chain : (d : ℕ) → Chain nodes (node nodes d).first_child (kids d)
  pub child : (d c : ℕ) → has c (kids d) ≡ true → Child nodes d c
  pub depth : ℕ → ℕ
  pub deeper : (d c : ℕ) → has c (kids d) ≡ true → depth c ≡ suc (depth d)
  pub fresh : (d : ℕ) → (node nodes d).used ≡ false → (node nodes d).first_child ≡ none
  pub unique :
      (d c e : ℕ)
      → has c (kids d) ≡ true
      → has e (kids d) ≡ true
      → (node nodes c).name ≡ (node nodes e).name
      → c ≡ e
  pub root : (node nodes 0).used ≡ true

-- Only nodes of the table are in use.
pub used-lt :
    (nodes : Nodes) (c : ℕ)
    → length nodes ≡ node_count
    → (node nodes c).used ≡ true
    → c < node_count
used-lt nodes c h u = elim (Bool-cases (ltb c node_count)) [
  | inl e ↦ ground (arith, e)
  | inr e ↦
      absurd
        (ground (arith, ap (λ e. e.used) (get_or-past nodes c blank (ground (arith, e, h))), u))
]

pub node_self :
    (nodes : Nodes) (i : ℕ) (f : Node → Node)
    → i < length nodes
    → node (change i f nodes) i ≡ f (node nodes i)
node_self nodes i f h = get_or-set_self nodes i (f (node nodes i)) blank h

pub node_other :
    (nodes : Nodes) (i j : ℕ) (f : Node → Node) → j ≢ i → node (change i f nodes) j ≡ node nodes j
node_other nodes i j f h = get_or-set_ne nodes i j (f (node nodes i)) blank (λ e. h (sym e))

named-has :
    (nodes : Nodes) (name : List ℕ) (xs : List ℕ) (c : ℕ)
    → named nodes name xs ≡ some c
    → (has c xs ≡ true) × ((node nodes c).name ≡ name)
named-has nodes name [] c e = absurd (ground arith)
named-has nodes name (x ∷ xs) c e = elim (Bool-cases (name_eq (node nodes x).name name)) [
  | inl t ↦
      (let same : x ≡ c = ground (arith, e, t) in
        (ground (arith, same), rw (sym same) (name_eq_sound (node nodes x).name name t)))
  | inr t ↦
      (let (h, n) = named-has nodes name xs c (ground (arith, e, t)) in (ground (arith, h), n))
]

named-none :
    (nodes : Nodes) (name : List ℕ) (xs : List ℕ) (c : ℕ)
    → named nodes name xs ≡ none
    → has c xs ≡ true
    → (node nodes c).name ≢ name
named-none nodes name [] c e h n = absurd (ground arith)
named-none nodes name (x ∷ xs) c e h n = elim (Bool-cases (name_eq (node nodes x).name name)) [
  | inl t ↦ absurd (ground (arith, e, t))
  | inr t ↦ elim (ℕ_discrete c x) [
    | yes same ↦
        (let found : name_eq (node nodes x).name name ≡ true =
            rw (sym same, n) (name_eq_self name) in
          absurd (ground (arith, found, t)))
    | no differ ↦ named-none nodes name xs c (ground (arith, e, t)) (ground (arith, h, differ)) n
  ]
]

module _ {nodes : Nodes} (v : IsValid nodes) where
  pub child-lt : (d c : ℕ) → has c (v.kids d) ≡ true → c < node_count
  child-lt d c h = used-lt nodes c v.size (v.child d c h).in_use

  pub few_kids : (d : ℕ) → length (v.kids d) ≤ node_count
  few_kids d = length-Distinct node_count (v.kids d) (Chain-Distinct (v.chain d)) (child-lt d)

  -- `find_child` looks through all children: its rounds are enough.
  pub find_child-named :
      (d : ℕ) (name : List ℕ) → find_child nodes d name ≡ named nodes name (v.kids d)
  unfolding find_child
  find_child-named d name = find_loop-named name node_count (v.chain d) (few_kids d)

  pub find_child-has :
      (d : ℕ) (name : List ℕ) (c : ℕ)
      → find_child nodes d name ≡ some c
      → (has c (v.kids d) ≡ true) × ((node nodes c).name ≡ name)
  find_child-has d name c e = named-has nodes name (v.kids d) c (sym (find_child-named d name) ∙ e)

  pub find_child-none :
      (d : ℕ) (name : List ℕ) (c : ℕ)
      → find_child nodes d name ≡ none
      → has c (v.kids d) ≡ true
      → (node nodes c).name ≢ name
  find_child-none d name c e =
      named-none nodes name (v.kids d) c (sym (find_child-named d name) ∙ e)

  -- The one child with a name is found.
  pub find_child-only :
      (d c : ℕ) → has c (v.kids d) ≡ true → find_child nodes d (node nodes c).name ≡ some c
  find_child-only d c h = elim (Option-cases (find_child nodes d (node nodes c).name)) [
    | inl e ↦ absurd (find_child-none d (node nodes c).name c e h refl)
    | inr (b, e) ↦
        (let (i, n) = find_child-has d (node nodes c).name b e in
          e ∙ ap some (v.unique d b c i h n))
  ]
