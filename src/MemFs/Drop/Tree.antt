-- ===== src/MemFs/Drop/Tree.antt =====
-- The tree of src/harlin/fs/mem_fs.c after `Harlin_MemFsRmdir` or `Harlin_MemFsRemove`.
use har_lin_kernel.Base.{
  ℕ, ◌≡◌, ◌≢◌, refl, ap, sym, ◌∙◌, true, false, Option, none, some, List, [], arith, ◌==◌,
  if◌then◌else◌, Bool-cases, inl, inr, Option-cases,
}
use mathlib.Core.Path.{subst}
use native.Mathlib.Decide.{ℕ_discrete}
use har_lin_kernel.MemFs.{Node, Nodes, node, find_child}
use har_lin_kernel.MemFs.Calls.{with_first, with_next}
use har_lin_kernel.MemFs.Chain.{
  has, delete, has-delete_self, has-delete_other, Chain, nil, Chain-Distinct, frame,
}
use har_lin_kernel.MemFs.Valid.{IsValid, Child, find_child-has, find_child-only}
use har_lin_kernel.MemFs.Drop.{apart, Dropped}

module _ {nodes nodes' : Nodes} {p n : ℕ} (v : IsValid nodes) (h : has n (v.kids p) ≡ true)
    (e : Dropped nodes p n (v.kids p) nodes') where
  -- A node other than `n` keeps all but what leads to children and siblings.
  pub stays :
      {B : Type 0} (f : Node → B)
      → ((o q : Option ℕ) (x : Node) → f (with_first o (with_next q x)) ≡ f x)
      → (a : ℕ) → a ≢ n
      → f (node nodes' a) ≡ f (node nodes a)
  stays f still a ne = let (o, q, same) = e.same a ne in ap f same ∙ still o q (node nodes a)

  stays_used : (a : ℕ) → a ≢ n → (node nodes' a).used ≡ (node nodes a).used
  stays_used = stays (λ x. x.used) (λ o q x. refl)

  stays_name : (a : ℕ) → a ≢ n → (node nodes' a).name ≡ (node nodes a).name
  stays_name = stays (λ x. x.name) (λ o q x. refl)

  one_parent : (d c : ℕ) → has c (v.kids d) ≡ true → has c (v.kids p) ≡ true → d ≡ p
  one_parent d c i j = ground (arith, sym (v.child d c i).below ∙ (v.child p c j).below)

  elsewhere : (d c : ℕ) → d ≢ p → has c (v.kids d) ≡ true → has c (v.kids p) ≡ false
  elsewhere d c f i = elim (Bool-cases (has c (v.kids p))) [
    | inl j ↦ absurd (f (one_parent d c i j))
    | inr j ↦ j
  ]

  not_n : (d c : ℕ) → d ≢ p → has c (v.kids d) ≡ true → c ≢ n
  not_n d c f i same = f (one_parent d n (sym (ap (λ a. has a (v.kids d)) same) ∙ i) h)

  abbrev kids_left : ℕ → List ℕ
  kids_left d = if d == p then delete n (v.kids p) else if d == n then [] else v.kids d

  left_p : kids_left p ≡ delete n (v.kids p)
  left_p = ground arith

  n-p : n ≢ p
  n-p = (v.child p n h).not_self

  left_n : kids_left n ≡ []
  left_n = ground (arith, n-p)

  left_other : (d : ℕ) → d ≢ p → d ≢ n → kids_left d ≡ v.kids d
  left_other d f g = ground (arith, f, g)

  left_chain : (d : ℕ) → Chain nodes' (node nodes' d).first_child (kids_left d)
  left_chain d = elim (ℕ_discrete d p) [
    | yes same ↦ rw (same, left_p) e.p_chain
    | no f ↦ elim (ℕ_discrete d n) [
      | yes same ↦ rw (same, left_n, ap (λ x. x.first_child) e.at_n) nil
      | no g ↦
          rw (left_other d f g, e.first_same d g f)
            (frame (v.chain d) (λ a i. e.next_same a (not_n d a f i) (elsewhere d a f i)))
    ]
  ]

  -- A child that is left was a child before, and is not `n`.
  was_kid : (d c : ℕ) → has c (kids_left d) ≡ true → (has c (v.kids d) ≡ true) × (c ≢ n)
  was_kid d c i = elim (ℕ_discrete d p) [
    | yes same ↦
        (let j = sym (ap (has c) (ap kids_left same ∙ left_p)) ∙ i in
          (
            ap (λ a. has c (v.kids a)) same ∙ has-delete_other n c (v.kids p) j,
            apart c n (delete n (v.kids p)) j (has-delete_self n (Chain-Distinct (v.chain p))),
          ))
    | no f ↦ elim (ℕ_discrete d n) [
      | yes same ↦ absurd (ground (arith, ap (has c) (ap kids_left same ∙ left_n), i))
      | no g ↦ (let j = sym (ap (has c) (left_other d f g)) ∙ i in (j, not_n d c f j))
    ]
  ]

  not_dropped : (d c : ℕ) → has c (kids_left d) ≡ true → d ≢ n
  not_dropped d c i same = ground (arith, ap (has c) (ap kids_left same ∙ left_n), i)

  left-Child : (d c : ℕ) → has c (kids_left d) ≡ true → Child nodes' d c
  left-Child d c i =
      let (j, ne) = was_kid d c i in
      let k = v.child d c j in
      record {
        in_use = stays_used c ne ∙ k.in_use;
        below = stays (λ x. x.parent) (λ o q x. refl) c ne ∙ k.below;
        not_root = k.not_root;
        not_self = k.not_self;
        in_dir = stays (λ x. x.type) (λ o q x. refl) d (not_dropped d c i) ∙ k.in_dir;
      }

  parent_used : (node nodes p).used ≡ true
  parent_used = elim (Bool-cases (node nodes p).used) [
    | inl u ↦ u
    | inr u ↦
        absurd
          (childless (v.kids p) (subst (λ o. Chain nodes o (v.kids p)) (v.fresh p u) (v.chain p)) h)
  ]
    where
      childless : (xs : List ℕ) → Chain nodes none xs → has n xs ≡ true → ⊥
      childless _ nil i = ground arith

  left_fresh : (d : ℕ) → (node nodes' d).used ≡ false → (node nodes' d).first_child ≡ none
  left_fresh d u = elim (ℕ_discrete d n) [
    | yes same ↦ rw same (ap (λ x. x.first_child) e.at_n)
    | no g ↦
        (let before = sym (stays_used d g) ∙ u in
          let f : d ≢ p =
            λ same. ground (arith, parent_used, ap (λ a. (node nodes a).used) same, before) in
          e.first_same d g f ∙ v.fresh d before)
  ]

  left_unique :
      (d c b : ℕ)
      → has c (kids_left d) ≡ true
      → has b (kids_left d) ≡ true
      → (node nodes' c).name ≡ (node nodes' b).name
      → c ≡ b
  left_unique d c b i j same =
      let (i', ne) = was_kid d c i in
      let (j', nf) = was_kid d b j in
      v.unique d c b i' j' (sym (stays_name c ne) ∙ same ∙ stays_name b nf)

  -- The tree without the node.
  pub tree_left : IsValid nodes'
  tree_left = record {
    size = e.size ∙ v.size;
    kids = kids_left;
    chain = left_chain;
    child = left-Child;
    depth = v.depth;
    deeper = λ d c i. v.deeper d c (was_kid d c i).0;
    fresh = left_fresh;
    unique = left_unique;
    root = stays_used 0 (λ same. (v.child p n h).not_root (sym same)) ∙ v.root;
  }

  pub left_kid : (d c : ℕ) → has c (tree_left.kids d) ≡ true → (has c (v.kids d) ≡ true) × (c ≢ n)
  unfolding tree_left
  left_kid d c h = was_kid d c h

  -- The name of the node is not found any more in its directory.
  pub find_child-gone : find_child nodes' p (node nodes n).name ≡ none
  unfolding tree_left
  find_child-gone = elim (Option-cases (find_child nodes' p (node nodes n).name)) [
    | inl nothing ↦ nothing
    | inr (c, found) ↦
        (let (i, same) = find_child-has tree_left p (node nodes n).name c found in
          let (j, ne) = was_kid p c i in
          absurd (ne (v.unique p c n j h (sym (stays_name c ne) ∙ same))))
  ]

  -- What is found afterwards was found before.
  pub find_child-before :
      (d c : ℕ) (w : List ℕ) → find_child nodes' d w ≡ some c → find_child nodes d w ≡ some c
  unfolding tree_left
  find_child-before d c w found =
      let (i, same) = find_child-has tree_left d w c found in
      let (j, ne) = was_kid d c i in
      sym (ap (find_child nodes d) (sym (stays_name c ne) ∙ same)) ∙ find_child-only v d c j

  -- The children of the node itself are nobody's children then.
  pub orphan : (d c : ℕ) → has c (v.kids n) ≡ true → has c (tree_left.kids d) ≡ false
  unfolding tree_left
  orphan d c i = elim (Bool-cases (has c (kids_left d))) [
    | inr k ↦ k
    | inl k ↦
        (let (j, ne) = was_kid d c k in
          let same : d ≡ n = ground (arith, sym (v.child d c j).below ∙ (v.child n c i).below) in
          absurd (ground (arith, ap (has c) (ap kids_left same ∙ left_n), k)))
  ]
