-- ===== src/MemFs/Enter/Tree.antt =====
-- The tree with a node entered: src/harlin/fs/mem_fs.c.
use har_lin_kernel.Base.{
  ℕ, suc, ◌≡◌, ◌≢◌, ◌⊎◌, refl, ap, sym, ◌∙◌, true, false, Option, none, some, List, [], ◌∷◌, arith,
  ◌==◌, if◌then◌else◌, Bool-cases, inl, inr,
}
use mathlib.Core.Path.{subst}
use native.Mathlib.Decide.{ℕ_discrete}
use har_lin_kernel.MemFs.{Node, Nodes, node, find_child}
use har_lin_kernel.MemFs.Calls.{with_first}
use har_lin_kernel.MemFs.Chain.{has, Chain, nil, cons, frame}
use har_lin_kernel.MemFs.Valid.{IsValid, Child, find_child-none, find_child-has, find_child-only}
-- What the functions that create a node leave: node `n` is the first child of `p`, and nothing else
-- has changed.
use har_lin_kernel.MemFs.Enter.{Entered}

module _ {nodes nodes' : Nodes} {p n type : ℕ} {name : List ℕ} {mode : ℕ} (v : IsValid nodes)
    (e : Entered nodes p n type name mode nodes') (used_p : (node nodes p).used ≡ true)
    (free_n : (node nodes n).used ≡ false) (new_name : find_child nodes p name ≡ none) where
  p-n : p ≢ n
  p-n same = ground (arith, ap (λ a. (node nodes a).used) same, used_p, free_n)

  -- A node other than `n` keeps all but its first child.
  pub kept :
      {B : Type 0} (f : Node → B)
      → ((o : Option ℕ) (x : Node) → f (with_first o x) ≡ f x)
      → (a : ℕ) → a ≢ n
      → f (node nodes' a) ≡ f (node nodes a)
  kept f still a ne = elim (ℕ_discrete a p) [
    | yes same ↦ rw same (ap f e.at_p ∙ still (some n) (node nodes p))
    | no differ ↦ ap f (e.others a ne differ)
  ]

  old_kid : (d c : ℕ) → has c (v.kids d) ≡ true → c ≢ n
  old_kid d c h same =
      ground (arith, (v.child d c h).in_use, ap (λ a. (node nodes a).used) same, free_n)

  no_kid : (d : ℕ) → has n (v.kids d) ≡ false
  no_kid d = elim (Bool-cases (has n (v.kids d))) [
    | inl h ↦ absurd (old_kid d n h refl)
    | inr h ↦ h
  ]

  abbrev new_kids : ℕ → List ℕ
  new_kids d = if d == p then n ∷ v.kids p else if d == n then [] else v.kids d

  kids_p : new_kids p ≡ n ∷ v.kids p
  kids_p = ground arith

  kids_n : new_kids n ≡ []
  kids_n = ground (arith, p-n)

  kids_other : (d : ℕ) → d ≢ p → d ≢ n → new_kids d ≡ v.kids d
  kids_other d f g = ground (arith, f, g)

  kept_next : (a : ℕ) → a ≢ n → (node nodes' a).next_sibling ≡ (node nodes a).next_sibling
  kept_next = kept (λ x. x.next_sibling) (λ o x. refl)

  kept_chain : (d : ℕ) → Chain nodes' (node nodes d).first_child (v.kids d)
  kept_chain d = frame (v.chain d) (λ a i. kept_next a (old_kid d a i))

  new_chain : (d : ℕ) → Chain nodes' (node nodes' d).first_child (new_kids d)
  new_chain d = elim (ℕ_discrete d p) [
    | yes same ↦
        rw (same, kids_p, ap (λ x. x.first_child) e.at_p)
          (cons (no_kid p) (
            subst (λ o. Chain nodes' o (v.kids p)) (sym (ap (λ x. x.next_sibling) e.at_n))
              (kept_chain p)))
    | no f ↦ elim (ℕ_discrete d n) [
      | yes same ↦ rw (same, kids_n, ap (λ x. x.first_child) e.at_n) nil
      | no g ↦ rw (kids_other d f g, ap (λ x. x.first_child) (e.others d g f)) (kept_chain d)
    ]
  ]

  kept-Child : (d c : ℕ) → d ≢ n → Child nodes d c → c ≢ n → Child nodes' d c
  kept-Child d c nd h ne = record {
    in_use = kept (λ x. x.used) (λ o x. refl) c ne ∙ h.in_use;
    below = kept (λ x. x.parent) (λ o x. refl) c ne ∙ h.below;
    not_root = h.not_root;
    not_self = h.not_self;
    in_dir = kept (λ x. x.type) (λ o x. refl) d nd ∙ h.in_dir;
  }

  not_zero : n ≢ 0
  not_zero same = ground (arith, v.root, ap (λ a. (node nodes a).used) same, free_n)

  entered-Child : Child nodes' p n
  entered-Child = record {
    in_use = ap (λ x. x.used) e.at_n;
    below = ap (λ x. x.parent) e.at_n;
    not_root = not_zero;
    not_self = λ same. p-n (sym same);
    in_dir = kept (λ x. x.type) (λ o x. refl) p p-n ∙ e.in_dir;
  }

  new-Child_p : (c : ℕ) → has c (n ∷ v.kids p) ≡ true → Child nodes' p c
  new-Child_p c h = elim (ℕ_discrete c n) [
    | yes same ↦ rw same entered-Child
    | no differ ↦ kept-Child p c p-n (v.child p c (ground (arith, h, differ))) differ
  ]

  new-Child : (d c : ℕ) → has c (new_kids d) ≡ true → Child nodes' d c
  new-Child d c h = elim (ℕ_discrete d p) [
    | yes same ↦ rw same (new-Child_p c (sym (ap (has c) (ap new_kids same ∙ kids_p)) ∙ h))
    | no f ↦ elim (ℕ_discrete d n) [
      | yes same ↦ absurd (ground (arith, ap (has c) (ap new_kids same ∙ kids_n), h))
      | no g ↦
          (let i = sym (ap (has c) (kids_other d f g)) ∙ h in
            kept-Child d c g (v.child d c i) (old_kid d c i))
    ]
  ]

  -- The new node lies below its directory.
  abbrev new_depth : ℕ → ℕ
  new_depth a = if a == n then suc (v.depth p) else v.depth a

  depth_n : new_depth n ≡ suc (v.depth p)
  depth_n = ground arith

  depth_other : (a : ℕ) → a ≢ n → new_depth a ≡ v.depth a
  depth_other a ne = ground (arith, ne)

  kept_deeper : (d c : ℕ) → d ≢ n → has c (v.kids d) ≡ true → new_depth c ≡ suc (new_depth d)
  kept_deeper d c nd h =
      depth_other c (old_kid d c h) ∙ v.deeper d c h ∙ ap suc (sym (depth_other d nd))

  deeper_p : (c : ℕ) → has c (n ∷ v.kids p) ≡ true → new_depth c ≡ suc (new_depth p)
  deeper_p c h = elim (ℕ_discrete c n) [
    | yes same ↦ ap new_depth same ∙ depth_n ∙ ap suc (sym (depth_other p p-n))
    | no differ ↦ kept_deeper p c p-n (ground (arith, h, differ))
  ]

  new_deeper : (d c : ℕ) → has c (new_kids d) ≡ true → new_depth c ≡ suc (new_depth d)
  new_deeper d c h = elim (ℕ_discrete d p) [
    | yes same ↦
        deeper_p c (sym (ap (has c) (ap new_kids same ∙ kids_p)) ∙ h)
        ∙ ap (λ a. suc (new_depth a)) (sym same)
    | no f ↦ elim (ℕ_discrete d n) [
      | yes same ↦ absurd (ground (arith, ap (has c) (ap new_kids same ∙ kids_n), h))
      | no g ↦ kept_deeper d c g (sym (ap (has c) (kids_other d f g)) ∙ h)
    ]
  ]

  name_n : (node nodes' n).name ≡ name
  name_n = ap (λ x. x.name) e.at_n

  kept_name : (a : ℕ) → a ≢ n → (node nodes' a).name ≡ (node nodes a).name
  kept_name = kept (λ x. x.name) (λ o x. refl)

  only_n : (c : ℕ) → has c (v.kids p) ≡ true → (node nodes' c).name ≢ name
  only_n c h same = find_child-none v p name c new_name h (sym (kept_name c (old_kid p c h)) ∙ same)

  unique_p :
      (c b : ℕ)
      → has c (n ∷ v.kids p) ≡ true
      → has b (n ∷ v.kids p) ≡ true
      → (node nodes' c).name ≡ (node nodes' b).name
      → c ≡ b
  unique_p c b h i same = elim (ℕ_discrete c n) [
    | yes f ↦ elim (ℕ_discrete b n) [
      | yes g ↦ f ∙ sym g
      | no g ↦
          absurd
            (only_n b (ground (arith, i, g)) (sym same ∙ ap (λ a. (node nodes' a).name) f ∙ name_n))
    ]
    | no f ↦ elim (ℕ_discrete b n) [
      | yes g ↦
          absurd
            (only_n c (ground (arith, h, f)) (same ∙ ap (λ a. (node nodes' a).name) g ∙ name_n))
      | no g ↦
          v.unique p c b (ground (arith, h, f)) (ground (arith, i, g))
            (sym (kept_name c f) ∙ same ∙ kept_name b g)
    ]
  ]

  new_unique :
      (d c b : ℕ)
      → has c (new_kids d) ≡ true
      → has b (new_kids d) ≡ true
      → (node nodes' c).name ≡ (node nodes' b).name
      → c ≡ b
  new_unique d c b h i same = elim (ℕ_discrete d p) [
    | yes q ↦
        unique_p c b (sym (ap (has c) (ap new_kids q ∙ kids_p)) ∙ h)
          (sym (ap (has b) (ap new_kids q ∙ kids_p)) ∙ i) same
    | no f ↦ elim (ℕ_discrete d n) [
      | yes q ↦ absurd (ground (arith, ap (has c) (ap new_kids q ∙ kids_n), h))
      | no g ↦
          (let h' = sym (ap (has c) (kids_other d f g)) ∙ h in
            let i' = sym (ap (has b) (kids_other d f g)) ∙ i in
            v.unique d c b h' i'
              (sym (kept_name c (old_kid d c h')) ∙ same ∙ kept_name b (old_kid d b i')))
    ]
  ]

  new_fresh : (d : ℕ) → (node nodes' d).used ≡ false → (node nodes' d).first_child ≡ none
  new_fresh d u = elim (ℕ_discrete d n) [
    | yes same ↦ rw same (ap (λ x. x.first_child) e.at_n)
    | no g ↦
        (let before : (node nodes d).used ≡ false =
            sym (kept (λ x. x.used) (λ o x. refl) d g) ∙ u in
          let f : d ≢ p =
            λ same. ground (arith, used_p, ap (λ a. (node nodes a).used) same, before) in
          ap (λ x. x.first_child) (e.others d g f) ∙ v.fresh d before)
  ]

  -- The tree with the new node.
  pub new_tree : IsValid nodes'
  new_tree = record {
    size = e.size ∙ v.size;
    kids = new_kids;
    chain = new_chain;
    child = new-Child;
    depth = new_depth;
    deeper = new_deeper;
    fresh = new_fresh;
    unique = new_unique;
    root = kept (λ x. x.used) (λ o x. refl) 0 (λ same. not_zero (sym same)) ∙ v.root;
  }

  kids_of_unused : v.kids n ≡ []
  kids_of_unused =
      empty (v.kids n) (subst (λ o. Chain nodes o (v.kids n)) (v.fresh n free_n) (v.chain n))
    where
      empty : (xs : List ℕ) → Chain nodes none xs → xs ≡ []
      empty _ nil = refl

  still_kid : (d c : ℕ) → has c (v.kids d) ≡ true → has c (new_kids d) ≡ true
  still_kid d c h = elim (ℕ_discrete d p) [
    | yes same ↦ rw (same, kids_p) (ground (arith, sym (ap (λ a. has c (v.kids a)) same) ∙ h))
    | no f ↦ elim (ℕ_discrete d n) [
      | yes same ↦
          absurd
            (ground (arith, sym (ap (λ a. has c (v.kids a)) same) ∙ h, ap (has c) kids_of_unused))
      | no g ↦ ap (has c) (kids_other d f g) ∙ h
    ]
  ]

  -- What was found before is found again.
  pub find_child-kept :
      (d c : ℕ) (w : List ℕ) → find_child nodes d w ≡ some c → find_child nodes' d w ≡ some c
  unfolding new_tree
  find_child-kept d c w found =
      let (h, named_w) = find_child-has v d w c found in
      let same : (node nodes' c).name ≡ w = kept_name c (old_kid d c h) ∙ named_w in
      sym (ap (find_child nodes' d) same) ∙ find_child-only new_tree d c (still_kid d c h)

  -- The new node is found.
  pub find_child-new : find_child nodes' p name ≡ some n
  unfolding new_tree
  find_child-new =
      sym (ap (find_child nodes' p) name_n)
      ∙ find_child-only new_tree p n (rw kids_p (ground arith))

  pub new_kid : (d c : ℕ) → has c (new_tree.kids d) ≡ true → (has c (v.kids d) ≡ true) ⊎ (c ≡ n)
  unfolding new_tree
  new_kid d c h = elim (ℕ_discrete c n) [
    | yes same ↦ inr same
    | no differ ↦ inl (elim (ℕ_discrete d p) [
      | yes same ↦
          (let i = sym (ap (has c) (ap new_kids same ∙ kids_p)) ∙ h in
            ap (λ a. has c (v.kids a)) same ∙ ground (arith, i, differ))
      | no f ↦ elim (ℕ_discrete d n) [
        | yes same ↦ absurd (ground (arith, ap (has c) (ap new_kids same ∙ kids_n), h))
        | no g ↦ sym (ap (has c) (kids_other d f g)) ∙ h
      ]
    ])
  ]
