-- ===== src/MemFs/Drop/Unlink.antt =====
-- How `Harlin_MemFsRmdir` and `Harlin_MemFsRemove` of src/harlin/fs/mem_fs.c unlink a node.
use har_lin_kernel.Base.{
  ℕ, ◌-◌, ◌≤◌, ◌<◌, ◌≡◌, ◌≢◌, refl, ap, sym, ◌∙◌, true, false, Option, some, List, ◌∷◌, arith, ◌==◌,
  leb, length,
}
use mathlib.Core.Path.{subst}
use native.Mathlib.Decide.{ℕ_discrete}
use har_lin_kernel.MemFs.{Nodes, node, node_count, free_node}
use har_lin_kernel.MemFs.Calls.{
  with_first, with_next, is_node, find_before, unlink, unlink_behind, drop_node,
}
use har_lin_kernel.MemFs.Chain.{has, Chain, nil, cons}
use har_lin_kernel.MemFs.Valid.{IsValid, child-lt, few_kids}
use har_lin_kernel.MemFs.Drop.{
  find_before-Before, change_free, Dropped, first-Dropped, behind-Dropped,
}

-- The two ways through `unlink`.
drop_node-first :
    (nodes : Nodes) (n p : ℕ)
    → n < node_count
    → (node nodes n).parent ≡ some p
    → is_node n (node nodes p).first_child ≡ true
    → drop_node n nodes ≡ change_free nodes p n (with_first (node nodes n).next_sibling)
unfolding drop_node unlink free_node
drop_node-first nodes n p h e f =
    let inside : leb node_count n ≡ false = ground (arith, h) in rw (e, f, inside) refl

drop_node-behind :
    (nodes : Nodes) (n p c : ℕ)
    → n < node_count
    → (node nodes n).parent ≡ some p
    → is_node n (node nodes p).first_child ≡ false
    → find_before nodes n node_count (node nodes p).first_child ≡ some c
    → drop_node n nodes ≡ change_free nodes c n (with_next (node nodes n).next_sibling)
unfolding drop_node unlink unlink_behind free_node
drop_node-behind nodes n p c h e f g =
    let inside : leb node_count n ≡ false = ground (arith, h) in rw (e, f, g, inside) refl

in_chain-Dropped :
    {nodes : Nodes} (p n : ℕ) {o : Option ℕ} {xs : List ℕ}
    → (node nodes p).first_child ≡ o
    → Chain nodes o xs
    → has n xs ≡ true
    → length xs ≤ node_count
    → ((a : ℕ) → has a xs ≡ true → a < length nodes)
    → length nodes ≡ node_count
    → p < length nodes
    → p ≢ n
    → (node nodes n).parent ≡ some p
    → Dropped nodes p n xs (drop_node n nodes)
in_chain-Dropped p n e nil h few inside size k ne b = absurd (ground arith)
in_chain-Dropped {nodes} p n e (cons {c = c} {xs = xs} out s) h few inside size k ne b =
    elim (ℕ_discrete c n) [
      | yes q ↦
          (let met : is_node n (node nodes p).first_child ≡ true = ground (arith, e, q) in
            let gone = sym (ap (λ a. has a xs) q) ∙ out in
            let rest = subst (λ a. Chain nodes (node nodes a).next_sibling xs) q s in
            subst (λ t. Dropped nodes p n (c ∷ xs) t)
              (sym (drop_node-first nodes n p (omega (arith, size, inside n h)) b met))
              (subst
                (λ a.
                  Dropped nodes p n (a ∷ xs)
                    (change_free nodes p n (with_first (node nodes n).next_sibling)))
                (sym q) (first-Dropped nodes p n xs (inside n h) k ne gone rest)))
      | no q ↦
          (let missed : is_node n (node nodes p).first_child ≡ false = ground (arith, e, q) in
            let r =
              find_before-Before n c (node_count - 1) refl q out s (ground (arith, h, q))
                (omega (arith, few)) in
            let found = ap (find_before nodes n node_count) e ∙ r.result in
            let skipped : (n == c) ≡ false = ground (arith, q) in
            subst (λ t. Dropped nodes p n (c ∷ xs) t)
              (sym (
                drop_node-behind nodes n p r.before (omega (arith, size, inside n h)) b missed
                  found))
              (behind-Dropped nodes p n r.before (c ∷ xs) (inside n h) (inside r.before r.in_chain)
                r.not_it ne r.in_chain
                (λ nodes' past keeps. rw (e, skipped) (r.bypass nodes' past keeps))))
    ]

pub drop_node-Dropped :
    {nodes : Nodes} (v : IsValid nodes) (p n : ℕ)
    → has n (v.kids p) ≡ true
    → p < node_count
    → Dropped nodes p n (v.kids p) (drop_node n nodes)
drop_node-Dropped v p n h k =
    let c = v.child p n h in
    in_chain-Dropped p n refl (v.chain p) h (few_kids v p)
      (λ a i. omega (arith, v.size, child-lt v p a i)) v.size (omega (arith, v.size, k))
      (λ q. c.not_self (sym q)) c.below
