-- ===== src/MemFs/Access.antt =====
-- Files found, written and read through their paths, in src/harlin/fs/mem_fs.c.
use har_lin_kernel.Base.{
  ℕ, ◌≡◌, refl, ap, sym, ◌∙◌, Bool, true, false, none, some, List, [], arith, ◌==◌, ltb,
  if◌then◌else◌, inl, inr, Option-cases,
}
use har_lin_kernel.MemFs.{Nodes, node, file_type, default_file, resolve_path, resolve_parent_create}
use har_lin_kernel.MemFs.Calls.{create, remove, read, read_at}
use har_lin_kernel.MemFs.Valid.{IsValid}
use har_lin_kernel.MemFs.Enter.Tree.{find_child-kept, find_child-new}
use har_lin_kernel.MemFs.Drop.Tree.{tree_left, left_kid, find_child-before}
use har_lin_kernel.MemFs.Walk.{
  Found, at_root, as_kid, Keeps, resolve_path-Found, resolve_path-kept,
  resolve_parent_create-resolve_path,
}
use har_lin_kernel.MemFs.Run.{
  Created, refused, created, create-Created, Removed, removed, remove-Removed,
}

read_empty :
    (nodes : Nodes) (path : List ℕ) (size n : ℕ)
    → resolve_path nodes path ≡ some n
    → (node nodes n).type ≡ file_type
    → (node nodes n).payload_size ≡ 0
    → read path size nodes ≡ some []
unfolding read read_at
read_empty nodes path size n e t z =
    let is_file : ((node nodes n).type == file_type) ≡ true = ground (arith, t) in
    let nothing : (if ltb (node nodes n).payload_size size
          then (node nodes n).payload_size
          else size)
        ≡ 0 =
      ground (arith, z) in
    rw (e, is_file, nothing) refl

Created-found :
    {nodes : Nodes} (v : IsValid nodes) (path : List ℕ) {r : Bool × Nodes} (size : ℕ)
    → Created nodes file_type default_file (resolve_parent_create nodes path) r
    → r.0 ≡ true
    → (n : ℕ) × ((node nodes n).used ≡ false)
      × (resolve_path r.1 path ≡ some n)
      × (read path size r.1 ≡ some [])
      × ((q : List ℕ) (m : ℕ) → resolve_path nodes q ≡ some m → resolve_path r.1 q ≡ some m)
Created-found v path size refused t = absurd (ground arith)
Created-found {nodes} v path size (created p n name nodes' e u f new x) t =
    let keeps : Keeps nodes nodes' = record { kept = find_child-kept v x u f new } in
    let found = resolve_parent_create-resolve_path keeps path e (find_child-new v x u f new) in
    (
      n,
      f,
      found,
      read_empty nodes' path size n found (ap (λ y. y.type) x.at_n)
          (ap (λ y. y.payload_size) x.at_n),
      λ q m g. resolve_path-kept keeps q g,
    )

-- When `Harlin_MemFsCreate` succeeds, its path leads to a node that was not in use, which reads as
-- an empty file, and every path that led to a node before leads to that node still.
pub create_found :
    (nodes : Nodes) (path : List ℕ) (size : ℕ)
    → IsValid nodes
    → (create path nodes).0 ≡ true
    → let nodes' = (create path nodes).1 in
      (n : ℕ) × ((node nodes n).used ≡ false)
      × (resolve_path nodes' path ≡ some n)
      × (read path size nodes' ≡ some [])
      × ((q : List ℕ) (m : ℕ) → resolve_path nodes q ≡ some m → resolve_path nodes' q ≡ some m)
create_found nodes path size v t = Created-found v path size (create-Created v path) t

Removed-gone :
    {nodes : Nodes} (v : IsValid nodes) (path : List ℕ) {r : Bool × Nodes}
    → Removed v (resolve_path nodes path) r
    → r.0 ≡ true
    → (resolve_path r.1 path ≡ none)
      × ((q : List ℕ) (m : ℕ) → resolve_path r.1 q ≡ some m → resolve_path nodes q ≡ some m)
Removed-gone v path refused t = absurd (ground arith)
Removed-gone {nodes} v path (removed p n nodes' e h x) t =
    let keeps : Keeps nodes' nodes = record { kept = find_child-before v h x } in
    (
      elim (Option-cases (resolve_path nodes' path)) [
        | inl nothing ↦ nothing
        | inr (m, found) ↦
            (let same : m ≡ n = ground (arith, sym (resolve_path-kept keeps path found) ∙ e) in
              absurd (lost (resolve_path-Found (tree_left v h x) path found) same))
      ],
      λ q m g. resolve_path-kept keeps q g,
    )
  where
    lost : {m : ℕ} → Found (tree_left v h x) m → m ≡ n → ⊥
    lost at_root q = (v.child p n h).not_root (sym q)
    lost (as_kid {c = m} d u i) q = (left_kid v h x d m i).1 q

-- When `Harlin_MemFsRemove` succeeds, its path leads nowhere, and every path that leads to a node
-- afterwards led to that node before.
pub remove_gone :
    (nodes : Nodes) (path : List ℕ)
    → IsValid nodes
    → (remove path nodes).0 ≡ true
    → let nodes' = (remove path nodes).1 in
      (resolve_path nodes' path ≡ none)
      × ((q : List ℕ) (m : ℕ) → resolve_path nodes' q ≡ some m → resolve_path nodes q ≡ some m)
remove_gone nodes path v t = Removed-gone v path (remove-Removed v path) t
