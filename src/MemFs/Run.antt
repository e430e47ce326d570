-- ===== src/MemFs/Run.antt =====
-- What each call of src/harlin/fs/mem_fs.c does to the tree, and that sequences of calls keep it.
use har_lin_kernel.Base.{
  ℕ, ◌≡◌, ◌≢◌, refl, ap, ◌∙◌, Bool, true, false, not, ◌||◌, Option, none, some, List, arith, ◌==◌,
  length, Bool-cases, inl, inr, Option-cases, take,
}
use har_lin_kernel.MemFs.{
  Nodes, node, change, node_count, payload_max, file_type, dir_type, default_file, default_dir,
  find_unused, alloc_node, find_child, resolve_path, resolve_parent_create,
}
use har_lin_kernel.MemFs.Calls.{
  mkdir, create, remove, rmdir, write, create_in, enter_at, remove_at, rmdir_at, write_at,
  drop_node, with_payload, is_none,
}
use har_lin_kernel.MemFs.Chain.{has}
use har_lin_kernel.MemFs.Valid.{IsValid, used-lt}
use har_lin_kernel.MemFs.Enter.{Entered, entered_in-Entered}
use har_lin_kernel.MemFs.Drop.{Dropped}
use har_lin_kernel.MemFs.Drop.Unlink.{drop_node-Dropped}
use har_lin_kernel.MemFs.Walk.{
  Found, at_root, as_kid, Found-used, resolve_path-Found, resolve_parent_create-Found,
  find_unused_lem,
}

-- What `Harlin_MemFsMkdir` and `Harlin_MemFsCreate` do, once the parent and the name are known.
pub data Created (nodes : Nodes) (type mode : ℕ) (o : Option (ℕ × List ℕ))
    : Bool × Nodes → Type 0 where
  refused : Created nodes type mode o (false, nodes)
  created :
      (p n : ℕ) (name : List ℕ) (nodes' : Nodes)
      → o ≡ some (p, name)
      → (node nodes p).used ≡ true
      → (node nodes n).used ≡ false
      → find_child nodes p name ≡ none
      → Entered nodes p n type name mode nodes'
      → Created nodes type mode o (true, nodes')

enter_at-Created :
    (nodes : Nodes) (type mode p : ℕ) (name : List ℕ)
    → length nodes ≡ node_count
    → (node nodes p).used ≡ true
    → (node nodes p).type ≡ dir_type
    → find_child nodes p name ≡ none
    → Created nodes type mode (some (p, name)) (enter_at type mode name p (alloc_node nodes))
unfolding enter_at alloc_node
enter_at-Created nodes type mode p name size u dir new = elim (Option-cases (find_unused nodes 0)) [
  | inl e ↦ rw e refused
  | inr (n, e) ↦
      (let (k, same, lt, f) = find_unused_lem nodes 0 n e in
        let free : (node nodes n).used ≡ false =
          ap (λ a. (node nodes a).used) (omega (arith, same)) ∙ f in
        let apart : p ≢ n = λ q. ground (arith, u, ap (λ a. (node nodes a).used) q, free) in
        rw e (
          created p n name _ refl u free new (
            entered_in-Entered nodes p n type name mode (omega (arith, same, lt))
              (omega (arith, size, used-lt nodes p size u)) apart dir)))
]

pub create_in-Created :
    {nodes : Nodes} (v : IsValid nodes) (type mode : ℕ) (o : Option (ℕ × List ℕ))
    → ((p : ℕ) (name : List ℕ) → o ≡ some (p, name) → Found v p)
    → Created nodes type mode o (create_in type mode o nodes)
unfolding create_in
create_in-Created v type mode none f = refused
create_in-Created {nodes} v type mode (some (p, name)) f =
    elim (Bool-cases ((node nodes p).type == dir_type)) [
      | inr t ↦ rw t refused
      | inl t ↦ elim (Option-cases (find_child nodes p name)) [
        | inl e ↦
            rw (t, e)
              (enter_at-Created nodes type mode p name v.size (Found-used v (f p name refl))
                (ground (arith, t)) e)
        | inr (c, e) ↦ rw (t, e) refused
      ]
    ]

pub mkdir-Created :
    {nodes : Nodes} (v : IsValid nodes) (path : List ℕ)
    → Created nodes dir_type default_dir (resolve_parent_create nodes path) (mkdir path nodes)
unfolding mkdir
mkdir-Created v path =
    create_in-Created v dir_type default_dir _ (λ p name e. resolve_parent_create-Found v path e)

pub create-Created :
    {nodes : Nodes} (v : IsValid nodes) (path : List ℕ)
    → Created nodes file_type default_file (resolve_parent_create nodes path) (create path nodes)
unfolding create
create-Created v path =
    create_in-Created v file_type default_file _ (λ p name e. resolve_parent_create-Found v path e)

-- What `Harlin_MemFsRmdir` and `Harlin_MemFsRemove` do with the node that the path leads to.
pub data Removed {nodes : Nodes} (v : IsValid nodes) (o : Option ℕ) : Bool × Nodes → Type 0 where
  refused : Removed v o (false, nodes)
  removed :
      (p n : ℕ) (nodes' : Nodes)
      → o ≡ some n
      → has n (v.kids p) ≡ true
      → Dropped nodes p n (v.kids p) nodes'
      → Removed v o (true, nodes')

drop_node-Removed :
    {nodes : Nodes} (v : IsValid nodes) {n : ℕ}
    → Found v n
    → n ≢ 0
    → Removed v (some n) (true, drop_node n nodes)
drop_node-Removed v at_root ne = absurd (ne refl)
drop_node-Removed {nodes} v (as_kid {c = n} p u h) ne =
    removed p n _ refl h (drop_node-Dropped v p n h (used-lt nodes p v.size u))

remove_at-Removed :
    {nodes : Nodes} (v : IsValid nodes) (o : Option ℕ)
    → ((n : ℕ) → o ≡ some n → Found v n)
    → Removed v o (remove_at o nodes)
unfolding remove_at
remove_at-Removed v none f = refused
remove_at-Removed v (some n) f = elim (Bool-cases (n == 0)) [
  | inl e ↦ rw e refused
  | inr e ↦ rw e (drop_node-Removed v (f n refl) (ground (arith, e)))
]

rmdir_at-Removed :
    {nodes : Nodes} (v : IsValid nodes) (o : Option ℕ)
    → ((n : ℕ) → o ≡ some n → Found v n)
    → Removed v o (rmdir_at o nodes)
unfolding rmdir_at
rmdir_at-Removed v none f = refused
rmdir_at-Removed {nodes} v (some n) f =
    elim (Bool-cases (
      n == 0
      || not ((node nodes n).type == dir_type)
      || not (is_none (node nodes n).first_child))) [
        | inl e ↦ rw e refused
        | inr e ↦ rw e (drop_node-Removed v (f n refl) (ground (arith, e)))
      ]

pub remove-Removed :
    {nodes : Nodes} (v : IsValid nodes) (path : List ℕ)
    → Removed v (resolve_path nodes path) (remove path nodes)
unfolding remove
remove-Removed v path = remove_at-Removed v _ (λ n e. resolve_path-Found v path e)

pub rmdir-Removed :
    {nodes : Nodes} (v : IsValid nodes) (path : List ℕ)
    → Removed v (resolve_path nodes path) (rmdir path nodes)
unfolding rmdir
rmdir-Removed v path = rmdir_at-Removed v _ (λ n e. resolve_path-Found v path e)

-- What `Harlin_MemFsWrite` does.
pub data Written (nodes : Nodes) (bytes : List ℕ) (o : Option ℕ) : Option ℕ × Nodes → Type 0 where
  refused : Written nodes bytes o (none, nodes)
  written :
      (n : ℕ)
      → o ≡ some n
      → (node nodes n).type ≡ file_type
      → Written nodes bytes o (
        some (length (take payload_max bytes)),
        change n (with_payload (take payload_max bytes)) nodes,
      )

write_at-Written :
    (nodes : Nodes) (bytes : List ℕ) (o : Option ℕ) → Written nodes bytes o (write_at o bytes nodes)
unfolding write_at
write_at-Written nodes bytes none = refused
write_at-Written nodes bytes (some n) = elim (Bool-cases ((node nodes n).type == file_type)) [
  | inl t ↦ rw t (written n refl (ground (arith, t)))
  | inr t ↦ rw t refused
]

pub write-Written :
    (path bytes : List ℕ) (nodes : Nodes)
    → Written nodes bytes (resolve_path nodes path) (write path bytes nodes)
unfolding write
write-Written path bytes nodes = write_at-Written nodes bytes (resolve_path nodes path)
