-- ===== src/MemFs/Sequence.antt =====
-- Sequences of calls of src/harlin/fs/mem_fs.c.
use har_lin_kernel.Base.{
  ℕ, zero, suc, ◌≡◌, ◌≢◌, refl, ap, sym, ◌∙◌, Bool, true, Option, none, some, List, [], ◌∷◌, arith,
  length, map, length-set,
}
use native.Mathlib.Decide.{ℕ_discrete}
use har_lin_kernel.MemFs.{Nodes, node, node_count, freed, taken, find_child, resolve_path}
use har_lin_kernel.MemFs.Calls.{init, mkdir, create, remove, rmdir, write, root_node}
use har_lin_kernel.MemFs.Chain.{has, nil}
use har_lin_kernel.MemFs.Valid.{IsValid, node_self, node_other, find_child-has}
use har_lin_kernel.MemFs.Drop.Tree.{tree_left, stays, orphan}
use har_lin_kernel.MemFs.Walk.{Found, at_root, as_kid, resolve_path-Found}
use har_lin_kernel.MemFs.Run.{
  refused, mkdir-Created, create-Created, Removed, removed, remove-Removed, rmdir-Removed,
  write-Written,
}
use har_lin_kernel.MemFs.History.{
  Lost, Later, Later-refl, Later-trans, Created-Later, Removed-Later, Written-Later,
}

-- The calls that change the table.
pub data Call : Type 0 where
  making_dir : List ℕ → Call
  making_file : List ℕ → Call
  removing : List ℕ → Call
  removing_dir : List ℕ → Call
  writing : List ℕ → List ℕ → Call

unfoldable pub perform : Call → Nodes → Nodes
perform (making_dir path) nodes = (mkdir path nodes).1
perform (making_file path) nodes = (create path nodes).1
perform (removing path) nodes = (remove path nodes).1
perform (removing_dir path) nodes = (rmdir path nodes).1
perform (writing path bytes) nodes = (write path bytes nodes).1

unfoldable pub run : List Call → Nodes → Nodes
unfolding perform
run [] nodes = nodes
run (call ∷ calls) nodes = run calls (perform call nodes)

pub perform-Later : {nodes : Nodes} (v : IsValid nodes) (call : Call) → Later v (perform call nodes)
unfolding perform
perform-Later v (making_dir path) = Created-Later v (mkdir-Created v path)
perform-Later v (making_file path) = Created-Later v (create-Created v path)
perform-Later v (removing path) = Removed-Later v (remove-Removed v path)
perform-Later v (removing_dir path) = Removed-Later v (rmdir-Removed v path)
perform-Later {nodes} v (writing path bytes) =
    Written-Later v (λ n e. resolve_path-Found v path e) (write-Written path bytes nodes)

pub run-Later : (calls : List Call) {nodes : Nodes} (v : IsValid nodes) → Later v (run calls nodes)
unfolding run
run-Later [] v = Later-refl v
run-Later (call ∷ calls) v = let a = perform-Later v call in Later-trans a (run-Later calls a.tree)

pub create-IsValid :
    {nodes : Nodes} → IsValid nodes → (path : List ℕ) → IsValid (create path nodes).1
create-IsValid v path = (Created-Later v (create-Created v path)).tree

unreached : {nodes : Nodes} (v : IsValid nodes) {c : ℕ} → Lost v c → Found v c → ⊥
unreached v l at_root = l.not_root refl
unreached v l (as_kid d u h) = ground (arith, h, l.no_kid d)

-- No path leads to a node that is lost.
pub Lost-unreached :
    {nodes : Nodes} (v : IsValid nodes) (c : ℕ)
    → Lost v c
    → (path : List ℕ) → resolve_path nodes path ≢ some c
Lost-unreached v c l path e = unreached v l (resolve_path-Found v path e)

node-map-freed : (nodes : Nodes) (d : ℕ) → node (map freed nodes) d ≡ freed (node nodes d)
node-map-freed [] d = refl
node-map-freed (x ∷ nodes) zero = refl
node-map-freed (x ∷ nodes) (suc d) = node-map-freed nodes d

length-map-freed : (nodes : Nodes) → length (map freed nodes) ≡ length nodes
length-map-freed [] = refl
length-map-freed (x ∷ nodes) = ap suc (length-map-freed nodes)

pub init-IsValid : (nodes : Nodes) → length nodes ≡ node_count → IsValid (init nodes)
unfolding init
init-IsValid nodes h =
    let size : length (map freed nodes) ≡ node_count = length-map-freed nodes ∙ h in
    let root_at = node_self (map freed nodes) 0 (λ e. root_node (taken e)) (omega (arith, size)) in
    let childless : (d : ℕ) → (node (init nodes) d).first_child ≡ none = λ d.
      elim (ℕ_discrete d 0) [
        | yes q ↦ rw q (ap (λ x. x.first_child) root_at)
        | no q ↦
            ap (λ x. x.first_child)
              (node_other (map freed nodes) 0 d (λ e. root_node (taken e)) q
                ∙ node-map-freed nodes d)
      ] in
    record {
      size = length-set (map freed nodes) 0 _ ∙ size;
      kids = λ d. [];
      chain = λ d. rw (childless d) nil;
      child = λ d c i. absurd (ground (arith, i));
      depth = λ d. 0;
      deeper = λ d c i. absurd (ground (arith, i));
      fresh = λ d u. childless d;
      unique = λ d c e i j q. absurd (ground (arith, i));
      root = ap (λ x. x.used) root_at;
    }

-- From `Harlin_MemFsInit` on, after any sequence of calls with any paths, the links in the table
-- form trees: only directories have children; those of each directory form a finite chain without
-- repetitions, each of them in use, one level deeper than the directory, with it as its one parent
-- and with a name of its own among them; the root is in use and nobody's child. Other nodes may be
-- in use that no directory leads to.
pub run-init-IsValid :
    (nodes : Nodes) (calls : List Call)
    → length nodes ≡ node_count
    → IsValid (run calls (init nodes))
run-init-IsValid nodes calls h = (run-Later calls (init-IsValid nodes h)).tree

Removed-leaks :
    {nodes : Nodes} (v : IsValid nodes) (n c : ℕ) (calls : List Call) {o : Option ℕ}
    {r : Bool × Nodes}
    → Removed v o r
    → o ≡ some n
    → has c (v.kids n) ≡ true
    → r.0 ≡ true
    → ((node (run calls r.1) c).used ≡ true)
      × ((q : List ℕ) → resolve_path (run calls r.1) q ≢ some c)
Removed-leaks v n c calls refused e i t = absurd (ground arith)
Removed-leaks {nodes} v n c calls (removed p m nodes' f h x) e i t =
    let same : n ≡ m = ground (arith, sym e ∙ f) in
    let j : has c (v.kids m) ≡ true = ap (λ a. has c (v.kids a)) (sym same) ∙ i in
    let k = v.child m c j in
    let gone : Lost (tree_left v h x) c = record {
      in_use = stays v h x (λ y. y.used) (λ o q y. refl) c k.not_self ∙ k.in_use;
      not_root = k.not_root;
      no_kid = λ d. orphan v h x d c j;
    } in
    let later = run-Later calls (tree_left v h x) in
    let l = later.lost c gone in (l.in_use, Lost-unreached later.tree c l)

-- `Harlin_MemFsRemove` of a directory that has a child leaks that child: whatever calls follow, its
-- node stays in use, and no path leads to it.
pub remove_leaks :
    (nodes : Nodes) (path w : List ℕ) (n c : ℕ) (calls : List Call)
    → IsValid nodes
    → resolve_path nodes path ≡ some n
    → find_child nodes n w ≡ some c
    → (remove path nodes).0 ≡ true
    → let later = run calls (remove path nodes).1 in
      ((node later c).used ≡ true) × ((q : List ℕ) → resolve_path later q ≢ some c)
remove_leaks nodes path w n c calls v e f t =
    Removed-leaks v n c calls (remove-Removed v path) e (find_child-has v n w c f).0 t
