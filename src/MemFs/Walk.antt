-- ===== src/MemFs/Walk.antt =====
-- Paths through the tree of src/harlin/fs/mem_fs.c.
use har_lin_kernel.Base.{
  ℕ, suc, ◌+◌, ◌<◌, ◌≡◌, refl, true, false, Option, none, some, List, [], ◌∷◌, arith, length, leb,
  Bool-cases, inl, inr, ◌>>=◌,
}
use mathlib.Core.Path.{subst}
use har_lin_kernel.PathWalk.{parse}
use har_lin_kernel.MemFs.{
  Nodes, node, name_max, find_child, find_unused, text, walk, walk_parent, resolve_path,
  resolve_parent_create,
}
use har_lin_kernel.MemFs.Chain.{has}
use har_lin_kernel.MemFs.Valid.{IsValid, find_child-has}

-- A node that a path leads to: the root, or a child of a node in use.
pub data Found {nodes : Nodes} (v : IsValid nodes) : ℕ → Type 0 where
  at_root : Found v 0
  as_kid : {c : ℕ} (d : ℕ) → (node nodes d).used ≡ true → has c (v.kids d) ≡ true → Found v c

pub Found-used :
    {nodes : Nodes} (v : IsValid nodes) {c : ℕ} → Found v c → (node nodes c).used ≡ true
Found-used v at_root = v.root
Found-used v (as_kid {c = c} d u h) = (v.child d c h).in_use

-- The result of a `do` block that succeeds.
pub both {ℓ κ} :
    {A : Type ℓ} {B : Type κ} (o : Option A) {f : A → Option B} {b : B}
    → (o >>= f) ≡ some b
    → (a : A) × (o ≡ some a) × (f a ≡ some b)
both none e = absurd (cc)
both (some a) e = (a, refl, e)

module _ {nodes : Nodes} (v : IsValid nodes) where
  pub walk-Found :
      (buf : List ℕ) (segments : List (ℕ × ℕ)) {cur n : ℕ}
      → Found v cur
      → walk nodes buf segments cur ≡ some n
      → Found v n
  unfolding walk
  walk-Found buf [] {cur} f e = subst (Found v) (ground arith) f
  walk-Found buf (segment ∷ segments) {cur} f e =
      let (c, found, rest) = both (find_child nodes cur (text buf segment)) e in
      walk-Found buf segments
        (as_kid cur (Found-used v f) (find_child-has v cur (text buf segment) c found).0) rest

  pub resolve_path-Found : (path : List ℕ) {n : ℕ} → resolve_path nodes path ≡ some n → Found v n
  unfolding resolve_path
  resolve_path-Found path e =
      let (p, parsed, rest) = both (parse path) e in walk-Found p.buf p.segments at_root rest

  walk_parent-Found :
      (buf : List ℕ) (segments : List (ℕ × ℕ)) {cur p : ℕ} {name : List ℕ}
      → Found v cur
      → walk_parent nodes buf segments cur ≡ some (p, name)
      → Found v p
  unfolding walk_parent
  walk_parent-Found buf [] f e = absurd (cc)
  walk_parent-Found buf (segment ∷ []) {cur} f e = elim (Bool-cases (leb name_max segment.1)) [
    | inl t ↦ absurd (ground (arith, t, e))
    | inr t ↦ subst (Found v) (ground (arith, t, e)) f
  ]
  walk_parent-Found buf (segment ∷ following ∷ segments) {cur} f e =
      let (c, found, rest) = both (find_child nodes cur (text buf segment)) e in
      walk_parent-Found buf (following ∷ segments)
        (as_kid cur (Found-used v f) (find_child-has v cur (text buf segment) c found).0) rest

  pub resolve_parent_create-Found :
      (path : List ℕ) {p : ℕ} {name : List ℕ}
      → resolve_parent_create nodes path ≡ some (p, name)
      → Found v p
  unfolding resolve_parent_create
  resolve_parent_create-Found path e =
      let (q, parsed, rest) = both (parse path) e in walk_parent-Found q.buf q.segments at_root rest

-- What is found in one table is found in the other.
pub record Keeps (nodes nodes' : Nodes) : Type 0 where
  pub kept : (d c : ℕ) (w : List ℕ) → find_child nodes d w ≡ some c → find_child nodes' d w ≡ some c

module _ {nodes nodes' : Nodes} (keeps : Keeps nodes nodes') where
  pub walk-kept :
      (buf : List ℕ) (segments : List (ℕ × ℕ)) (cur : ℕ) {n : ℕ}
      → walk nodes buf segments cur ≡ some n
      → walk nodes' buf segments cur ≡ some n
  unfolding walk
  walk-kept buf [] cur e = e
  walk-kept buf (segment ∷ segments) cur e =
      let (c, found, rest) = both (find_child nodes cur (text buf segment)) e in
      rw (keeps.kept cur c (text buf segment) found) (walk-kept buf segments c rest)

  pub resolve_path-kept :
      (path : List ℕ) {n : ℕ} → resolve_path nodes path ≡ some n → resolve_path nodes' path ≡ some n
  unfolding resolve_path
  resolve_path-kept path e =
      let (p, parsed, rest) = both (parse path) e in rw parsed (walk-kept p.buf p.segments 0 rest)

  walk_parent-walk :
      (buf : List ℕ) (segments : List (ℕ × ℕ)) (cur : ℕ) {p n : ℕ} {name : List ℕ}
      → walk_parent nodes buf segments cur ≡ some (p, name)
      → find_child nodes' p name ≡ some n
      → walk nodes' buf segments cur ≡ some n
  unfolding walk walk_parent
  walk_parent-walk buf [] cur e f = absurd (cc)
  walk_parent-walk buf (segment ∷ []) cur {p} {n} {name} e f =
      elim (Bool-cases (leb name_max segment.1)) [
        | inl t ↦ absurd (ground (arith, t, e))
        | inr t ↦
            (let place : cur ≡ p = ground (arith, t, e) in
              let word : text buf segment ≡ name = ground (arith, t, e) in rw (place, word, f) refl)
      ]
  walk_parent-walk buf (segment ∷ following ∷ segments) cur e f =
      let (c, found, rest) = both (find_child nodes cur (text buf segment)) e in
      rw (keeps.kept cur c (text buf segment) found)
        (walk_parent-walk buf (following ∷ segments) c rest f)

  -- A path to a new node leads there once it is a child of its parent.
  pub resolve_parent_create-resolve_path :
      (path : List ℕ) {p n : ℕ} {name : List ℕ}
      → resolve_parent_create nodes path ≡ some (p, name)
      → find_child nodes' p name ≡ some n
      → resolve_path nodes' path ≡ some n
  unfolding resolve_path resolve_parent_create
  resolve_parent_create-resolve_path path e f =
      let (q, parsed, rest) = both (parse path) e in
      rw parsed (walk_parent-walk q.buf q.segments 0 rest f)

-- `alloc_node` takes a node that is not in use.
pub find_unused_lem :
    (nodes : Nodes) (i n : ℕ)
    → find_unused nodes i ≡ some n
    → (k : ℕ) × (n ≡ i + k) × (k < length nodes) × ((node nodes k).used ≡ false)
unfolding find_unused
find_unused_lem [] i n e = absurd (ground arith)
find_unused_lem (x ∷ nodes) i n e = elim (Bool-cases x.used) [
  | inl t ↦
      (let (k, same, lt, u) = find_unused_lem nodes (i + 1) n (ground (arith, e, t)) in
        (suc k, omega (arith, same), omega (arith, lt), u))
  | inr t ↦ (0, ground (arith, e, t), omega arith, t)
]
