-- ===== src/MemFs.antt =====
-- Files in memory: src/harlin/fs/mem_fs.c. A table of 128 nodes; a directory leads to its first
-- child, and a node to its next sibling. An index of -1 is `none`.
pub mod Calls
pub mod Chain
pub mod Valid
pub mod Enter
pub mod Drop
pub mod Walk
pub mod Run
pub mod Access
pub mod Content
pub mod History
pub mod Sequence
mod Examples
use har_lin_kernel.Base.{
  ℕ, zero, suc, ◌+◌, Bool, true, false, not, ◌||◌, ◌&&◌, Option, none, some, List, [], ◌∷◌, ◌++◌,
  ltb, leb, ◌==◌, if◌then◌else◌, length, get_or, set, take, drop, replicate, min, ◌>>=◌, map,
}
use har_lin_kernel.PathWalk.{PathParts, parse, slash}

abbrev pub node_count : ℕ
node_count = 128

abbrev pub name_max : ℕ
name_max = 12

abbrev pub payload_max : ℕ
payload_max = 256

abbrev pub file_type : ℕ
file_type = 1

abbrev pub dir_type : ℕ
dir_type = 2

-- `PERM_DEFAULT_FILE` and `PERM_DEFAULT_DIR`
abbrev pub default_file : ℕ
default_file = 256 + 128 + 32 + 4

abbrev pub default_dir : ℕ
default_dir = 256 + 128 + 64 + 32 + 8 + 4 + 1

-- `struct mem_fs_node`. `name` is the first `name_len` bytes of the array.
pub record Node : Type 0 where
  pub used : Bool
  pub type : ℕ
  pub name : List ℕ
  pub parent : Option ℕ
  pub first_child : Option ℕ
  pub next_sibling : Option ℕ
  pub mode : ℕ
  pub owner : ℕ
  pub group : ℕ
  pub payload_size : ℕ
  pub payload : List ℕ

-- A node before its first use.
abbrev pub blank : Node
blank = record {
  used = false;
  type = 0;
  name = [];
  parent = none;
  first_child = none;
  next_sibling = none;
  mode = 0;
  owner = 0;
  group = 0;
  payload_size = 0;
  payload = replicate payload_max 0;
}

abbrev pub Nodes : Type 0
Nodes = List Node

abbrev pub node : Nodes → ℕ → Node
node nodes i = get_or nodes i blank

-- An assignment to fields of node `i`.
abbrev pub change : ℕ → (Node → Node) → Nodes → Nodes
change i f nodes = set nodes i (f (node nodes i))

-- What `alloc_node` writes.
abbrev pub taken : Node → Node
taken e = record e {
  used = true;
  type = 0;
  name = [];
  parent = none;
  first_child = none;
  next_sibling = none;
  mode = 0;
  owner = 0;
  group = 0;
  payload_size = 0;
}

-- The loop of `alloc_node`, from node `i` on.
pub find_unused : Nodes → ℕ → Option ℕ
find_unused [] i = none
find_unused (e ∷ rest) i = let later = find_unused rest (i + 1) in if e.used then later else some i

alloc_at : Option ℕ → Nodes → Option ℕ × Nodes
alloc_at none nodes = (none, nodes)
alloc_at (some i) nodes = (some i, change i taken nodes)

-- `alloc_node`
pub alloc_node : Nodes → Option ℕ × Nodes
unfolding alloc_at find_unused
alloc_node nodes = alloc_at (find_unused nodes 0) nodes

-- What `free_node` writes.
abbrev pub freed : Node → Node
freed e = record e {
  used = false;
  type = 0;
  name = [];
  parent = none;
  first_child = none;
  next_sibling = none;
  payload_size = 0;
}

-- `free_node`
pub free_node : ℕ → Nodes → Nodes
free_node i nodes = if leb node_count i then nodes else change i freed nodes

-- The loop of `name_eq`, for names of the same length.
pub same_bytes : List ℕ → List ℕ → Bool
same_bytes [] b = true
same_bytes (x ∷ a) [] = true
same_bytes (x ∷ a) (y ∷ b) = let rest = same_bytes a b in if x == y then rest else false

-- `name_eq`
pub name_eq : List ℕ → List ℕ → Bool
unfolding same_bytes
name_eq a b = if length a == length b then same_bytes a b else false

-- The loop of `find_child`, with `rounds` left.
pub find_loop : Nodes → List ℕ → ℕ → Option ℕ → Option ℕ
find_loop nodes name zero c = none
find_loop nodes name (suc rounds) none = none
find_loop nodes name (suc rounds) (some c) =
    let rest = find_loop nodes name rounds (node nodes c).next_sibling in
    if name_eq (node nodes c).name name then some c else rest

-- `find_child`; the siblings are at most as many as there are nodes.
pub find_child : Nodes → ℕ → List ℕ → Option ℕ
unfolding find_loop name_eq same_bytes
find_child nodes parent name = find_loop nodes name node_count (node nodes parent).first_child

-- The text of a segment.
abbrev pub text : List ℕ → ℕ × ℕ → List ℕ
text buf (start, len) = take len (drop start buf)

-- The loop of `resolve_path` over the segments.
pub walk : Nodes → List ℕ → List (ℕ × ℕ) → ℕ → Option ℕ
walk nodes buf [] cur = some cur
walk nodes buf (segment ∷ segments) cur = do
  n ← find_child nodes cur (text buf segment)
  walk nodes buf segments n

-- `resolve_path`, and `Harlin_MemFsLookupNode`
unfoldable pub resolve_path : Nodes → List ℕ → Option ℕ
unfolding walk find_child
resolve_path nodes path = do p ← parse path; walk nodes p.buf p.segments 0

-- The loop of `resolve_parent_create` and what follows it: the parent and the name of the new node.
pub walk_parent : Nodes → List ℕ → List (ℕ × ℕ) → ℕ → Option (ℕ × List ℕ)
walk_parent nodes buf [] cur = none
walk_parent nodes buf (segment ∷ []) cur =
    if leb name_max segment.1 then none else some (cur, text buf segment)
walk_parent nodes buf (segment ∷ following ∷ segments) cur = do
  n ← find_child nodes cur (text buf segment)
  walk_parent nodes buf (following ∷ segments) n

-- `resolve_parent_create`
pub resolve_parent_create : Nodes → List ℕ → Option (ℕ × List ℕ)
unfolding walk_parent find_child
resolve_parent_create nodes path = do p ← parse path; walk_parent nodes p.buf p.segments 0
