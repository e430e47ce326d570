-- ===== src/CowFs.antt =====
-- Versions of files: src/harlin/fs/cow_fs.c, on the files of src/harlin/fs/mem_fs.c. A table of 16
-- versions, each of a node of the file system; a node of -1 is `none`.
pub mod Names
pub mod Valid
pub mod Keep
pub mod Content
pub mod Snapshot
pub mod Forking
pub mod Sequence
pub mod Fork
mod Examples
use har_lin_kernel.Base.{
  ℕ, zero, suc, ◌+◌, ◌*◌, ◌/◌, ◌%◌, ◌^◌, Bool, true, false, not, ◌||◌, ◌&&◌, Option, none, some,
  List, [], ◌∷◌, ◌++◌, ltb, ◌==◌, if◌then◌else◌, length, get_or, set, take, drop, replicate, map,
  first,
}
use har_lin_kernel.MemFs.{Nodes, payload_max, resolve_path}
use har_lin_kernel.MemFs.Calls.{is_node, create}

abbrev pub max_versions : ℕ
max_versions = 16

abbrev pub name_len : ℕ
name_len = 16

-- `struct cow_version`
pub record Version : Type 0 where
  pub used : Bool
  pub file_node : Option ℕ
  pub ver : List ℕ
  pub payload_size : ℕ
  pub payload : List ℕ

abbrev pub blank : Version
blank = record {
  used = false;
  file_node = none;
  ver = replicate name_len 0;
  payload_size = 0;
  payload = replicate payload_max 0;
}

-- `versions` and `ver_counter`
pub record Cow : Type 0 where
  pub versions : List Version
  pub counter : ℕ

abbrev pub version : List Version → ℕ → Version
version versions i = get_or versions i blank

-- An assignment to fields of version `i`.
abbrev pub change : ℕ → (Version → Version) → List Version → List Version
change i f versions = set versions i (f (version versions i))

-- The comparison in `find_ver`, from character `j` on, with `rounds` left. A name ends inside its
-- array, so that the characters behind it are never compared.
pub same_name : List ℕ → List ℕ → ℕ → ℕ → Bool
same_name a b zero j = get_or a j 0 == get_or b j 0
same_name a b (suc rounds) j =
    let rest = same_name a b rounds (j + 1) in
    if get_or a j 0 == get_or b j 0 then (if get_or b j 0 == 0 then true else rest) else false

-- Whether a version is version `ver` of file `n`.
pub matches : ℕ → List ℕ → Version → Bool
unfolding same_name
matches n ver e = e.used && is_node n e.file_node && same_name e.ver ver name_len 0

-- `find_ver`
pub find_ver : List Version → ℕ → List ℕ → Option ℕ
unfolding first matches
find_ver versions n ver = first (matches n ver) versions 0

-- What `alloc_ver` writes.
abbrev pub taken : ℕ → Version → Version
taken n e = record e {
  used = true;
  file_node = some n;
  payload_size = 0;
  ver = replicate name_len 0;
}

-- The slot that `alloc_ver` takes.
pub free_slot : List Version → Option ℕ
unfolding first
free_slot versions = first (λ e. not e.used) versions 0

-- `make_ver_name`
abbrev pub put_name : ℕ → Version → Version
put_name n e = record e {
  ver = 118 ∷ (48 + n % 10) ∷ (48 + n / 10 % 10) ∷ (48 + n / 10 / 10 % 10) ∷ 0 ∷ drop 5 e.ver;
}

-- What `Harlin_CowFsInit` writes.
abbrev pub cleared : Version → Version
cleared e = record e { used = false; file_node = none; payload_size = 0 }

-- `Harlin_CowFsInit`
pub init : Cow → Cow
init cow = record { versions = map cleared cow.versions; counter = 0 }

abbrev pub next : ℕ → ℕ
next counter = (counter + 1) % 2 ^ 64

pub snapshot_in : ℕ → Option ℕ → Cow → Option (List ℕ) × Cow
snapshot_in n none cow = (none, record cow { counter = next cow.counter })
snapshot_in n (some v) cow =
    let versions = change v (λ e. put_name (next cow.counter) (taken n e)) cow.versions in
    (some (version versions v).ver, record { versions = versions; counter = next cow.counter })

pub snapshot_of : Option ℕ → Cow → Option (List ℕ) × Cow
unfolding snapshot_in free_slot
snapshot_of none cow = (none, cow)
snapshot_of (some n) cow = snapshot_in n (free_slot cow.versions) cow

-- `Harlin_CowSnapshot`: the name of the new version, or `none` for -1.
pub snapshot : List ℕ → Nodes → Cow → Option (List ℕ) × Cow
unfolding snapshot_of
snapshot path nodes cow = snapshot_of (resolve_path nodes path) cow

-- The bytes become the payload of a version of file `n`.
abbrev pub with_payload : ℕ → List ℕ → Version → Version
with_payload n bytes e = record e {
  payload = bytes ++ drop (length bytes) e.payload;
  payload_size = length bytes;
  file_node = some n;
}

pub store : ℕ → List ℕ → ℕ → Cow → Option ℕ × Cow
store n bytes slot cow =
    let stored = take payload_max bytes in
    (
      some (length stored),
      record cow { versions = change slot (with_payload n stored) cow.versions },
    )

pub write_found : ℕ → List ℕ → Option ℕ → Cow → Option ℕ × Cow
unfolding store
write_found n bytes none cow = (none, cow)
write_found n bytes (some slot) cow = store n bytes slot cow

pub write_new : ℕ → List ℕ → Option ℕ → Cow → Option ℕ × Cow
unfolding store
write_new n bytes none cow = (none, cow)
write_new n bytes (some slot) cow = store n bytes slot (record {
  versions = change slot (λ e. put_name (next cow.counter) (taken n e)) cow.versions;
  counter = next cow.counter;
})

-- `expected_ver && expected_ver[0] != 0`, where a null pointer is `none`.
abbrev pub is_given : Option (List ℕ) → Bool
is_given none = false
is_given (some ver) = not (get_or ver 0 0 == 0)

abbrev pub given : Option (List ℕ) → List ℕ
given none = []
given (some ver) = ver

pub write_of : Option ℕ → Option (List ℕ) → List ℕ → Cow → Option ℕ × Cow
unfolding write_found write_new find_ver free_slot
write_of none expected bytes cow = (none, cow)
write_of (some n) expected bytes cow =
    if is_given expected
    then write_found n bytes (find_ver cow.versions n (given expected)) cow
    else write_new n bytes (free_slot cow.versions) cow

-- `Harlin_CowWrite`: the number of bytes that it stores, or `none` for -1.
pub write : List ℕ → Option (List ℕ) → List ℕ → Nodes → Cow → Option ℕ × Cow
unfolding write_of
write path expected bytes nodes cow = write_of (resolve_path nodes path) expected bytes cow

pub read_slot : Option ℕ → ℕ → List Version → Option (List ℕ)
read_slot none size versions = none
read_slot (some i) size versions =
    let stored = (version versions i).payload_size in
    some (take (if ltb stored size then stored else size) (version versions i).payload)

pub read_of : Option ℕ → List ℕ → ℕ → List Version → Option (List ℕ)
unfolding read_slot find_ver
read_of none ver size versions = none
read_of (some n) ver size versions = read_slot (find_ver versions n ver) size versions

-- `Harlin_CowReadAt`: the bytes that it copies out, whose number it returns.
pub read_at : List ℕ → List ℕ → ℕ → Nodes → Cow → Option (List ℕ)
unfolding read_of
read_at path ver size nodes cow = read_of (resolve_path nodes path) ver size cow.versions

-- A version with the name and the payload of `from`, for file `n`.
abbrev pub copied : ℕ → Version → Version → Version
copied n from e = record e {
  ver = take name_len from.ver;
  payload_size = from.payload_size;
  payload = take from.payload_size from.payload ++ drop from.payload_size e.payload;
  file_node = some n;
}

pub copy_to : ℕ → ℕ → Option ℕ → List Version → Option (List Version)
copy_to i dst none versions = none
copy_to i dst (some v) versions =
    some (change v (λ e. copied dst (version versions i) (taken dst e)) versions)

-- One round of the loop of `Harlin_CowFork`; `none` when there is no room for a copy.
pub fork_one : ℕ → ℕ → ℕ → List Version → Option (List Version)
unfolding copy_to free_slot
fork_one src dst i versions =
    if (version versions i).used && is_node src (version versions i).file_node
    then copy_to i dst (free_slot versions) versions
    else some versions

-- The loop from version `i` on, with `rounds` left: whether all copies found room.
pub fork_loop : ℕ → ℕ → ℕ → ℕ → List Version → Bool × List Version
unfolding fork_one
fork_loop src dst zero i versions = (true, versions)
fork_loop src dst (suc rounds) i versions = elim (fork_one src dst i versions) [
  | none ↦ (false, versions)
  | some versions' ↦ fork_loop src dst rounds (i + 1) versions'
]

pub fork_nodes : ℕ → Option ℕ → Cow → Bool × Cow
unfolding fork_loop
fork_nodes src none cow = (false, cow)
fork_nodes src (some dst) cow =
    let done = fork_loop src dst max_versions 0 cow.versions in
    (done.0, record cow { versions = done.1 })

pub fork_from : Option ℕ → List ℕ → Nodes → Cow → Bool × Nodes × Cow
unfolding fork_nodes
fork_from none dst_path nodes cow = (false, nodes, cow)
fork_from (some src) dst_path nodes cow =
    let made = create dst_path nodes in
    let done = fork_nodes src (resolve_path made.1 dst_path) cow in
    if made.0 then (done.0, made.1, done.1) else (false, made.1, cow)

-- `Harlin_CowFork`: whether it succeeds.
pub fork : List ℕ → List ℕ → Nodes → Cow → Bool × Nodes × Cow
unfolding fork_from
fork src_path dst_path nodes cow = fork_from (resolve_path nodes src_path) dst_path nodes cow
