-- ===== src/MemFs/Examples.antt =====
-- Runs of the calls of src/harlin/fs/mem_fs.c, and instances of the theorems.
use Prim.Native.Char.{code}
use Prim.Native.String.{String}
use har_lin_kernel.Base.{
  ℕ, ◌≡◌, ◌≢◌, refl, true, false, Option, none, some, List, [], ◌∷◌, replicate, length, map, min,
  take,
}
use har_lin_kernel.PathWalk.{parse}
use har_lin_kernel.MemFs.{Nodes, node, blank, node_count, payload_max, resolve_path, find_child}
use har_lin_kernel.MemFs.Calls.{init, mkdir, create, remove, rmdir, write, read, ls, DirEntry}
use har_lin_kernel.MemFs.Valid.{IsValid}
use har_lin_kernel.MemFs.Sequence.{
  Call, making_dir, making_file, perform, run, run-init-IsValid, remove_leaks,
}
use har_lin_kernel.MemFs.Access.{create_found, remove_gone}
use har_lin_kernel.MemFs.Content.{write-read}

abbrev bytes : String → List ℕ
bytes String.[] = []
bytes (String.◌∷◌ c s) = code c ∷ bytes s

abbrev blanks : Nodes
blanks = replicate node_count blank

-- Two directories, a file in one of them.
abbrev some_calls : List Call
some_calls = making_dir (bytes "/a") ∷ making_dir (bytes "/d") ∷ making_file (bytes "/a/f") ∷ []

abbrev some_nodes : Nodes
some_nodes = run some_calls (init blanks)

writes_and_reads :
    let c = (write (bytes "/a/f") (1 ∷ 2 ∷ 3 ∷ []) some_nodes).1 in
    read (bytes "a/f") 2 c ≡ some (1 ∷ 2 ∷ [])
unfolding init run perform mkdir create write read parse
writes_and_reads = refl

abbrev listed : Option (List DirEntry) → List ℕ
listed none = []
listed (some entries) = map (λ e. e.node) entries

lists_newest_first : listed (ls (bytes "/") 8 some_nodes) ≡ 2 ∷ 1 ∷ []
unfolding init run perform mkdir create ls parse
lists_newest_first = refl

refuses_full_dir : (rmdir (bytes "/a") some_nodes).0 ≡ false
unfolding init run perform mkdir create rmdir parse
refuses_full_dir = refl

run-init-IsValid_example : IsValid (run some_calls (init blanks))
run-init-IsValid_example = run-init-IsValid blanks some_calls refl

creates : (create (bytes "/d/g") some_nodes).0 ≡ true
unfolding init run perform mkdir create parse
creates = refl

create_found_example :
    let nodes' = (create (bytes "/d/g") some_nodes).1 in
    (n : ℕ) × ((node some_nodes n).used ≡ false)
    × (resolve_path nodes' (bytes "/d/g") ≡ some n)
    × (read (bytes "/d/g") 9 nodes' ≡ some [])
    × ((q : List ℕ) (m : ℕ) → resolve_path some_nodes q ≡ some m → resolve_path nodes' q ≡ some m)
create_found_example =
    create_found some_nodes (bytes "/d/g") 9 (run-init-IsValid blanks some_calls refl) creates

removes : (remove (bytes "/a") some_nodes).0 ≡ true
unfolding init run perform mkdir create remove parse
removes = refl

remove_gone_example :
    let nodes' = (remove (bytes "/a") some_nodes).1 in
    (resolve_path nodes' (bytes "/a") ≡ none)
    × ((q : List ℕ) (m : ℕ) → resolve_path nodes' q ≡ some m → resolve_path some_nodes q ≡ some m)
remove_gone_example =
    remove_gone some_nodes (bytes "/a") (run-init-IsValid blanks some_calls refl) removes

writes : (write (bytes "/a/f") (1 ∷ 2 ∷ 3 ∷ []) some_nodes).0 ≡ some 3
unfolding init run perform mkdir create write parse
writes = refl

write-read_example :
    let nodes' = (write (bytes "/a/f") (1 ∷ 2 ∷ 3 ∷ []) some_nodes).1 in
    (3 ≡ min payload_max (length {A = ℕ} (1 ∷ 2 ∷ 3 ∷ [])))
    × (read (bytes "/a/f") 2 nodes' ≡ some (take 2 (take payload_max (1 ∷ 2 ∷ 3 ∷ []))))
    × ((q : List ℕ)
        → resolve_path some_nodes q ≢ resolve_path some_nodes (bytes "/a/f")
        → read q 2 nodes' ≡ read q 2 some_nodes)
write-read_example =
    write-read some_nodes (bytes "/a/f") (1 ∷ 2 ∷ 3 ∷ []) 3 2
      (run-init-IsValid blanks some_calls refl) writes

finds_dir : resolve_path some_nodes (bytes "/a") ≡ some 1
unfolding init run perform mkdir create resolve_path parse
finds_dir = refl

finds_file : find_child some_nodes 1 (bytes "f") ≡ some 3
unfolding init run perform mkdir create find_child parse
finds_file = refl

remove_leaks_example :
    let later = run (making_dir (bytes "/a") ∷ []) (remove (bytes "/a") some_nodes).1 in
    ((node later 3).used ≡ true) × ((q : List ℕ) → resolve_path later q ≢ some 3)
remove_leaks_example =
    remove_leaks some_nodes (bytes "/a") (bytes "f") 1 3 (making_dir (bytes "/a") ∷ [])
      (run-init-IsValid blanks some_calls refl) finds_dir finds_file removes
