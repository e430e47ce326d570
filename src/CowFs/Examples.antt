-- ===== src/CowFs/Examples.antt =====
-- Runs of the calls of src/harlin/fs/cow_fs.c, and instances of the theorems.
use mathlib.Core.Path.{subst}
use har_lin_kernel.Base.{
  ℕ, zero, suc, ap, ◌≡◌, ◌≢◌, ◌⊎◌, refl, sym, ◌∙◌, true, false, none, some, List, [], ◌∷◌,
  replicate, length, min, take, arith,
}
use har_lin_kernel.PathWalk.{parse}
use har_lin_kernel.MemFs.{Nodes, node_count, payload_max, resolve_path}
use har_lin_kernel.MemFs as MemFs
use har_lin_kernel.MemFs.Calls as Calls
use har_lin_kernel.MemFs.Calls.{create}
use har_lin_kernel.MemFs.Sequence as Files
use har_lin_kernel.CowFs.{
  Cow, blank, version, max_versions, name_len, same_name, find_ver, init, snapshot, write, read_at,
  fork,
}
use har_lin_kernel.CowFs.Content.{write-read_at}
use har_lin_kernel.CowFs.Snapshot.{snapshot-read_at}
use har_lin_kernel.CowFs.Forking.{fork-read_at}
use har_lin_kernel.CowFs.Sequence.{
  Call, filing, snapping, storing, perform, run, BothValid, run-init-BothValid,
}

-- The paths "/f" and "/g".
abbrev f_path : List ℕ
f_path = 47 ∷ 102 ∷ []

abbrev g_path : List ℕ
g_path = 47 ∷ 103 ∷ []

-- The names "v100" and "v200" of the first two versions.
abbrev v1 : List ℕ
v1 = 118 ∷ 49 ∷ 48 ∷ 48 ∷ replicate 12 0

abbrev v2 : List ℕ
v2 = 118 ∷ 50 ∷ 48 ∷ 48 ∷ replicate 12 0

abbrev no_nodes : Nodes
no_nodes = replicate node_count MemFs.blank

abbrev no_versions : Cow
no_versions = record { versions = replicate max_versions blank; counter = 9 }

abbrev some_calls : List Call
some_calls =
    filing (Files.making_file f_path) ∷ snapping f_path ∷ storing f_path (some v1) (1 ∷ 2 ∷ []) ∷ []

abbrev state : Nodes × Cow
state = run some_calls (Calls.init no_nodes, init no_versions)

all_blank : (n i : ℕ) → version (replicate n blank) i ≡ blank
all_blank zero i = refl
all_blank (suc n) zero = refl
all_blank (suc n) (suc i) = all_blank n i

payload_sized : (i : ℕ) → length (version no_versions.versions i).payload ≡ payload_max
payload_sized i = ap (λ e. length e.payload) (all_blank max_versions i)

reads_latest : read_at f_path v1 9 state.0 state.1 ≡ some (1 ∷ 2 ∷ [])
unfolding run perform Calls.init init create snapshot write read_at parse Files.perform resolve_path
reads_latest = refl

state-BothValid : BothValid state
state-BothValid = (run-init-BothValid no_nodes no_versions some_calls refl refl payload_sized).0

writes : (write f_path (some v1) (7 ∷ []) state.0 state.1).0 ≡ some 1
unfolding run perform Calls.init init create snapshot write parse Files.perform resolve_path
writes = refl

write-read_at_example :
    let cow' = (write f_path (some v1) (7 ∷ []) state.0 state.1).1 in
    (1 ≡ min payload_max (length {A = ℕ} (7 ∷ [])))
    × (read_at f_path v1 9 state.0 cow' ≡ some (take 9 (take payload_max (7 ∷ []))))
    × ((q w : List ℕ)
        → (resolve_path state.0 f_path ≢ resolve_path state.0 q)
          ⊎ (same_name w v1 name_len 0 ≡ false)
        → read_at q w 9 state.0 cow' ≡ read_at q w 9 state.0 state.1)
write-read_at_example = write-read_at f_path v1 (7 ∷ []) state.0 state.1 1 9 refl writes

snaps : (snapshot f_path state.0 state.1).0 ≡ some v2
unfolding run perform Calls.init init create snapshot write parse Files.perform resolve_path
snaps = refl

snapshot-read_at_example :
    let cow' = (snapshot f_path state.0 state.1).1 in
    (n : ℕ) × (resolve_path state.0 f_path ≡ some n)
    × ((m : ℕ) → find_ver state.1.versions m v2 ≡ none)
    × (read_at f_path v2 9 state.0 cow' ≡ some [])
    × ((q w : List ℕ)
        → (resolve_path state.0 f_path ≢ resolve_path state.0 q)
          ⊎ (same_name w v2 name_len 0 ≡ false)
        → read_at q w 9 state.0 cow' ≡ read_at q w 9 state.0 state.1)
snapshot-read_at_example =
    snapshot-read_at f_path state.0 state.1 v2 9 state-BothValid.versions snaps

forks : (fork f_path g_path state.0 state.1).0 ≡ true
unfolding run perform Calls.init init create snapshot write fork parse Files.perform resolve_path
forks = refl

forks_to : resolve_path (create g_path state.0).1 g_path ≡ some 2
unfolding run perform Calls.init init create snapshot write parse Files.perform resolve_path
forks_to = refl

no_version_yet : (w : List ℕ) → find_ver state.1.versions 2 w ≡ none
unfolding run perform Calls.init init create snapshot write parse Files.perform find_ver
    resolve_path
no_version_yet w = refl

fresh :
    (m : ℕ) (w : List ℕ)
    → resolve_path (create g_path state.0).1 g_path ≡ some m
    → find_ver state.1.versions m w ≡ none
fresh m w e =
    let same : 2 ≡ m = ground (arith, sym forks_to ∙ e) in
    subst (λ a. find_ver state.1.versions a w ≡ none) same (no_version_yet w)

fork-read_at_example :
    let r = fork f_path g_path state.0 state.1 in
    ((w : List ℕ) → read_at g_path w 9 r.1 r.2 ≡ read_at f_path w 9 state.0 state.1)
    × ((q w : List ℕ) (m : ℕ)
        → resolve_path state.0 q ≡ some m
        → read_at q w 9 r.1 r.2 ≡ read_at q w 9 state.0 state.1)
fork-read_at_example =
    fork-read_at f_path g_path state.0 state.1 9 state-BothValid.files state-BothValid.versions
      fresh forks
