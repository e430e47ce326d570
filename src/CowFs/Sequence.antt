-- ===== src/CowFs/Sequence.antt =====
-- Sequences of calls on files and their versions: src/harlin/fs/cow_fs.c and
-- src/harlin/fs/mem_fs.c.
use har_lin_kernel.Base.{
  ℕ, zero, suc, ◌+◌, ◌<◌, ◌≡◌, refl, ap, sym, ◌∙◌, Bool, true, false, Option, none, some, List, [],
  ◌∷◌, arith, length, take, drop, Bool-cases, Option-cases, inl, inr, ◌⊎◌, length-take, length-drop,
  length-append,
}
use mathlib.Core.Path.{subst}
use har_lin_kernel.MemFs.{Nodes, node_count, payload_max, resolve_path}
use har_lin_kernel.MemFs.Valid as Tree
use har_lin_kernel.MemFs.Calls as Calls
use har_lin_kernel.MemFs.Calls.{create}
use har_lin_kernel.MemFs.Sequence as Files
use har_lin_kernel.CowFs.{
  Version, Cow, version, change, max_versions, name_len, taken, put_name, with_payload, copied,
  next, free_slot, find_ver, init, snapshot_in, snapshot_of, snapshot, store, write_found,
  write_new, write_of, write, is_given, given, fork_loop, fork_nodes, fork_from, fork,
}
use har_lin_kernel.CowFs.Names.{find_ver-some}
use har_lin_kernel.CowFs.Valid.{
  IsValid, name_of, take-name_of, put_name-taken, counter-lt, free_slot-some, free_slot-none,
  init-IsValid,
}
use har_lin_kernel.CowFs.Keep.{enter-IsValid, keep-IsValid, full-IsValid}
use har_lin_kernel.CowFs.Snapshot.{next-suc, find_ver-unused}
use har_lin_kernel.CowFs.Fork.{
  Forked, skipped, full, entered, copy_in, fork_one-Forked, owned-used, owned,
}
use har_lin_kernel.CowFs.Fork.Read.{proceed, loop-proceed, loop-end}

-- A new version under the next name.
module _ {cow : Cow} (c : IsValid cow) (n v : ℕ) (e : free_slot cow.versions ≡ some v) where
  slot-lt : v < max_versions
  slot-lt = omega (arith, (free_slot-some cow.versions v e).0, c.size)

  name-IsValid : IsValid (record {
    versions = change v (λ x. put_name (next cow.counter) (taken n x)) cow.versions;
    counter = next cow.counter;
  })
  name-IsValid =
      let u = (free_slot-some cow.versions v e).1 in
      let step = next-suc cow.counter (counter-lt c v slot-lt u) in
      enter-IsValid c v (λ x. put_name (next cow.counter) (taken n x)) (next cow.counter)
        (next cow.counter) slot-lt u
        (refl, put_name-taken (next cow.counter) n (version cow.versions v), c.fits v, omega arith)
        (omega arith) (omega (arith, step)) (omega (arith, step))

-- A full table.
all_used :
    {cow : Cow} (c : IsValid cow)
    → free_slot cow.versions ≡ none
    → (v : ℕ) → v < max_versions
    → (version cow.versions v).used ≡ true
all_used {cow} c e v h = free_slot-none cow.versions v e (omega (arith, h, c.size))

snapshot_of-IsValid : {cow : Cow} (c : IsValid cow) (o : Option ℕ) → IsValid (snapshot_of o cow).1
unfolding snapshot_of snapshot_in
snapshot_of-IsValid c none = c
snapshot_of-IsValid {cow} c (some n) = elim (Option-cases (free_slot cow.versions)) [
  | inl e ↦ rw e (full-IsValid c (next cow.counter) (all_used c e))
  | inr (v, e) ↦ rw e (name-IsValid c n v e)
]

store-IsValid :
    {cow : Cow} (c : IsValid cow) (n s : ℕ) (bytes : List ℕ)
    → s < max_versions
    → IsValid (store n bytes s cow).1
unfolding store
store-IsValid {cow} c n s bytes h =
    let stored = take payload_max bytes in
    let k = length-take payload_max bytes in
    keep-IsValid c s (with_payload n stored) h (
      refl,
      refl,
      omega (
        arith,
        k,
        c.fits s,
        length-append stored (drop (length stored) (version cow.versions s).payload),
        length-drop (length stored) (version cow.versions s).payload,
      ),
      omega (arith, k),
    )

write_of-IsValid :
    {cow : Cow} (c : IsValid cow) (o : Option ℕ) (expected : Option (List ℕ)) (bytes : List ℕ)
    → IsValid (write_of o expected bytes cow).1
unfolding write_of write_found write_new
write_of-IsValid c none expected bytes = c
write_of-IsValid {cow} c (some n) expected bytes = elim (Bool-cases (is_given expected)) [
  | inl t ↦ elim (Option-cases (find_ver cow.versions n (given expected))) [
    | inl e ↦ rw (t, e) c
    | inr (s, e) ↦
        rw (t, e)
          (store-IsValid c n s bytes
            (omega (arith, (find_ver-some cow.versions n (given expected) s e).0, c.size)))
  ]
  | inr t ↦ elim (Option-cases (free_slot cow.versions)) [
    | inl e ↦ rw (t, e) c
    | inr (v, e) ↦ rw (t, e) (store-IsValid (name-IsValid c n v e) n v bytes (slot-lt c n v e))
  ]
]

copied-IsValid :
    (versions : List Version) (counter : ℕ) (src dst i s : ℕ)
    → IsValid (record { versions = versions; counter = counter })
    → owned src (version versions i) ≡ true
    → s < length versions
    → (version versions s).used ≡ false
    → IsValid (record { versions = copy_in dst i s versions; counter = counter })
copied-IsValid versions counter src dst i s c t h u =
    let from = version versions i in
    let old = version versions s in
    let k = from.payload_size in
    let used = owned-used src from t in
    let inside : s < max_versions = omega (arith, h, c.size) in
    enter-IsValid c s (λ e. copied dst from (taken dst e)) (c.number i) counter inside u
      (
        refl,
        ap (take name_len) (c.named i used) ∙ take-name_of (c.number i),
        omega (
          arith,
          c.fits i,
          c.fits s,
          c.stored i,
          length-take k from.payload,
          length-drop k old.payload,
          length-append (take k from.payload) (drop k old.payload),
        ),
        c.stored i,
      )
      (c.recent i s used inside u) (omega arith) (omega arith)

round-IsValid :
    (versions : List Version) (counter : ℕ) (src dst i : ℕ)
    → IsValid (record { versions = versions; counter = counter })
    → (rest : List Version → Bool × List Version)
    → ((vs : List Version)
        → IsValid (record { versions = vs; counter = counter })
        → IsValid (record { versions = (rest vs).1; counter = counter }))
    → {o : Option (List Version)} → Forked src dst i versions o
    → IsValid (record { versions = (proceed rest versions o).1; counter = counter })
round-IsValid versions counter src dst i c rest f (skipped t) = f versions c
round-IsValid versions counter src dst i c rest f full = c
round-IsValid versions counter src dst i c rest f (entered s t h u before) =
    f (copy_in dst i s versions) (copied-IsValid versions counter src dst i s c t h u)

loop-IsValid :
    (counter src dst rounds i : ℕ) (versions : List Version)
    → IsValid (record { versions = versions; counter = counter })
    → IsValid (record { versions = (fork_loop src dst rounds i versions).1; counter = counter })
loop-IsValid counter src dst zero i versions c =
    subst (λ vs. IsValid (record { versions = vs; counter = counter }))
      (sym (loop-end src dst i versions)) c
loop-IsValid counter src dst (suc rounds) i versions c =
    subst (λ r. IsValid (record { versions = r.1; counter = counter }))
      (sym (loop-proceed src dst rounds i versions))
      (round-IsValid versions counter src dst i c (fork_loop src dst rounds (i + 1))
        (loop-IsValid counter src dst rounds (i + 1)) (fork_one-Forked src dst i versions))

fork_nodes-IsValid :
    {cow : Cow} (c : IsValid cow) (src : ℕ) (o : Option ℕ) → IsValid (fork_nodes src o cow).1
unfolding fork_nodes
fork_nodes-IsValid c src none = c
fork_nodes-IsValid {cow} c src (some dst) =
    loop-IsValid cow.counter src dst max_versions 0 cow.versions c

fork_from-IsValid :
    {cow : Cow} (c : IsValid cow) (o : Option ℕ) (dst_path : List ℕ) (nodes : Nodes)
    → IsValid (fork_from o dst_path nodes cow).2
unfolding fork_from
fork_from-IsValid c none dst_path nodes = c
fork_from-IsValid {cow} c (some src) dst_path nodes = elim (Bool-cases (create dst_path nodes).0) [
  | inl t ↦ rw t (fork_nodes-IsValid c src (resolve_path (create dst_path nodes).1 dst_path))
  | inr t ↦ rw t c
]

-- The files that `Harlin_CowFork` leaves.
fork_from-nodes :
    (o : Option ℕ) (dst_path : List ℕ) (nodes : Nodes) (cow : Cow)
    → ((fork_from o dst_path nodes cow).1 ≡ nodes)
      ⊎ ((fork_from o dst_path nodes cow).1 ≡ (create dst_path nodes).1)
unfolding fork_from
fork_from-nodes none dst_path nodes cow = inl refl
fork_from-nodes (some src) dst_path nodes cow = elim (Bool-cases (create dst_path nodes).0) [
  | inl t ↦ inr (rw t refl)
  | inr t ↦ inr (rw t refl)
]

-- The calls that change files or versions.
pub data Call : Type 0 where
  filing : Files.Call → Call
  snapping : List ℕ → Call
  storing : List ℕ → Option (List ℕ) → List ℕ → Call
  forking : List ℕ → List ℕ → Call

unfoldable pub perform : Call → Nodes × Cow → Nodes × Cow
unfolding snapshot write fork
perform (filing call) (nodes, cow) = (Files.perform call nodes, cow)
perform (snapping path) (nodes, cow) = (nodes, (snapshot path nodes cow).1)
perform (storing path expected bytes) (nodes, cow) =
    (nodes, (write path expected bytes nodes cow).1)
perform (forking src_path dst_path) (nodes, cow) =
    let r = fork src_path dst_path nodes cow in (r.1, r.2)

unfoldable pub run : List Call → Nodes × Cow → Nodes × Cow
unfolding perform
run [] state = state
run (call ∷ calls) state = run calls (perform call state)

-- Well-formed files and versions.
pub record BothValid (state : Nodes × Cow) : Type 0 where
  pub files : Tree.IsValid state.0
  pub versions : IsValid state.1

perform-BothValid :
    (call : Call) (state : Nodes × Cow) → BothValid state → BothValid (perform call state)
unfolding perform snapshot write fork
perform-BothValid (filing call) (nodes, cow) b = record {
  files = (Files.perform-Later b.files call).tree;
  versions = b.versions;
}
perform-BothValid (snapping path) (nodes, cow) b = record {
  files = b.files;
  versions = snapshot_of-IsValid b.versions (resolve_path nodes path);
}
perform-BothValid (storing path expected bytes) (nodes, cow) b = record {
  files = b.files;
  versions = write_of-IsValid b.versions (resolve_path nodes path) expected bytes;
}
perform-BothValid (forking src_path dst_path) (nodes, cow) b = record {
  files = elim (fork_from-nodes (resolve_path nodes src_path) dst_path nodes cow) [
    | inl e ↦ subst Tree.IsValid (sym e) b.files
    | inr e ↦ subst Tree.IsValid (sym e) (Files.create-IsValid b.files dst_path)
  ];
  versions = fork_from-IsValid b.versions (resolve_path nodes src_path) dst_path nodes;
}

run-BothValid :
    (calls : List Call) (state : Nodes × Cow) → BothValid state → BothValid (run calls state)
unfolding run
run-BothValid [] state b = b
run-BothValid (call ∷ calls) state b =
    run-BothValid calls (perform call state) (perform-BothValid call state b)

-- With room for one more version, no file has a version of the name that the next one takes.
pub NewName : Cow → Type 0
NewName cow =
    (v m : ℕ)
    → free_slot cow.versions ≡ some v
    → find_ver cow.versions m (name_of (next cow.counter)) ≡ none

valid-NewName : {cow : Cow} → IsValid cow → NewName cow
unfolding NewName
valid-NewName {cow} c v m e =
    let u = (free_slot-some cow.versions v e).1 in
    let step = next-suc cow.counter (counter-lt c v (slot-lt c 0 v e) u) in
    ap (λ k. find_ver cow.versions m (name_of k)) step ∙ find_ver-unused c v m (slot-lt c 0 v e) u

pub run-init-BothValid :
    (nodes : Nodes) (cow : Cow) (calls : List Call)
    → length nodes ≡ node_count
    → length cow.versions ≡ max_versions
    → ((i : ℕ) → length (version cow.versions i).payload ≡ payload_max)
    → let state = run calls (Calls.init nodes, init cow) in BothValid state × NewName state.1
run-init-BothValid nodes cow calls h k f =
    let b =
      run-BothValid calls (Calls.init nodes, init cow)
        (record { files = Files.init-IsValid nodes h; versions = init-IsValid cow k f }) in
    (b, valid-NewName b.versions)
