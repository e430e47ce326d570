-- ===== src/CowFs/Forking.antt =====
-- What `Harlin_CowFork` leaves: src/harlin/fs/cow_fs.c.
use har_lin_kernel.Base.{
  ℕ, ◌≡◌, ◌≢◌, refl, ap, sym, ◌∙◌, true, false, Option, none, some, List, arith, take, Bool-cases,
  inl, inr,
}
use har_lin_kernel.MemFs.{Nodes, node, resolve_path}
use har_lin_kernel.MemFs.Calls.{create}
use har_lin_kernel.MemFs.Valid as Tree
use har_lin_kernel.MemFs.Walk.{Found-used, resolve_path-Found}
use har_lin_kernel.MemFs.Access.{create_found}
use har_lin_kernel.CowFs.{
  Cow, max_versions, name_len, find_ver, fork_nodes, fork_from, fork, read_of, read_at,
}
use har_lin_kernel.CowFs.Valid.{IsValid, take-name_of}
use har_lin_kernel.CowFs.Content.{read_at-path}
use har_lin_kernel.CowFs.Fork.{Sound}
use har_lin_kernel.CowFs.Fork.Read.{loop-apart}
use har_lin_kernel.CowFs.Fork.Copies.{fork_loop-copies}

valid-Sound : {cow : Cow} → IsValid cow → Sound cow.versions
valid-Sound c = record {
  stored = λ j. omega (arith, c.fits j, c.stored j);
  sized = λ j u. ap (take name_len) (c.named j u) ∙ take-name_of (c.number j) ∙ sym (c.named j u);
}

fork_from-some :
    (o : Option ℕ) (dst_path : List ℕ) (nodes : Nodes) (cow : Cow)
    → (fork_from o dst_path nodes cow).0 ≡ true
    → (src : ℕ) × (o ≡ some src)
      × ((create dst_path nodes).0 ≡ true)
      × ((fork_from o dst_path nodes cow).0
          ≡ (fork_nodes src (resolve_path (create dst_path nodes).1 dst_path) cow).0)
      × ((fork_from o dst_path nodes cow).1 ≡ (create dst_path nodes).1)
      × ((fork_from o dst_path nodes cow).2
          ≡ (fork_nodes src (resolve_path (create dst_path nodes).1 dst_path) cow).1)
unfolding fork_from
fork_from-some none dst_path nodes cow e = absurd (ground (arith, e))
fork_from-some (some src) dst_path nodes cow e = elim (Bool-cases (create dst_path nodes).0) [
  | inl t ↦ (src, refl, t, rw t refl, rw t refl, rw t refl)
  | inr t ↦ absurd (ground (arith, e, refused t))
]
  where
    refused :
        (create dst_path nodes).0 ≡ false → (fork_from (some src) dst_path nodes cow).0 ≡ false
    refused t = rw (fork_from, t) refl

fork_nodes-read :
    {cow : Cow} (c : IsValid cow) (src dst : ℕ) (size : ℕ)
    → src ≢ dst
    → ((w : List ℕ) → find_ver cow.versions dst w ≡ none)
    → (fork_nodes src (some dst) cow).0 ≡ true
    → let versions' = (fork_nodes src (some dst) cow).1.versions in
      ((w : List ℕ) → read_of (some dst) w size versions' ≡ read_of (some src) w size cow.versions)
      × ((m : ℕ) (w : List ℕ)
          → m ≢ dst
          → read_of (some m) w size versions' ≡ read_of (some m) w size cow.versions)
unfolding fork_nodes
fork_nodes-read {cow} c src dst size ne fresh e = (
  λ w.
      fork_loop-copies src dst w size max_versions cow.versions ne (valid-Sound c) (fresh w) c.size
        e,
  λ m w other. loop-apart src dst m w size other max_versions 0 cow.versions (valid-Sound c),
)

-- When `Harlin_CowFork` succeeds, and no version stands for the node of the new file before, then a
-- read of any version of the new file gives what it gave of the old file, and a read of any version
-- of a file that was there before gives what it gave before.
pub fork-read_at :
    (src_path dst_path : List ℕ) (nodes : Nodes) (cow : Cow) (size : ℕ)
    → Tree.IsValid nodes
    → IsValid cow
    → ((m : ℕ) (w : List ℕ)
        → resolve_path (create dst_path nodes).1 dst_path ≡ some m
        → find_ver cow.versions m w ≡ none)
    → (fork src_path dst_path nodes cow).0 ≡ true
    → let r = fork src_path dst_path nodes cow in
      ((w : List ℕ) → read_at dst_path w size r.1 r.2 ≡ read_at src_path w size nodes cow)
      × ((q w : List ℕ) (m : ℕ)
          → resolve_path nodes q ≡ some m
          → read_at q w size r.1 r.2 ≡ read_at q w size nodes cow)
unfolding fork
fork-read_at src_path dst_path nodes cow size v c fresh e =
    let (src, found, made, flag, files, versions) =
      fork_from-some (resolve_path nodes src_path) dst_path nodes cow e in
    let (dst, unused, there, _, kept) = create_found nodes dst_path size v made in
    let apart : (m : ℕ) → (q : List ℕ) → resolve_path nodes q ≡ some m → m ≢ dst = λ m q g eq.
      ground (
        arith,
        unused,
        Found-used v (resolve_path-Found v q g),
        ap (λ a. (node nodes a).used) eq,
      ) in
    let done = ap (λ o. fork_nodes src o cow) there in
    let (copies, others) =
      fork_nodes-read c src dst size (apart src src_path found) (λ w. fresh dst w there)
        (ap (λ r. r.0) (sym done) ∙ sym flag ∙ e) in
    let cow' = (fork src_path dst_path nodes cow).2 in
    let table = ap (λ x. x.versions) versions ∙ ap (λ r. r.1.versions) done in
    let reads : (q w : List ℕ) (m : ℕ)
        → resolve_path (create dst_path nodes).1 q ≡ some m
        → read_at q w size (fork src_path dst_path nodes cow).1 cow'
          ≡ read_of (some m) w size (fork_nodes src (some dst) cow).1.versions =
      λ q w m g.
        read_at-path (fork src_path dst_path nodes cow).1 cow' q w size m
          (ap (λ t. resolve_path t q) files ∙ g)
        ∙ ap (read_of (some m) w size) table in
    (
      λ w.
          reads dst_path w dst there
          ∙ copies w
          ∙ sym (read_at-path nodes cow src_path w size src found),
      λ q w m g.
          reads q w m (kept q m g)
          ∙ others m w (apart m q g)
          ∙ sym (read_at-path nodes cow q w size m g),
    )
