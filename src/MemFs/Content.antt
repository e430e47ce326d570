-- ===== src/MemFs/Content.antt =====
-- What `Harlin_MemFsWrite` stores and `Harlin_MemFsRead` copies out, in src/harlin/fs/mem_fs.c.
use har_lin_kernel.Base.{
  ℕ, zero, suc, ◌≤◌, ◌<◌, ◌≡◌, ◌≢◌, refl, ap, sym, ◌∙◌, true, Option, none, some, List, [], ◌∷◌,
  ◌++◌, arith, ◌==◌, ltb, if◌then◌else◌, length, min, Bool-cases, inl, inr, Option-cases, take,
  drop, ◌>>=◌, length-take, fun_ext,
}
use har_lin_kernel.PathWalk.{parse}
use har_lin_kernel.MemFs.{
  Nodes, node, change, node_count, payload_max, file_type, find_loop, find_child, text, walk,
  resolve_path,
}
use har_lin_kernel.MemFs.Calls.{write, read, read_at, with_payload}
use har_lin_kernel.MemFs.Valid.{IsValid, used-lt, node_self, node_other}
use har_lin_kernel.MemFs.Walk.{Found-used, resolve_path-Found}
use har_lin_kernel.MemFs.Run.{Written, refused, written, write-Written}
use har_lin_kernel.MemFs.History.{SameTree, same_field, write-SameTree}

module _ {nodes nodes' : Nodes} (e : SameTree nodes nodes') where
  find_loop-same :
      (name : List ℕ) (rounds : ℕ) (o : Option ℕ)
      → find_loop nodes' name rounds o ≡ find_loop nodes name rounds o
  unfolding find_loop
  find_loop-same name zero o = refl
  find_loop-same name (suc rounds) none = refl
  find_loop-same name (suc rounds) (some c) =
      rw
        (
          same_field e (λ x. x.name) (λ b k x. refl) c,
          same_field e (λ x. x.next_sibling) (λ b k x. refl) c,
          find_loop-same name rounds (node nodes c).next_sibling,
        )
        refl

  find_child-same : (d : ℕ) (name : List ℕ) → find_child nodes' d name ≡ find_child nodes d name
  unfolding find_child
  find_child-same d name =
      rw (same_field e (λ x. x.first_child) (λ b k x. refl) d) (find_loop-same name node_count _)

  walk-same :
      (buf : List ℕ) (segments : List (ℕ × ℕ)) (cur : ℕ)
      → walk nodes' buf segments cur ≡ walk nodes buf segments cur
  unfolding walk
  walk-same buf [] cur = refl
  walk-same buf (segment ∷ segments) cur = rw (find_child-same cur (text buf segment)) (
      ap (λ f. find_child nodes cur (text buf segment) >>= f)
        (fun_ext (λ c. walk-same buf segments c)))

  -- Paths lead where they led before.
  resolve_path-same : (path : List ℕ) → resolve_path nodes' path ≡ resolve_path nodes path
  unfolding resolve_path
  resolve_path-same path = ap (λ f. parse path >>= f) (fun_ext (λ p. walk-same p.buf p.segments 0))

take-all : (n : ℕ) (xs : List ℕ) → length xs ≤ n → take n xs ≡ xs
take-all zero [] h = refl
take-all zero (x ∷ xs) h = absurd (omega (arith, h))
take-all (suc n) [] h = refl
take-all (suc n) (x ∷ xs) h = ap (λ t. x ∷ t) (take-all n xs (omega (arith, h)))

take-append : (n : ℕ) (xs ys : List ℕ) → n ≤ length xs → take n (xs ++ ys) ≡ take n xs
take-append zero xs ys h = refl
take-append (suc n) [] ys h = absurd (omega (arith, h))
take-append (suc n) (x ∷ xs) ys h = ap (λ t. x ∷ t) (take-append n xs ys (omega (arith, h)))

-- What is read of a payload: no more than was stored.
pub take-stored :
    (size : ℕ) (xs ys : List ℕ)
    → take (if ltb (length xs) size then length xs else size) (xs ++ ys) ≡ take size xs
take-stored size xs ys = elim (Bool-cases (ltb (length xs) size)) [
  | inl t ↦ rw t (
      take-append (length xs) xs ys (omega arith)
      ∙ take-all (length xs) xs (omega arith)
      ∙ sym (take-all size xs (ground (arith, t))))
  | inr t ↦ rw t (take-append size xs ys (ground (arith, t)))
]

read-node :
    (nodes : Nodes) (path : List ℕ) (size n : ℕ) (xs ys : List ℕ)
    → resolve_path nodes path ≡ some n
    → (node nodes n).type ≡ file_type
    → (node nodes n).payload_size ≡ length xs
    → (node nodes n).payload ≡ xs ++ ys
    → read path size nodes ≡ some (take size xs)
unfolding read read_at
read-node nodes path size n xs ys e t k b =
    let is_file : ((node nodes n).type == file_type) ≡ true = ground (arith, t) in
    rw (e, is_file, k, b) (ap some (take-stored size xs ys))

-- Two tables in which a path leads to the same node, with the same type and content.
read-same :
    (nodes nodes' : Nodes) (path : List ℕ) (size : ℕ)
    → resolve_path nodes' path ≡ resolve_path nodes path
    → ((m : ℕ) → resolve_path nodes path ≡ some m → node nodes' m ≡ node nodes m)
    → read path size nodes' ≡ read path size nodes
unfolding read read_at
read-same nodes nodes' path size e f = elim (Option-cases (resolve_path nodes path)) [
  | inl g ↦ rw (e, g) refl
  | inr (m, g) ↦ rw (e, g, f m g) refl
]

Written-read :
    {nodes : Nodes} (v : IsValid nodes) (path bytes : List ℕ) {r : Option ℕ × Nodes} (k size : ℕ)
    → Written nodes bytes (resolve_path nodes path) r
    → r.0 ≡ some k
    → (k ≡ min payload_max (length bytes))
      × (read path size r.1 ≡ some (take size (take payload_max bytes)))
      × ((q : List ℕ)
          → resolve_path nodes q ≢ resolve_path nodes path
          → read q size r.1 ≡ read q size nodes)
Written-read v path bytes k size refused e = absurd (ground arith)
Written-read {nodes} v path bytes k size (written n f t) e =
    let stored = take payload_max bytes in
    let inside : n < length nodes =
      omega (arith, v.size, used-lt nodes n v.size (Found-used v (resolve_path-Found v path f))) in
    let same = write-SameTree nodes n stored inside in
    let there = node_self nodes n (with_payload stored) inside in
    (
      ground (arith, e, length-take payload_max bytes),
      read-node (change n (with_payload stored) nodes) path size n stored
          (drop (length stored) (node nodes n).payload) (resolve_path-same same path ∙ f)
          (ap (λ x. x.type) there ∙ t) (ap (λ x. x.payload_size) there) (ap (λ x. x.payload) there),
      λ q ne.
          read-same nodes (change n (with_payload stored) nodes) q size (resolve_path-same same q)
            (λ m g. node_other nodes n m (with_payload stored) (λ eq. ne (g ∙ ap some eq ∙ sym f))),
    )

-- When `Harlin_MemFsWrite` succeeds, it stores the first 256 bytes and returns their number; a read
-- of that path gives them back, as many as fit, and a read of a path to any other node gives what
-- it gave before.
pub write-read :
    (nodes : Nodes) (path bytes : List ℕ) (k size : ℕ)
    → IsValid nodes
    → (write path bytes nodes).0 ≡ some k
    → let nodes' = (write path bytes nodes).1 in
      (k ≡ min payload_max (length bytes))
      × (read path size nodes' ≡ some (take size (take payload_max bytes)))
      × ((q : List ℕ)
          → resolve_path nodes q ≢ resolve_path nodes path
          → read q size nodes' ≡ read q size nodes)
write-read nodes path bytes k size v e =
    Written-read v path bytes k size (write-Written path bytes nodes) e
