-- ===== src/CowFs/Snapshot.antt =====
-- The version that `Harlin_CowSnapshot` makes: src/harlin/fs/cow_fs.c.
use har_lin_kernel.Base.{
  ℕ, suc, ◌<◌, ◌≡◌, ◌≢◌, refl, ap, sym, ◌∙◌, true, false, Option, none, some, List, [], arith,
  length, Bool-cases, Option-cases, inl, inr, ◌⊎◌, first-nowhere, first-at, take-nil, length-set,
}
use mathlib.Core.Path.{subst}
use har_lin_kernel.MemFs.{Nodes, resolve_path}
use har_lin_kernel.MemFs.Calls.{is_node}
use har_lin_kernel.CowFs.{
  Version, Cow, blank, version, change, same_name, matches, find_ver, name_len, max_versions, taken,
  put_name, next, free_slot, snapshot_in, snapshot_of, snapshot, read_of, read_at,
}
use har_lin_kernel.CowFs.Names.{
  same_name_refl, matches_lem, found_apart, version_self, version_other,
}
use har_lin_kernel.CowFs.Valid.{
  IsValid, name_of, name_of_injective, put_name-taken, counter-lt, free_slot-some,
}
use har_lin_kernel.CowFs.Content.{read_of-apart, read_of-found, read_at-same, read_at-path}

-- With room in the table, no version has the name of the next value of the counter.
name_unused :
    {cow : Cow} (c : IsValid cow) (v m i : ℕ)
    → v < max_versions
    → (version cow.versions v).used ≡ false
    → matches m (name_of (suc cow.counter)) (version cow.versions i) ≡ false
unfolding matches
name_unused {cow} c v m i h u = elim (Bool-cases (version cow.versions i).used) [
  | inl t ↦
      (let k = c.number i in
        let few = counter-lt c v h u in
        let recent = c.recent i v t h u in
        let other : same_name (name_of k) (name_of (suc cow.counter)) name_len 0 ≡ false =
          elim (Bool-cases (same_name (name_of k) (name_of (suc cow.counter)) name_len 0)) [
            | inl w ↦
                (let same =
                    name_of_injective k (suc cow.counter) (omega (arith, few, recent))
                      (omega (arith, few)) w in
                  absurd (omega (arith, same, recent)))
            | inr w ↦ w
          ] in
        let named =
          ap (λ a. same_name a (name_of (suc cow.counter)) name_len 0) (c.named i t) ∙ other in
        rw (t, named) ground (arith, Bool-cases (is_node m (version cow.versions i).file_node)))
  | inr t ↦ rw t refl
]

-- No file has a version of the name that the next snapshot takes.
pub find_ver-unused :
    {cow : Cow} (c : IsValid cow) (v m : ℕ)
    → v < max_versions
    → (version cow.versions v).used ≡ false
    → find_ver cow.versions m (name_of (suc cow.counter)) ≡ none
unfolding find_ver
find_ver-unused {cow} c v m h u =
    first-nowhere (matches m (name_of (suc cow.counter))) blank cow.versions
      (λ i k. name_unused c v m i h u)

pub next-suc : (k : ℕ) → k < max_versions → next k ≡ suc k
next-suc k h = omega (arith, h)

-- A new version of file `n` in the table, under the next name.
module _ {cow : Cow} (c : IsValid cow) (n v : ℕ) (f : Version → Version) (h : v < max_versions)
    (u : (version cow.versions v).used ≡ false)
    (t : matches n (name_of (suc cow.counter)) (f (version cow.versions v)) ≡ true) where
  inside : v < length cow.versions
  inside = omega (arith, h, c.size)

  entered-found : find_ver (change v f cow.versions) n (name_of (suc cow.counter)) ≡ some v
  unfolding find_ver
  entered-found =
      let name = name_of (suc cow.counter) in
      first-at (matches n name) blank (change v f cow.versions) v
        (omega (arith, inside, length-set cow.versions v (f (version cow.versions v))))
        (ap (matches n name) (version_self cow.versions v f inside) ∙ t)
        (λ j k.
          ap (matches n name) (version_other cow.versions v j f (λ q. omega (arith, q, k)))
          ∙ name_unused c v n j h u)

  unused-matches : (m : ℕ) (w : List ℕ) → matches m w (version cow.versions v) ≡ false
  unfolding matches
  unused-matches m w = rw u refl

  entered-apart :
      (m : ℕ) (w : List ℕ) (size : ℕ)
      → (n ≢ m) ⊎ (same_name w (name_of (suc cow.counter)) name_len 0 ≡ false)
      → read_of (some m) w size (change v f cow.versions) ≡ read_of (some m) w size cow.versions
  entered-apart m w size a =
      read_of-apart cow.versions v f m w size inside (unused-matches m w)
        (found_apart n m (name_of (suc cow.counter)) w (f (version cow.versions v)) t a)

  entered-read :
      (size : ℕ)
      → (f (version cow.versions v)).payload_size ≡ 0
      → read_of (some n) (name_of (suc cow.counter)) size (change v f cow.versions) ≡ some []
  entered-read size z =
      read_of-found (change v f cow.versions) n v (name_of (suc cow.counter)) []
        (version (change v f cow.versions) v).payload size entered-found
        (ap (λ e. e.payload_size) (version_self cow.versions v f inside) ∙ z) refl
      ∙ ap some (take-nil size)

entered-matches : (k n : ℕ) (e : Version) → matches n (name_of k) (put_name k (taken n e)) ≡ true
entered-matches k n e = matches_lem n (name_of k) (put_name k (taken n e)) refl refl (
    ap (λ a. same_name a (name_of k) name_len 0) (put_name-taken k n e)
    ∙ same_name_refl (name_of k) name_len 0)

snapshot_in-none : (n : ℕ) (cow : Cow) (ver : List ℕ) → (snapshot_in n none cow).0 ≡ some ver → ⊥
unfolding snapshot_in
snapshot_in-none n cow ver e = ground (arith, e)

snapshot_of-some :
    (o : Option ℕ) (cow : Cow) (ver : List ℕ)
    → (snapshot_of o cow).0 ≡ some ver
    → (n v : ℕ) × (o ≡ some n)
      × (free_slot cow.versions ≡ some v)
      × (snapshot_of o cow ≡ snapshot_in n (some v) cow)
unfolding snapshot_of
snapshot_of-some none cow ver e = absurd (ground (arith, e))
snapshot_of-some (some n) cow ver e = elim (Option-cases (free_slot cow.versions)) [
  | inl f ↦ absurd (snapshot_in-none n cow ver (ap (λ o. (snapshot_in n o cow).0) (sym f) ∙ e))
  | inr (v, f) ↦ (n, v, refl, f, ap (λ o. snapshot_in n o cow) f)
]

snapshot_in-read :
    {cow : Cow} (c : IsValid cow) (n v : ℕ) (size : ℕ)
    → v < max_versions
    → (version cow.versions v).used ≡ false
    → let r = snapshot_in n (some v) cow in
      let name = name_of (suc cow.counter) in
      (r.0 ≡ some name)
      × (read_of (some n) name size r.1.versions ≡ some [])
      × ((m : ℕ) (w : List ℕ)
          → (n ≢ m) ⊎ (same_name w name name_len 0 ≡ false)
          → read_of (some m) w size r.1.versions ≡ read_of (some m) w size cow.versions)
unfolding snapshot_in
snapshot_in-read {cow} c n v size h u =
    let old = version cow.versions v in
    let f : Version → Version = λ e. put_name (next cow.counter) (taken n e) in
    let step = next-suc cow.counter (counter-lt c v h u) in
    let t =
      subst (λ k. matches n (name_of (suc cow.counter)) (put_name k (taken n old)) ≡ true)
        (sym step) (entered-matches (suc cow.counter) n old) in
    (
      ap some (
          ap (λ e. e.ver) (version_self cow.versions v f (inside c n v f h u t))
          ∙ put_name-taken (next cow.counter) n old
          ∙ ap name_of step),
      entered-read c n v f h u t size refl,
      λ m w a. entered-apart c n v f h u t m w size a,
    )

-- When `Harlin_CowSnapshot` succeeds, the file exists, no file had a version of the name that it
-- returns, a read of the new version gives nothing, whatever the file holds, and a read of any
-- other version, be it of another file or under another name, gives what it gave before.
pub snapshot-read_at :
    (path : List ℕ) (nodes : Nodes) (cow : Cow) (ver : List ℕ) (size : ℕ)
    → IsValid cow
    → (snapshot path nodes cow).0 ≡ some ver
    → let cow' = (snapshot path nodes cow).1 in
      (n : ℕ) × (resolve_path nodes path ≡ some n)
      × ((m : ℕ) → find_ver cow.versions m ver ≡ none)
      × (read_at path ver size nodes cow' ≡ some [])
      × ((q w : List ℕ)
          → (resolve_path nodes path ≢ resolve_path nodes q) ⊎ (same_name w ver name_len 0 ≡ false)
          → read_at q w size nodes cow' ≡ read_at q w size nodes cow)
unfolding snapshot
snapshot-read_at path nodes cow ver size c e =
    let (n, v, found, room, same) = snapshot_of-some (resolve_path nodes path) cow ver e in
    let (lt, u) = free_slot-some cow.versions v room in
    let h : v < max_versions = omega (arith, lt, c.size) in
    let (name, empty, others) = snapshot_in-read c n v size h u in
    let cow' = (snapshot path nodes cow).1 in
    let versions = ap (λ r. r.1.versions) same in
    let named : name_of (suc cow.counter) ≡ ver = ground (arith, name, e, ap (λ r. r.0) same) in
    (
      n,
      found,
      λ m. ap (find_ver cow.versions m) (sym named) ∙ find_ver-unused c v m h u,
      read_at-path nodes cow' path ver size n found
          ∙ ap (read_of (some n) ver size) versions
          ∙ ap (λ a. read_of (some n) a size (snapshot_in n (some v) cow).1.versions) (sym named)
          ∙ empty,
      λ q w a. read_at-same nodes cow cow' q w size (λ m g.
          ap (read_of (some m) w size) versions
          ∙ others m w (elim a [
            | inl ne ↦ inl (λ eq. ne (found ∙ ap some eq ∙ sym g))
            | inr ne ↦ inr (ap (λ b. same_name w b name_len 0) named ∙ ne)
          ])),
    )
