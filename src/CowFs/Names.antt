-- ===== src/CowFs/Names.antt =====
-- Names of versions, and the search for a version by its name: src/harlin/fs/cow_fs.c.
use har_lin_kernel.Base.{
  ℕ, zero, suc, ◌+◌, ◌≡◌, ◌≢◌, refl, sym, true, false, Option, none, some, List, arith, length,
  Bool-cases, inl, inr, length-set, get_or-set_self, get_or-set_ne, ◌<◌, ◌⊎◌, first-some,
  first-same,
}
use native.Mathlib.Decide.{ℕ_discrete}
use har_lin_kernel.MemFs.Calls.{is_node}
use har_lin_kernel.CowFs.{Version, blank, version, change, same_name, matches, find_ver, name_len}

-- Two names that are the same as a third are the same.
pub same_name_trans :
    (a b c : List ℕ) (rounds j : ℕ)
    → same_name a b rounds j ≡ true
    → same_name a c rounds j ≡ true
    → same_name c b rounds j ≡ true
unfolding same_name
same_name_trans a b c zero j e f = ground (arith, e, f)
same_name_trans a b c (suc rounds) j e f =
    let rest = same_name_trans a b c rounds (j + 1) in ground (arith, e, f, rest)

-- Another name than the one that a version was found by does not find that version.
pub found_apart :
    (n m : ℕ) (ver w : List ℕ) (e : Version)
    → matches n ver e ≡ true
    → (n ≢ m) ⊎ (same_name w ver name_len 0 ≡ false)
    → matches m w e ≡ false
unfolding matches
found_apart n m ver w e t (inl ne) = elim (Bool-cases (is_node m e.file_node)) [
  | inl u ↦ absurd (other e.file_node (ground (arith, t)) u)
  | inr u ↦ ground (arith, u)
]
  where
    other : (o : Option ℕ) → is_node n o ≡ true → is_node m o ≡ true → ⊥
    other none p q = ground (arith, p)
    other (some c) p q = ne (ground (arith, p, q))
found_apart n m ver w e t (inr ne) =
    let trans = same_name_trans e.ver ver w name_len 0 (ground (arith, t)) in
    ground (arith, ne, trans)

pub matches_lem :
    (n : ℕ) (ver : List ℕ) (e : Version)
    → e.used ≡ true
    → e.file_node ≡ some n
    → same_name e.ver ver name_len 0 ≡ true
    → matches n ver e ≡ true
unfolding matches
matches_lem n ver e u f s = rw (u, f, s) ground arith

pub same_name_refl : (a : List ℕ) (rounds j : ℕ) → same_name a a rounds j ≡ true
unfolding same_name
same_name_refl a zero j = ground arith
same_name_refl a (suc rounds) j = let rest = same_name_refl a rounds (j + 1) in ground (arith, rest)

pub version_self :
    (versions : List Version) (i : ℕ) (f : Version → Version)
    → i < length versions
    → version (change i f versions) i ≡ f (version versions i)
version_self versions i f h = get_or-set_self versions i (f (version versions i)) blank h

pub version_other :
    (versions : List Version) (i j : ℕ) (f : Version → Version)
    → j ≢ i
    → version (change i f versions) j ≡ version versions j
version_other versions i j f h =
    get_or-set_ne versions i j (f (version versions i)) blank (λ e. h (sym e))

pub find_ver-some :
    (versions : List Version) (n : ℕ) (ver : List ℕ) (s : ℕ)
    → find_ver versions n ver ≡ some s
    → (s < length versions) × (matches n ver (version versions s) ≡ true)
unfolding find_ver
find_ver-some versions n ver s e =
    let (lt, t, _) = first-some (matches n ver) blank versions s e in (lt, t)

-- A change that keeps what the search looks at.
pub find_ver-change :
    (versions : List Version) (i : ℕ) (f : Version → Version) (n : ℕ) (ver : List ℕ)
    → i < length versions
    → matches n ver (f (version versions i)) ≡ matches n ver (version versions i)
    → find_ver (change i f versions) n ver ≡ find_ver versions n ver
unfolding find_ver
find_ver-change versions i f n ver h e =
    first-same (matches n ver) blank (change i f versions) versions 0 (length-set versions i _)
      (λ j. elim (ℕ_discrete j i) [
        | yes q ↦ rw (q, version_self versions i f h) e
        | no q ↦ rw (version_other versions i j f q) refl
      ])
