-- ===== src/CowFs/Fork/Read.antt =====
-- What is read of the versions of both files after the loop of `Harlin_CowFork`:
-- src/harlin/fs/cow_fs.c.
use har_lin_kernel.Base.{
  ℕ, zero, suc, ◌+◌, ◌≤◌, ◌<◌, ◌≡◌, ◌≢◌, refl, ap, ◌∙◌, Bool, true, false, Option, none, some, List,
  arith, length, take, Option-cases, inl, inr, length-set, first-some, first-at,
}
use har_lin_kernel.CowFs.{
  Version, blank, version, matches, name_len, taken, copied, find_ver, fork_one, fork_loop,
  read_slot, read_of,
}
use har_lin_kernel.CowFs.Content.{read_of-apart}
use har_lin_kernel.CowFs.Fork.{
  owned, copy_in, Forked, skipped, full, entered, fork_one-Forked, Sound, beside_copy, copy-Sound,
}

pub unused-matches : (n : ℕ) (w : List ℕ) (e : Version) → e.used ≡ false → matches n w e ≡ false
unfolding matches
unused-matches n w e u = rw u refl

pub unowned-matches : (n : ℕ) (w : List ℕ) (e : Version) → owned n e ≡ false → matches n w e ≡ false
unfolding matches
unowned-matches n w e u = ground (arith, u)

-- A copy has the name of its original.
pub copied-matches :
    (src dst : ℕ) (w : List ℕ) (from old : Version)
    → owned src from ≡ true
    → take name_len from.ver ≡ from.ver
    → matches dst w (copied dst from (taken dst old)) ≡ matches src w from
unfolding matches
copied-matches src dst w from old t e = rw e ground (arith, t)

pub copied-other :
    (m dst : ℕ) (w : List ℕ) (from old : Version)
    → m ≢ dst
    → matches m w (copied dst from (taken dst old)) ≡ false
unfolding matches
copied-other m dst w from old ne = ground (arith, ne)

-- A file that has a version `s` of a name, below which all slots are taken.
pub record Settled (versions : List Version) (n : ℕ) (w : List ℕ) (s : ℕ) : Type 0 where
  pub found : find_ver versions n w ≡ some s
  pub below : (j : ℕ) → j ≤ s → (version versions j).used ≡ true

module _ {versions : List Version} (c : Sound versions) (src dst i s : ℕ)
    (t : owned src (version versions i) ≡ true) (h : s < length versions)
    (u : (version versions s).used ≡ false) where
  pub copy-apart :
      (m : ℕ) (w : List ℕ) (size : ℕ)
      → m ≢ dst
      → read_of (some m) w size (copy_in dst i s versions) ≡ read_of (some m) w size versions
  copy-apart m w size ne =
      read_of-apart versions s (λ e. copied dst (version versions i) (taken dst e)) m w size h
        (unused-matches m w (version versions s) u)
        (copied-other m dst w (version versions i) (version versions s) ne)

  Settled-below : {n : ℕ} {w : List ℕ} {r : ℕ} → Settled versions n w r → r < s
  Settled-below {r = r} x =
      let above : (s ≤ r → ⊥) = λ q. ground (arith, u, x.below s q) in omega (arith, above)

  copy-Settled :
      {n : ℕ} {w : List ℕ} {r : ℕ}
      → Settled versions n w r
      → Settled (copy_in dst i s versions) n w r
        × ((size : ℕ)
            → read_of (some n) w size (copy_in dst i s versions) ≡ read_of (some n) w size versions)
  unfolding find_ver read_of read_slot
  copy-Settled {n} {w} {r} x =
      let p = matches n w in
      let lt = Settled-below x in
      let same : (j : ℕ) → j ≤ r → version (copy_in dst i s versions) j ≡ version versions j =
        λ j k. beside_copy c src dst i s t h j (λ q. omega (arith, q, k, lt)) in
      let (_, y, before) = first-some p blank versions r x.found in
      let found =
        first-at p blank (copy_in dst i s versions) r
          (omega (
            arith,
            lt,
            h,
            length-set versions s
                (copied dst (version versions i) (taken dst (version versions s))),
          ))
          (ap p (same r (omega arith)) ∙ y)
          (λ j k. ap p (same j (omega (arith, k))) ∙ before j k) in
      (
        record { found = found; below = λ j k. ap (λ e. e.used) (same j k) ∙ x.below j k },
        λ size. rw (found, x.found, same r (omega arith)) refl,
      )

-- What follows one round, given what the rounds after it do.
abbrev pub proceed :
    (List Version → Bool × List Version)
    → List Version
    → Option (List Version)
    → Bool × List Version
proceed rest versions none = (false, versions)
proceed rest versions (some versions') = rest versions'

pub loop-end :
    (src dst i : ℕ) (versions : List Version) → (fork_loop src dst 0 i versions).1 ≡ versions
unfolding fork_loop
loop-end src dst i versions = refl

pub loop-proceed :
    (src dst rounds i : ℕ) (versions : List Version)
    → fork_loop src dst (suc rounds) i versions
      ≡ proceed (fork_loop src dst rounds (i + 1)) versions (fork_one src dst i versions)
unfolding fork_loop
loop-proceed src dst rounds i versions = elim (Option-cases (fork_one src dst i versions)) [
  | inl e ↦ rw (fork_loop, e) refl
  | inr (vs, e) ↦ rw (fork_loop, e) refl
]

round-apart :
    (src dst m i : ℕ) (w : List ℕ) (size : ℕ)
    → m ≢ dst
    → {versions : List Version} (c : Sound versions) (rest : List Version → Bool × List Version)
    → ((vs : List Version)
        → Sound vs
        → read_of (some m) w size (rest vs).1 ≡ read_of (some m) w size vs)
    → {o : Option (List Version)} → Forked src dst i versions o
    → read_of (some m) w size (proceed rest versions o).1 ≡ read_of (some m) w size versions
round-apart src dst m i w size ne {versions} c rest f (skipped t) = f versions c
round-apart src dst m i w size ne c rest f full = refl
round-apart src dst m i w size ne {versions} c rest f (entered s t h u before) =
    f (copy_in dst i s versions) (copy-Sound c src dst i s t h)
    ∙ copy-apart c src dst i s t h u m w size ne

-- The loop does not change what is read of other files,
pub loop-apart :
    (src dst m : ℕ) (w : List ℕ) (size : ℕ)
    → m ≢ dst
    → (rounds i : ℕ) (versions : List Version) → Sound versions
    → read_of (some m) w size (fork_loop src dst rounds i versions).1
      ≡ read_of (some m) w size versions
loop-apart src dst m w size ne zero i versions c =
    ap (read_of (some m) w size) (loop-end src dst i versions)
loop-apart src dst m w size ne (suc rounds) i versions c =
    ap (λ r. read_of (some m) w size r.1) (loop-proceed src dst rounds i versions)
    ∙ round-apart src dst m i w size ne c (fork_loop src dst rounds (i + 1))
        (loop-apart src dst m w size ne rounds (i + 1)) (fork_one-Forked src dst i versions)

round-Settled :
    (src dst n i r : ℕ) (w : List ℕ) (size : ℕ) {versions : List Version} (c : Sound versions)
    → Settled versions n w r
    → (rest : List Version → Bool × List Version)
    → ((vs : List Version)
        → Sound vs
        → Settled vs n w r
        → read_of (some n) w size (rest vs).1 ≡ read_of (some n) w size vs)
    → {o : Option (List Version)} → Forked src dst i versions o
    → read_of (some n) w size (proceed rest versions o).1 ≡ read_of (some n) w size versions
round-Settled src dst n i r w size {versions} c x rest f (skipped t) = f versions c x
round-Settled src dst n i r w size c x rest f full = refl
round-Settled src dst n i r w size {versions} c x rest f (entered s t h u before) =
    let (y, same) = copy-Settled c src dst i s t h u x in
    f (copy_in dst i s versions) (copy-Sound c src dst i s t h) y ∙ same size

-- nor of a version that has its place,
pub loop-Settled :
    (src dst n r : ℕ) (w : List ℕ) (size : ℕ) (rounds i : ℕ) (versions : List Version)
    → Sound versions
    → Settled versions n w r
    → read_of (some n) w size (fork_loop src dst rounds i versions).1
      ≡ read_of (some n) w size versions
loop-Settled src dst n r w size zero i versions c x =
    ap (read_of (some n) w size) (loop-end src dst i versions)
loop-Settled src dst n r w size (suc rounds) i versions c x =
    ap (λ r. read_of (some n) w size r.1) (loop-proceed src dst rounds i versions)
    ∙ round-Settled src dst n i r w size c x (fork_loop src dst rounds (i + 1))
        (loop-Settled src dst n r w size rounds (i + 1)) (fork_one-Forked src dst i versions)
