-- ===== src/CowFs/Fork/Copies.antt =====
-- The loop of `Harlin_CowFork` gives the new file the versions of the old one:
-- src/harlin/fs/cow_fs.c.
use har_lin_kernel.Base.{
  ℕ, zero, suc, ◌+◌, ◌<◌, ◌≡◌, ◌≢◌, refl, ap, sym, ◌∙◌, Bool, true, false, Option, none, some, List,
  arith, length, take, drop, Bool-cases, inl, inr, length-set, first-none, first-at, first-nowhere,
  length-take, take-append-drop,
}
use native.Mathlib.Decide.{ℕ_discrete}
use har_lin_kernel.CowFs.{
  Version, blank, version, matches, taken, copied, find_ver, fork_loop, read_slot, read_of,
}
use har_lin_kernel.CowFs.Content.{read_of-found}
use har_lin_kernel.CowFs.Fork.{
  owned, copy_in, Forked, skipped, full, entered, fork_one-Forked, Sound, name_kept, at_copy,
  beside_copy, copy-Sound,
}
use har_lin_kernel.CowFs.Fork.Read.{
  unowned-matches, copied-matches, copied-other, Settled, copy-apart, proceed, loop-proceed,
  loop-end, loop-Settled,
}

-- File `dst` has no version `w` yet, and file `src` has none in the slots before `i`.
record Awaits (versions : List Version) (src dst i : ℕ) (w : List ℕ) : Type 0 where
  none_yet : find_ver versions dst w ≡ none
  passed : (j : ℕ) → j < i → matches src w (version versions j) ≡ false

skip-Awaits :
    {versions : List Version} {src dst i : ℕ} {w : List ℕ}
    → Awaits versions src dst i w
    → matches src w (version versions i) ≡ false
    → Awaits versions src dst (i + 1) w
skip-Awaits {versions} {src} {dst} {i} {w} x t = record {
  none_yet = x.none_yet;
  passed = λ j h. elim (ℕ_discrete j i) [
    | yes q ↦ ap (λ a. matches src w (version versions a)) q ∙ t
    | no q ↦ x.passed j (omega (arith, h, q))
  ];
}

module _ {versions : List Version} (c : Sound versions) (src dst i s : ℕ) (w : List ℕ)
    (t : owned src (version versions i) ≡ true) (h : s < length versions)
    (x : Awaits versions src dst i w) where
  long : s < length (copy_in dst i s versions)
  long = omega (
    arith,
    h,
    length-set versions s (copied dst (version versions i) (taken dst (version versions s))),
  )

  matches_copy :
      matches dst w (version (copy_in dst i s versions) s) ≡ matches src w (version versions i)
  matches_copy =
      ap (matches dst w) (at_copy c src dst i s t h)
      ∙ copied-matches src dst w (version versions i) (version versions s) t
          (name_kept c src dst i s t h)

  none_beside :
      (j : ℕ)
      → j ≢ s
      → j < length versions
      → matches dst w (version (copy_in dst i s versions) j) ≡ false
  unfolding find_ver
  none_beside j q k =
      ap (matches dst w) (beside_copy c src dst i s t h j q)
      ∙ first-none (matches dst w) blank versions j x.none_yet k

  copy_settles :
      matches src w (version versions i) ≡ true
      → ((j : ℕ) → j < s → (version versions j).used ≡ true)
      → Settled (copy_in dst i s versions) dst w s
  unfolding find_ver
  copy_settles m before = record {
    found =
        first-at (matches dst w) blank (copy_in dst i s versions) s long (matches_copy ∙ m)
          (λ j k. none_beside j (λ q. omega (arith, q, k)) (omega (arith, k, h)));
    below = λ j k. elim (ℕ_discrete j s) [
      | yes q ↦
          ap (λ a. (version (copy_in dst i s versions) a).used) q
          ∙ ap (λ e. e.used) (at_copy c src dst i s t h)
      | no q ↦ ap (λ e. e.used) (beside_copy c src dst i s t h j q) ∙ before j (omega (arith, k, q))
    ];
  }

  copy-read :
      (size : ℕ)
      → matches src w (version versions i) ≡ true
      → i < length versions
      → Settled (copy_in dst i s versions) dst w s
      → read_of (some dst) w size (copy_in dst i s versions) ≡ read_of (some src) w size versions
  unfolding find_ver
  copy-read size m lt y =
      let from = version versions i in
      let k = from.payload_size in
      let at = at_copy c src dst i s t h in
      let whole : k ≡ length (take k from.payload) =
        omega (arith, length-take k from.payload, c.stored i) in
      read_of-found (copy_in dst i s versions) dst s w (take k from.payload)
        (drop k (version versions s).payload) size y.found (ap (λ e. e.payload_size) at ∙ whole)
        (ap (λ e. e.payload) at)
      ∙ sym (
          read_of-found versions src i w (take k from.payload) (drop k from.payload) size
            (first-at (matches src w) blank versions i lt m x.passed) whole
            (sym (take-append-drop k from.payload)))

  copy-Awaits :
      src ≢ dst
      → matches src w (version versions i) ≡ false
      → Awaits (copy_in dst i s versions) src dst (i + 1) w
  unfolding find_ver
  copy-Awaits ne m = record {
    none_yet = first-nowhere (matches dst w) blank (copy_in dst i s versions) (λ j k.
        elim (ℕ_discrete j s) [
          | yes q ↦
              ap (λ a. matches dst w (version (copy_in dst i s versions) a)) q ∙ matches_copy ∙ m
          | no q ↦ none_beside j q (
              omega (
                arith,
                k,
                length-set versions s
                    (copied dst (version versions i) (taken dst (version versions s))),
              ))
        ]);
    passed = λ j k. elim (ℕ_discrete j s) [
      | yes q ↦
          ap (λ a. matches src w (version (copy_in dst i s versions) a)) q
          ∙ ap (matches src w) (at_copy c src dst i s t h)
          ∙ copied-other src dst w (version versions i) (version versions s) ne
      | no q ↦ ap (matches src w) (beside_copy c src dst i s t h j q) ∙ (skip-Awaits x m).passed j k
    ];
  }

round-copies :
    (src dst i : ℕ) (w : List ℕ) (size : ℕ)
    → src ≢ dst
    → {versions : List Version} (c : Sound versions) → Awaits versions src dst i w
    → i < length versions
    → (rest : List Version → Bool × List Version)
    → ((vs : List Version)
        → Sound vs
        → length vs ≡ length versions
        → Awaits vs src dst (i + 1) w
        → (rest vs).0 ≡ true
        → read_of (some dst) w size (rest vs).1 ≡ read_of (some src) w size vs)
    → ((vs : List Version) (r : ℕ)
        → Sound vs
        → Settled vs dst w r
        → read_of (some dst) w size (rest vs).1 ≡ read_of (some dst) w size vs)
    → {o : Option (List Version)} → Forked src dst i versions o
    → (proceed rest versions o).0 ≡ true
    → read_of (some dst) w size (proceed rest versions o).1 ≡ read_of (some src) w size versions
round-copies src dst i w size ne {versions} c x lt rest f g (skipped t) b =
    f versions c refl (skip-Awaits x (unowned-matches src w (version versions i) t)) b
round-copies src dst i w size ne c x lt rest f g full b = absurd (ground (arith, b))
round-copies src dst i w size ne {versions} c x lt rest f g (entered s t h u before) b =
    elim (Bool-cases (matches src w (version versions i))) [
      | inl m ↦
          (let y = copy_settles c src dst i s w t h x m before in
            g (copy_in dst i s versions) s (copy-Sound c src dst i s t h) y
            ∙ copy-read c src dst i s w t h x size m lt y)
      | inr m ↦
          f (copy_in dst i s versions) (copy-Sound c src dst i s t h) (length-set versions s _)
            (copy-Awaits c src dst i s w t h x ne m) b
          ∙ copy-apart c src dst i s t h u src w size ne
    ]

loop_end-copies :
    {versions : List Version} {src dst i : ℕ} {w : List ℕ} (size : ℕ)
    → Awaits versions src dst i w
    → length versions ≡ i
    → read_of (some dst) w size versions ≡ read_of (some src) w size versions
unfolding read_of read_slot find_ver
loop_end-copies {versions} {src} {dst} {i} {w} size x e =
    let nothing =
      first-nowhere (matches src w) blank versions (λ j k. x.passed j (omega (arith, e, k))) in
    rw (x.none_yet, nothing) refl

-- When the loop succeeds, the new file, which has no version `w` before, has the content of that of
-- the old file.
loop_copies :
    (src dst : ℕ) (w : List ℕ) (size : ℕ)
    → src ≢ dst
    → (rounds i : ℕ) (versions : List Version) → Sound versions
    → Awaits versions src dst i w
    → length versions ≡ i + rounds
    → (fork_loop src dst rounds i versions).0 ≡ true
    → read_of (some dst) w size (fork_loop src dst rounds i versions).1
      ≡ read_of (some src) w size versions
loop_copies src dst w size ne zero i versions c x e b =
    ap (read_of (some dst) w size) (loop-end src dst i versions)
    ∙ loop_end-copies size x (omega (arith, e))
loop_copies src dst w size ne (suc rounds) i versions c x e b =
    let step = loop-proceed src dst rounds i versions in
    ap (λ r. read_of (some dst) w size r.1) step
    ∙ round-copies src dst i w size ne c x (omega (arith, e)) (fork_loop src dst rounds (i + 1))
        (λ vs d l y k. loop_copies src dst w size ne rounds (i + 1) vs d y (omega (arith, l, e)) k)
        (λ vs r d y. loop-Settled src dst dst r w size rounds (i + 1) vs d y)
        (fork_one-Forked src dst i versions) (ap (λ r. r.0) (sym step) ∙ b)

pub fork_loop-copies :
    (src dst : ℕ) (w : List ℕ) (size rounds : ℕ) (versions : List Version)
    → src ≢ dst
    → Sound versions
    → find_ver versions dst w ≡ none
    → length versions ≡ rounds
    → (fork_loop src dst rounds 0 versions).0 ≡ true
    → read_of (some dst) w size (fork_loop src dst rounds 0 versions).1
      ≡ read_of (some src) w size versions
fork_loop-copies src dst w size rounds versions ne c e l b =
    loop_copies src dst w size ne rounds 0 versions c
      (record { none_yet = e; passed = λ j k. absurd (omega (arith, k)) }) (omega (arith, l)) b
