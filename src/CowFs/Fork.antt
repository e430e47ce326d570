-- ===== src/CowFs/Fork.antt =====
-- The loop of `Harlin_CowFork`, which copies the versions of a file: src/harlin/fs/cow_fs.c.
pub mod Read
pub mod Copies
use har_lin_kernel.Base.{
  ℕ, zero, suc, ◌+◌, ◌≤◌, ◌<◌, ◌≡◌, ◌≢◌, refl, ap, sym, ◌∙◌, Bool, true, false, not, ◌&&◌, Option,
  none, some, List, arith, ◌==◌, if◌then◌else◌, ltb, length, take, drop, ◌++◌, Bool-cases,
  Option-cases, inl, inr, ◌⊎◌, length-set, first-some, length-append, length-take, length-drop, min,
}
use mathlib.Core.Path.{subst}
use native.Mathlib.Decide.{ℕ_discrete}
use har_lin_kernel.MemFs.Calls.{is_node}
use har_lin_kernel.CowFs.{
  Version, blank, version, change, same_name, matches, name_len, taken, copied, free_slot, copy_to,
  fork_one, fork_loop, read_of,
}
use har_lin_kernel.CowFs.Names.{version_self, version_other}
use har_lin_kernel.CowFs.Content.{read_of-apart}

-- The test of the loop.
abbrev pub owned : ℕ → Version → Bool
owned src e = e.used && is_node src e.file_node

-- A copy of version `i` in slot `s`.
abbrev pub copy_in : ℕ → ℕ → ℕ → List Version → List Version
copy_in dst i s versions = change s (λ e. copied dst (version versions i) (taken dst e)) versions

-- What one round does.
pub data Forked (src dst i : ℕ) (versions : List Version) : Option (List Version) → Type 0 where
  skipped : owned src (version versions i) ≡ false → Forked src dst i versions (some versions)
  full : Forked src dst i versions none
  entered :
      (s : ℕ)
      → owned src (version versions i) ≡ true
      → s < length versions
      → (version versions s).used ≡ false
      → ((j : ℕ) → j < s → (version versions j).used ≡ true)
      → Forked src dst i versions (some (copy_in dst i s versions))

fork_one-copy :
    (src dst i : ℕ) (versions : List Version)
    → owned src (version versions i) ≡ true
    → Forked src dst i versions (copy_to i dst (free_slot versions) versions)
unfolding copy_to free_slot
fork_one-copy src dst i versions t = elim (Option-cases (free_slot versions)) [
  | inl e ↦ subst (λ o. Forked src dst i versions (copy_to i dst o versions)) (sym e) full
  | inr (s, e) ↦
      (let (lt, u, before) = first-some (λ x. not x.used) blank versions s e in
        subst (λ o. Forked src dst i versions (copy_to i dst o versions)) (sym e)
          (entered s t lt (ground (arith, u)) (λ j h. let w = before j h in ground (arith, w))))
]

pub fork_one-Forked :
    (src dst i : ℕ) (versions : List Version)
    → Forked src dst i versions (fork_one src dst i versions)
unfolding fork_one
fork_one-Forked src dst i versions = elim (Bool-cases (owned src (version versions i))) [
  | inl t ↦ rw t (fork_one-copy src dst i versions t)
  | inr t ↦ rw t (skipped t)
]

-- Payloads that fit, and names within their arrays.
pub record Sound (versions : List Version) : Type 0 where
  pub stored : (j : ℕ) → (version versions j).payload_size ≤ length (version versions j).payload
  pub sized :
      (j : ℕ)
      → (version versions j).used ≡ true
      → take name_len (version versions j).ver ≡ (version versions j).ver

pub owned-used : (src : ℕ) (e : Version) → owned src e ≡ true → e.used ≡ true
owned-used src e t = ground (arith, t)

module _ {versions : List Version} (c : Sound versions) (src dst i s : ℕ)
    (t : owned src (version versions i) ≡ true) (h : s < length versions) where
  pub name_kept : take name_len (version versions i).ver ≡ (version versions i).ver
  name_kept = c.sized i (owned-used src (version versions i) t)

  pub at_copy :
      version (copy_in dst i s versions) s
      ≡ copied dst (version versions i) (taken dst (version versions s))
  at_copy = version_self versions s (λ e. copied dst (version versions i) (taken dst e)) h

  pub beside_copy : (j : ℕ) → j ≢ s → version (copy_in dst i s versions) j ≡ version versions j
  beside_copy j q =
      version_other versions s j (λ e. copied dst (version versions i) (taken dst e)) q

  copy_fits :
      (version versions i).payload_size
      ≤ length (copied dst (version versions i) (taken dst (version versions s))).payload
  copy_fits =
      let k = (version versions i).payload_size in
      let from = (version versions i).payload in
      let old = (version versions s).payload in
      omega (arith, length-append (take k from) (drop k old), length-take k from, c.stored i)

  pub copy-Sound : Sound (copy_in dst i s versions)
  copy-Sound = record {
    stored = λ j. elim (ℕ_discrete j s) [
      | yes q ↦
          subst
            (λ a.
              (version (copy_in dst i s versions) a).payload_size
              ≤ length (version (copy_in dst i s versions) a).payload)
            (sym q) (subst (λ e. e.payload_size ≤ length e.payload) (sym at_copy) copy_fits)
      | no q ↦ subst (λ e. e.payload_size ≤ length e.payload) (sym (beside_copy j q)) (c.stored j)
    ];
    sized = λ j u. elim (ℕ_discrete j s) [
      | yes q ↦
          subst
            (λ a.
              take name_len (version (copy_in dst i s versions) a).ver
              ≡ (version (copy_in dst i s versions) a).ver)
            (sym q)
            (subst (λ e. take name_len e.ver ≡ e.ver) (sym at_copy) (ap (take name_len) name_kept))
      | no q ↦
          subst (λ e. take name_len e.ver ≡ e.ver) (sym (beside_copy j q))
            (c.sized j (ap (λ e. e.used) (sym (beside_copy j q)) ∙ u))
    ];
  }
