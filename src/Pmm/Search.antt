-- ===== src/Pmm/Search.antt =====
-- The search of `pmm_alloc_contiguous` and `pmm_alloc_low` for a run of free pages: what it finds
-- is such a run, and it overlooks none.
use har_lin_kernel.Base.{
  ℕ, zero, suc, ◌+◌, ◌*◌, ◌%◌, ◌^◌, ◌≤◌, ◌<◌, ◌≡◌, Bool, true, false, List, arith, ltb, ◌==◌,
  get_or, refl, inl, inr, some, none, Bool-cases, Option,
}
use native.Mathlib.Decide.{ℕ_discrete, dec_lt}
use har_lin_kernel.Pmm.{is_used, run_free, run_in_byte, find_run}
use har_lin_kernel.Pmm.Single.{full-FirstFree}

module _ (bitmap : List ℕ) (may_use : ℕ → Bool) where
  -- The `n` pages from `base` on are free and may be used.
  abbrev pub RunFree : ℕ → ℕ → Type 0
  RunFree n base =
      (k : ℕ) → base ≤ k → k < base + n → (is_used bitmap k ≡ false) × (may_use k ≡ true)

  run_free-RunFree :
      (n base : ℕ) → base + n < 2 ^ 32 → run_free bitmap may_use n base ≡ true → RunFree n base
  unfolding run_free
  run_free-RunFree zero base h e k p q = absurd (omega arith)
  run_free-RunFree (suc n) base h e k p q =
      let parts : (is_used bitmap base ≡ false)
          × (may_use base ≡ true)
          × (run_free bitmap may_use n ((base + 1) % 2 ^ 32) ≡ true) =
        ground arith in
      elim (ℕ_discrete k base) [
        | yes same ↦ rw same (parts.0, parts.1)
        | no other ↦
            run_free-RunFree n ((base + 1) % 2 ^ 32) (omega arith) parts.2 k (omega arith)
              (omega arith)
      ]

  RunFree-run_free :
      (n base : ℕ) → base + n < 2 ^ 32 → RunFree n base → run_free bitmap may_use n base ≡ true
  unfolding run_free
  RunFree-run_free zero base h r = refl
  RunFree-run_free (suc n) base h r = ground (
    arith,
    r base,
    RunFree-run_free n ((base + 1) % 2 ^ 32) (omega arith)
        (λ k p q. r k (omega arith) (omega arith)),
  )

  module _ (total count cur : ℕ) where
    -- `out` is a run from `lo` on and below `hi`; `none` says that there is none.
    pub data FoundRun (lo hi : ℕ) (out : Option ℕ) : Type 0 where
      found :
          (base : ℕ)
          → out ≡ some base
          → base + count ≤ total
          → RunFree count base
          → FoundRun lo hi out
      missing :
          out ≡ none
          → ((base : ℕ)
              → lo ≤ base
              → base < hi
              → cur ≤ base
              → base + count ≤ total
              → ¬ RunFree count base)
          → FoundRun lo hi out

    extend-FoundRun :
        (lo mid hi : ℕ) (out : Option ℕ)
        → ((base : ℕ)
            → lo ≤ base
            → base < mid
            → cur ≤ base
            → base + count ≤ total
            → ¬ RunFree count base)
        → FoundRun mid hi out
        → FoundRun lo hi out
    extend-FoundRun lo mid hi out before (found base e l r) = found base e l r
    extend-FoundRun lo mid hi out before (missing e after) = missing e (λ base p q c l.
        elim (dec_lt base mid) [
          | yes s ↦ before base p s c l
          | no s ↦ after base (omega arith) q c l
        ])

    join-FoundRun :
        (lo mid hi : ℕ) (out out' : Option ℕ)
        → FoundRun lo mid out
        → FoundRun mid hi out'
        → FoundRun lo hi (elim out [ some idx ↦ some idx | none ↦ out' ])
    join-FoundRun lo mid hi out out' (found base s l r) next = rw s (found base refl l r)
    join-FoundRun lo mid hi out out' (missing s before) next =
        rw s (extend-FoundRun lo mid hi out' before next)

    -- One place where no run can start.
    not_here :
        (lo mid : ℕ)
        → mid ≡ lo + 1
        → (cur ≤ lo → lo + count ≤ total → ¬ RunFree count lo)
        → (base : ℕ) → lo ≤ base
        → base < mid
        → cur ≤ base
        → base + count ≤ total
        → ¬ RunFree count base
    not_here lo mid e h base p q = let same : base ≡ lo = omega arith in rw same h

    module _ (no_wrap : total + count < 2 ^ 32) (whole : ℕ) (fits : whole * 8 ≤ total) where
      run_in_byte-FoundRun :
          (i rounds j lo hi : ℕ)
          → i < whole
          → j + rounds ≡ 8
          → lo ≡ i * 8 + j
          → hi ≡ suc i * 8
          → FoundRun lo hi (run_in_byte bitmap may_use total count cur i rounds j)
      unfolding run_in_byte
      run_in_byte-FoundRun i zero j lo hi w e a b = missing refl (λ base p q. absurd (omega arith))
      run_in_byte-FoundRun i (suc rounds) j lo hi w e a b =
          let later =
            run_in_byte-FoundRun i rounds (j + 1) (lo + 1) hi w (omega arith) (omega arith) b in
          let plain : (lo + count) % 2 ^ 32 ≡ lo + count = omega arith in
          elim (Bool-cases (ltb lo cur)) [
            | inl low ↦
                rw (← a, low)
                  (extend-FoundRun lo (lo + 1) hi _
                    (not_here lo (lo + 1) refl (λ c l r. ground arith)) later)
            | inr high ↦ elim (Bool-cases (ltb total (lo + count))) [
              | inl long ↦
                  rw (← a, high, plain, long)
                    (extend-FoundRun lo (lo + 1) hi _
                      (not_here lo (lo + 1) refl (λ c l r. ground arith)) later)
              | inr short ↦ elim (Bool-cases (run_free bitmap may_use count lo)) [
                | inl all ↦
                    rw (← a, high, plain, short, all)
                      (found lo refl (ground arith) (run_free-RunFree count lo (omega arith) all))
                | inr some_used ↦
                    rw (← a, high, plain, short, some_used)
                      (extend-FoundRun lo (lo + 1) hi _
                        (not_here lo (lo + 1) refl
                          (λ c l r. ground (arith, RunFree-run_free count lo (omega arith) r)))
                        later)
              ]
            ]
          ]

      -- No run starts in a byte that is full.
      full_byte :
          (i : ℕ)
          → 0 < count
          → get_or bitmap i 0 ≡ 0xff
          → (base : ℕ) → i * 8 ≤ base
          → base < suc i * 8
          → ¬ RunFree count base
      full_byte i some_count full base p q r =
          ground (arith, full-FirstFree bitmap i full base p q, r base)

      pub find_run-FoundRun :
          (rounds i lo hi : ℕ)
          → 0 < count
          → lo ≡ i * 8
          → hi ≡ (i + rounds) * 8
          → i + rounds ≤ whole
          → FoundRun lo hi (find_run bitmap may_use total count cur rounds i)
      unfolding find_run
      find_run-FoundRun zero i lo hi c a b w = missing refl (λ base p q. absurd (omega arith))
      find_run-FoundRun (suc rounds) i lo hi c a b w =
          let later =
            find_run-FoundRun rounds (i + 1) (suc i * 8) hi c (omega arith) (omega arith)
              (omega arith) in
          let here =
            run_in_byte-FoundRun i 8 0 lo (suc i * 8) (omega arith) refl (omega arith) refl in
          elim (Bool-cases (get_or bitmap i 0 == 0xff)) [
            | inl full ↦ rw full (
                extend-FoundRun lo (suc i * 8) hi _
                  (λ base p q s l. full_byte i c (ground arith) base (omega arith) (omega arith))
                  later)
            | inr part ↦ rw part (join-FoundRun lo (suc i * 8) hi _ _ here later)
          ]
