-- ===== src/ReadCache/Put.antt =====
-- What `Harlin_ReadCacheGet` finds after `Harlin_ReadCachePut`: src/harlin/fs/page_cache.c.
use har_lin_kernel.Base.{
  ℕ, ◌^◌, ◌<◌, ◌≡◌, ◌≢◌, refl, ap, sym, ◌∙◌, true, false, inl, inr, none, some, List, ◌==◌, length,
  set, Option-cases, arith, length-set, get_or-set_self, get_or-set_ne, first-some, first-none,
  first-at, first-same,
}
use native.Mathlib.Decide.{ℕ_discrete}
use har_lin_kernel.Pmm.{alloc}
use har_lin_kernel.ReadCache.{
  slot_count, Slot, Cache, blank, slot, holds, cached, entry, pick_victim, get_at, get, put,
}
use har_lin_kernel.ReadCache.Victim.{pick_victim-Oldest}

-- A page of `key` in slot `v`, which no slot before it holds.
module _ (slots : List Slot) (v key phys tick : ℕ) (h : v < length slots) where
  at_v : slot (set slots v (entry key phys tick)) v ≡ entry key phys tick
  at_v = get_or-set_self slots v (entry key phys tick) blank h

  beside_v : (j : ℕ) → j ≢ v → slot (set slots v (entry key phys tick)) j ≡ slot slots j
  beside_v j q = get_or-set_ne slots v j (entry key phys tick) blank (λ e. q (sym e))

  cached-entry :
      ((j : ℕ) → j < v → holds key (slot slots j) ≡ false)
      → cached key (set slots v (entry key phys tick)) ≡ some v
  unfolding cached
  cached-entry f =
      first-at (holds key) blank (set slots v (entry key phys tick)) v
        (omega (arith, h, length-set slots v (entry key phys tick)))
        (ap (holds key) at_v ∙ ground arith)
        (λ j k. ap (holds key) (beside_v j (λ q. omega (arith, q, k))) ∙ f j k)

  -- Another key, which slot `v` did not hold.
  cached-other :
      (other : ℕ)
      → other ≢ key
      → holds other (slot slots v) ≡ false
      → cached other (set slots v (entry key phys tick)) ≡ cached other slots
  unfolding cached
  cached-other other ne f =
      first-same (holds other) blank (set slots v (entry key phys tick)) slots 0
        (length-set slots v (entry key phys tick))
        (λ j. elim (ℕ_discrete j v) [
          | yes q ↦
              ap (λ a. holds other (slot (set slots v (entry key phys tick)) a)) q
              ∙ ap (holds other) at_v
              ∙ ground (arith, f, ne, ap (λ a. holds other (slot slots a)) q)
          | no q ↦ ap (holds other) (beside_v j q)
        ])

get-hit :
    (key i : ℕ) (s : Cache)
    → cached key s.slots ≡ some i
    → (get key s).0 ≡ some (slot s.slots i).phys
unfolding get get_at
get-hit key i s e = rw e refl

get-miss : (key : ℕ) (s : Cache) → cached key s.slots ≡ none → (get key s).0 ≡ none
unfolding get get_at
get-miss key s e = rw e refl

-- What a call that gets a page changes.
put-slots :
    (key : ℕ) (bytes : List ℕ) (s : Cache)
    → (alloc s.pages).0 ≢ 0
    → let s' = (put key bytes s).1 in
      (s'.slots ≡ set s.slots (pick_victim s.slots) (entry key (alloc s.pages).0 s.tick))
      × (s'.memory (alloc s.pages).0 ≡ bytes)
unfolding put
put-slots key bytes s ne =
    let got : ((alloc s.pages).0 == 0) ≡ false = ground (arith, ne) in
    let itself : ((alloc s.pages).0 == (alloc s.pages).0) ≡ true = ground arith in
    (rw got refl, rw (got, itself) refl)

get-other :
    (slots : List Slot) (v key phys tick other : ℕ) (s s' : Cache)
    → v < length slots
    → s.slots ≡ slots
    → s'.slots ≡ set slots v (entry key phys tick)
    → other ≢ key
    → holds other (slot slots v) ≡ false
    → (get other s').0 ≡ (get other s).0
unfolding cached
get-other slots v key phys tick other s s' h e e' ne f =
    let same = ap (cached other) e' ∙ cached-other slots v key phys tick h other ne f in
    elim (Option-cases (cached other slots)) [
      | inl g ↦ get-miss other s' (same ∙ g) ∙ sym (get-miss other s (ap (cached other) e ∙ g))
      | inr (i, g) ↦
          (let (_, t, _) = first-some (holds other) blank slots i g in
            let apart : i ≢ v = λ q. ground (arith, t, f, ap (λ a. holds other (slot slots a)) q) in
            get-hit other i s' (same ∙ g)
            ∙ ap (λ xs. some (slot xs i).phys) e'
            ∙ ap (λ x. some x.phys) (beside_v slots v key phys tick h i apart)
            ∙ ap (λ xs. some (slot xs i).phys) (sym e)
            ∙ sym (get-hit other i s (ap (cached other) e ∙ g)))
    ]

victim_inside :
    (s : Cache)
    → length s.slots ≡ slot_count
    → (slot s.slots 0).touch < 2 ^ 64
    → pick_victim s.slots < length s.slots
victim_inside s h small = (pick_victim-Oldest s.slots (omega (arith, h)) small).inside

-- After `Harlin_ReadCachePut` of a page whose key is not cached, where the allocator has a page,
-- `Harlin_ReadCacheGet` returns that page, which holds the bytes; for any other key, but that of
-- the slot given up, it returns what it returned before.
pub put-get :
    (key : ℕ) (bytes : List ℕ) (s : Cache)
    → length s.slots ≡ slot_count
    → (slot s.slots 0).touch < 2 ^ 64
    → cached key s.slots ≡ none
    → (alloc s.pages).0 ≢ 0
    → let s' = (put key bytes s).1 in
      ((get key s').0 ≡ some (alloc s.pages).0)
      × (s'.memory (alloc s.pages).0 ≡ bytes)
      × ((other : ℕ)
          → other ≢ key
          → holds other (slot s.slots (pick_victim s.slots)) ≡ false
          → (get other s').0 ≡ (get other s).0)
unfolding cached
put-get key bytes s h small e ne =
    let s' = (put key bytes s).1 in
    let v = pick_victim s.slots in
    let phys = (alloc s.pages).0 in
    let inside = victim_inside s h small in
    let (slots, memory) = put-slots key bytes s ne in
    let found =
      cached-entry s.slots v key phys s.tick inside
        (λ j k. first-none (holds key) blank s.slots j e (omega (arith, k, inside))) in
    (
      get-hit key v s' (ap (cached key) slots ∙ found)
          ∙ ap (λ xs. some (slot xs v).phys) slots
          ∙ ap (λ x. some x.phys) (at_v s.slots v key phys s.tick inside),
      memory,
      λ other apart f. get-other s.slots v key phys s.tick other s s' inside refl slots apart f,
    )

-- `Harlin_ReadCachePut` of a page whose key is cached in a slot before the one given up does not
-- replace it: `Harlin_ReadCacheGet` still returns the old page.
pub put_stale :
    (key : ℕ) (bytes : List ℕ) (s : Cache) (i : ℕ)
    → length s.slots ≡ slot_count
    → (slot s.slots 0).touch < 2 ^ 64
    → cached key s.slots ≡ some i
    → i < pick_victim s.slots
    → (alloc s.pages).0 ≢ 0
    → ((get key (put key bytes s).1).0 ≡ some (slot s.slots i).phys)
      × ((get key (put key bytes s).1).0 ≡ (get key s).0)
unfolding cached
put_stale key bytes s i h small e lt ne =
    let v = pick_victim s.slots in
    let phys = (alloc s.pages).0 in
    let inside = victim_inside s h small in
    let (slots, _) = put-slots key bytes s ne in
    let (within, t, before) = first-some (holds key) blank s.slots i e in
    let beside = beside_v s.slots v key phys s.tick inside in
    let slots' = set s.slots v (entry key phys s.tick) in
    let found : cached key slots' ≡ some i =
      first-at (holds key) blank slots' i
        (omega (arith, within, length-set s.slots v (entry key phys s.tick)))
        (ap (holds key) (beside i (λ q. omega (arith, q, lt))) ∙ t)
        (λ j k. ap (holds key) (beside j (λ q. omega (arith, q, k, lt))) ∙ before j k) in
    let old =
      get-hit key i (put key bytes s).1 (ap (cached key) slots ∙ found)
      ∙ ap (λ xs. some (slot xs i).phys) slots
      ∙ ap (λ x. some x.phys) (beside i (λ q. omega (arith, q, lt))) in
    (old, old ∙ sym (get-hit key i s e))
