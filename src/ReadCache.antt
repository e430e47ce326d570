-- ===== src/ReadCache.antt =====
-- The cache of pages read: src/harlin/fs/page_cache.c, with pages from src/harlin/mem/pmm.c. A
-- table of 64 slots; a full table loses the slot that was used longest ago.
pub mod Victim
pub mod Put
mod Examples
use har_lin_kernel.Base.{
  ℕ, ◌+◌, ◌-◌, ◌%◌, ◌^◌, Bool, true, false, not, ◌&&◌, Option, none, some, List, [], ◌∷◌, ltb, leb,
  ◌==◌, if◌then◌else◌, get_or, set, map, first,
}
use har_lin_kernel.Pmm.{Pmm, alloc, free}

abbrev pub slot_count : ℕ
slot_count = 64

abbrev pub base_va : ℕ
base_va = 0xffff800040000000

-- `(u32)-1`
abbrev pub no_key : ℕ
no_key = 2 ^ 32 - 1

-- `struct rc_slot`
pub record Slot : Type 0 where
  pub key : ℕ
  pub used : Bool
  pub dirty : Bool
  pub phys : ℕ
  pub touch : ℕ

abbrev pub blank : Slot
blank = record { key = no_key; used = false; dirty = false; phys = 0; touch = 0 }

-- The cache, the allocator of pages, and the content of the page at each address.
pub record Cache : Type 0 where
  pub slots : List Slot
  pub tick : ℕ
  pub hits : ℕ
  pub misses : ℕ
  pub va_cursor : ℕ
  pub pages : Pmm
  pub memory : ℕ → List ℕ

abbrev pub slot : List Slot → ℕ → Slot
slot slots i = get_or slots i blank

-- The loop of `pick_victim`, from slot `i` on.
pub pick_loop : List Slot → ℕ → ℕ → ℕ → ℕ
pick_loop [] i best idx = idx
pick_loop (e ∷ rest) i best idx =
    let older = ltb e.touch best in
    let later =
      pick_loop rest (i + 1) (if older then e.touch else best) (if older then i else idx) in
    if not e.used then i else later

-- `pick_victim`
pub pick_victim : List Slot → ℕ
unfolding pick_loop
pick_victim slots = pick_loop slots 0 (2 ^ 64 - 1) 0

-- `Harlin_ReadCacheInit`
unfoldable pub init : Cache → Cache
init s = record s {
  slots = map (λ e. blank) s.slots;
  tick = 0;
  hits = 0;
  misses = 0;
  va_cursor = base_va;
}

-- Whether a slot holds the page of `key`.
abbrev pub holds : ℕ → Slot → Bool
holds key e = e.used && (e.key == key)

pub cached : ℕ → List Slot → Option ℕ
unfolding first
cached key slots = first (holds key) slots 0

get_at : Option ℕ → Cache → Option ℕ × Cache
get_at none s = (none, record s { misses = (s.misses + 1) % 2 ^ 64 })
get_at (some i) s = (
  some (slot s.slots i).phys,
  record s {
    slots = set s.slots i (record (slot s.slots i) { touch = s.tick });
    hits = (s.hits + 1) % 2 ^ 64;
  },
)

-- `Harlin_ReadCacheGet`: the address of the page, or `none` for -1.
pub get : ℕ → Cache → Option ℕ × Cache
unfolding get_at cached
get key s = get_at (cached key s.slots) (record s { tick = (s.tick + 1) % 2 ^ 64 })

-- The page of a slot that is given up.
pub release : Slot → Pmm → Pmm
release e pages = if e.used && not (e.phys == 0) then free e.phys pages else pages

abbrev pub next_va : ℕ → ℕ
next_va va = if leb (base_va + 0x400000) (va + 4096) then base_va else va + 4096

abbrev pub entry : ℕ → ℕ → ℕ → Slot
entry key phys tick = record { key = key; used = true; dirty = false; phys = phys; touch = tick }

-- `Harlin_ReadCachePut`; `bytes` is a page. The result is what it passes to `vmm_map`.
unfoldable pub put : ℕ → List ℕ → Cache → Option (ℕ × ℕ) × Cache
unfolding pick_victim release
put key bytes s =
    let victim = pick_victim s.slots in
    let phys = (alloc s.pages).0 in
    let pages = (alloc s.pages).1 in
    if phys == 0 then (none, record s { pages = pages }) else (
      some (s.va_cursor, phys),
      record s {
        slots = set s.slots victim (entry key phys s.tick);
        va_cursor = next_va s.va_cursor;
        pages = release (slot s.slots victim) pages;
        memory = λ a. if a == phys then bytes else s.memory a;
      },
    )

drop_at : Option ℕ → Cache → Cache
drop_at none s = s
drop_at (some i) s =
    let e = slot s.slots i in
    record s {
      pages = if e.phys == 0 then s.pages else free e.phys s.pages;
      slots = set s.slots i (record e { used = false; key = no_key });
    }

-- `Harlin_ReadCacheDrop`
pub drop : ℕ → Cache → Cache
unfolding drop_at cached
drop key s = drop_at (cached key s.slots) s
