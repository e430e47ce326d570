-- ===== src/ReadCache/Examples.antt =====
-- Runs of the calls of src/harlin/fs/page_cache.c, and instances of the theorems.
use har_lin_kernel.Base.{ℕ, ◌<◌, ◌≡◌, ◌≢◌, refl, false, none, some, List, [], ◌∷◌, replicate, arith}
use har_lin_kernel.Pmm.{Pmm, alloc, page_addr}
use har_lin_kernel.ReadCache.{
  slot_count, Slot, Cache, blank, slot, entry, holds, cached, pick_victim, get, put, drop,
}
use har_lin_kernel.ReadCache.Victim.{Oldest, pick_victim-Oldest}
use har_lin_kernel.ReadCache.Put.{put-get}

-- 16 pages, of which page 9 is the first free one.
abbrev some_pages : Pmm
some_pages = record {
  bitmap = 0xff ∷ 0b101 ∷ [];
  total_pages = 16;
  top_addr = page_addr 16;
  last_idx = 3;
}

abbrev nothing_cached : Cache
nothing_cached = record {
  slots = replicate slot_count blank;
  tick = 0;
  hits = 0;
  misses = 0;
  va_cursor = 0;
  pages = some_pages;
  memory = λ a. [];
}

abbrev two_cached : List Slot
two_cached = entry 7 4096 1 ∷ entry 8 8192 2 ∷ replicate 62 blank

abbrev some_cached : Cache
some_cached = record nothing_cached { slots = two_cached; tick = 2 }

misses_then_hits :
    ((get 5 some_cached).1.misses ≡ 1) × ((get 7 (get 5 some_cached).1).0 ≡ some 4096)
unfolding get
misses_then_hits = (refl, refl)

drops : (get 7 (drop 7 some_cached)).0 ≡ none
unfolding get drop
drops = refl

got_page : (alloc some_pages).0 ≢ 0
unfolding alloc
got_page e = ground (arith, e)

not_cached : cached 5 two_cached ≡ none
unfolding cached
not_cached = refl

is_cached : cached 7 two_cached ≡ some 0
unfolding cached
is_cached = refl

takes_unused : 0 < pick_victim two_cached
unfolding pick_victim
takes_unused = omega arith

pick_victim-Oldest_example : Oldest two_cached (pick_victim two_cached)
pick_victim-Oldest_example = pick_victim-Oldest two_cached (omega arith) (omega arith)

put-get_example :
    let s' = (put 5 (1 ∷ []) some_cached).1 in
    ((get 5 s').0 ≡ some (alloc some_pages).0)
    × (s'.memory (alloc some_pages).0 ≡ 1 ∷ [])
    × ((other : ℕ)
        → other ≢ 5
        → holds other (slot two_cached (pick_victim two_cached)) ≡ false
        → (get other s').0 ≡ (get other some_cached).0)
put-get_example = put-get 5 (1 ∷ []) some_cached refl (omega arith) not_cached got_page
