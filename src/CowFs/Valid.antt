-- ===== src/CowFs/Valid.antt =====
-- Well-formed tables of versions: src/harlin/fs/cow_fs.c.
use har_lin_kernel.Base.{
  ℕ, zero, suc, ◌≤◌, ◌<◌, ◌≡◌, refl, ap, ◌∙◌, true, false, not, none, some, List, [], ◌∷◌, arith,
  if◌then◌else◌, length, set, take, map, first-some, first-none, length-replicate,
}
use har_lin_kernel.MemFs.{payload_max}
use har_lin_kernel.CowFs.{
  Version, Cow, blank, version, max_versions, name_len, free_slot, init, cleared, same_name, taken,
  put_name,
}

-- The array that `make_ver_name` leaves in a version just taken.
pub name_of : ℕ → List ℕ
name_of k = (put_name k (taken 0 blank)).ver

pub put_name-taken : (k n : ℕ) (e : Version) → (put_name k (taken n e)).ver ≡ name_of k
unfolding name_of
put_name-taken k n e = refl

pub take-name_of : (k : ℕ) → take name_len (name_of k) ≡ name_of k
unfolding name_of
take-name_of k = refl

pub name_of_injective :
    (a b : ℕ) → a < 100 → b < 100 → same_name (name_of a) (name_of b) name_len 0 ≡ true → a ≡ b
unfolding same_name name_of
name_of_injective a b h k e = ground (arith, e)

-- The number of versions in use.
pub used_count : List Version → ℕ
used_count [] = 0
used_count (e ∷ versions) = let rest = used_count versions in if e.used then suc rest else rest

used_count-length : (versions : List Version) → used_count versions ≤ length versions
unfolding used_count
used_count-length [] = omega arith
used_count-length (e ∷ versions) = ground (arith, used_count-length versions)

used_count_free :
    (versions : List Version) (i : ℕ)
    → i < length versions
    → (version versions i).used ≡ false
    → used_count versions < length versions
unfolding used_count
used_count_free [] i h u = absurd (omega (arith, h))
used_count_free (e ∷ versions) zero h u = ground (arith, used_count-length versions, u)
used_count_free (e ∷ versions) (suc i) h u =
    ground (arith, used_count_free versions i (omega (arith, h)) u)

pub used_count-set :
    (versions : List Version) (i : ℕ) (e : Version)
    → i < length versions
    → (version versions i).used ≡ false
    → e.used ≡ true
    → used_count (set versions i e) ≡ suc (used_count versions)
unfolding used_count
used_count-set [] i e h u t = absurd (omega (arith, h))
used_count-set (x ∷ versions) zero e h u t = rw (u, t) refl
used_count-set (x ∷ versions) (suc i) e h u t =
    rw (used_count-set versions i e (omega (arith, h)) u t) ground arith

pub used_count-set_same :
    (versions : List Version) (i : ℕ) (e : Version)
    → e.used ≡ (version versions i).used
    → used_count (set versions i e) ≡ used_count versions
unfolding used_count
used_count-set_same [] i e t = refl
used_count-set_same (x ∷ versions) zero e t = rw t refl
used_count-set_same (x ∷ versions) (suc i) e t = rw (used_count-set_same versions i e t) refl

-- Every payload fits its array, and every version in use has the name made of some value of the
-- counter, no later one than the counter's own while there is room in the table.
pub record IsValid (cow : Cow) : Type 0 where
  pub size : length cow.versions ≡ max_versions
  pub fits : (i : ℕ) → length (version cow.versions i).payload ≡ payload_max
  pub stored : (i : ℕ) → (version cow.versions i).payload_size ≤ payload_max
  pub number : ℕ → ℕ
  pub named :
      (i : ℕ)
      → (version cow.versions i).used ≡ true
      → (version cow.versions i).ver ≡ name_of (number i)
  pub recent :
      (i v : ℕ)
      → (version cow.versions i).used ≡ true
      → v < max_versions
      → (version cow.versions v).used ≡ false
      → number i ≤ cow.counter
  pub room :
      (v : ℕ)
      → v < max_versions
      → (version cow.versions v).used ≡ false
      → cow.counter ≤ used_count cow.versions

pub counter-lt :
    {cow : Cow} (c : IsValid cow) (v : ℕ)
    → v < max_versions
    → (version cow.versions v).used ≡ false
    → cow.counter < max_versions
counter-lt {cow} c v h u =
    omega (arith, c.room v h u, used_count_free cow.versions v (omega (arith, h, c.size)) u, c.size)

pub free_slot-some :
    (versions : List Version) (v : ℕ)
    → free_slot versions ≡ some v
    → (v < length versions) × ((version versions v).used ≡ false)
unfolding free_slot
free_slot-some versions v e =
    let (lt, t, _) = first-some (λ e. not e.used) blank versions v e in (lt, ground (arith, t))

pub free_slot-none :
    (versions : List Version) (v : ℕ)
    → free_slot versions ≡ none
    → v < length versions
    → (version versions v).used ≡ true
unfolding free_slot
free_slot-none versions v e h =
    let t = first-none (λ e. not e.used) blank versions v e h in ground (arith, t)

cleared-used : (versions : List Version) (i : ℕ) → (version (map cleared versions) i).used ≡ false
cleared-used [] i = refl
cleared-used (e ∷ versions) zero = refl
cleared-used (e ∷ versions) (suc i) = cleared-used versions i

cleared-payload :
    (versions : List Version) (i : ℕ)
    → ((j : ℕ) → length (version versions j).payload ≡ payload_max)
    → (length (version (map cleared versions) i).payload ≡ payload_max)
      × ((version (map cleared versions) i).payload_size ≡ 0)
cleared-payload [] i f = (length-replicate {A = ℕ} payload_max 0, refl)
cleared-payload (e ∷ versions) zero f = (f 0, refl)
cleared-payload (e ∷ versions) (suc i) f = cleared-payload versions i (λ j. f (suc j))

length-cleared : (versions : List Version) → length (map cleared versions) ≡ length versions
length-cleared [] = refl
length-cleared (e ∷ versions) = ap suc (length-cleared versions)

pub init-IsValid :
    (cow : Cow)
    → length cow.versions ≡ max_versions
    → ((i : ℕ) → length (version cow.versions i).payload ≡ payload_max)
    → IsValid (init cow)
unfolding init
init-IsValid cow h f = record {
  size = length-cleared cow.versions ∙ h;
  fits = λ i. (cleared-payload cow.versions i f).0;
  stored = λ i. omega (arith, (cleared-payload cow.versions i f).1);
  number = λ i. 0;
  named = λ i u. absurd (ground (arith, u, cleared-used cow.versions i));
  recent = λ i v u k w. omega arith;
  room = λ v k w. omega arith;
}
