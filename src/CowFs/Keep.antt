-- ===== src/CowFs/Keep.antt =====
-- Changes of a table of versions that keep it well formed: src/harlin/fs/cow_fs.c.
use har_lin_kernel.Base.{
  ℕ, suc, ◌≤◌, ◌<◌, ◌≡◌, ◌≢◌, ap, sym, ◌∙◌, true, false, List, arith, ◌==◌, if◌then◌else◌, length,
  length-set,
}
use mathlib.Core.Path.{subst}
use native.Mathlib.Decide.{ℕ_discrete}
use har_lin_kernel.MemFs.{payload_max}
use har_lin_kernel.CowFs.{Version, Cow, version, change, max_versions}
use har_lin_kernel.CowFs.Names.{version_self, version_other}
use har_lin_kernel.CowFs.Valid.{IsValid, name_of, used_count-set, used_count-set_same}

-- A property of versions holds after a change if it held of the others and holds of the new one.
everywhere :
    (P : Version → Type 0) (versions : List Version) (i : ℕ) (f : Version → Version)
    → i < length versions
    → P (f (version versions i))
    → (j : ℕ) → (j ≢ i → P (version versions j))
    → P (version (change i f versions) j)
everywhere P versions i f h p j k = elim (ℕ_discrete j i) [
  | yes q ↦
      subst P (sym (ap (λ a. version (change i f versions) a) q ∙ version_self versions i f h)) p
  | no q ↦ subst P (sym (version_other versions i j f q)) (k q)
]

-- A version with the name of `k` that takes an unused slot, under a counter `later`.
pub enter-IsValid :
    {cow : Cow} (c : IsValid cow) (slot : ℕ) (f : Version → Version) (k later : ℕ)
    → slot < max_versions
    → (version cow.versions slot).used ≡ false
    → (let e = f (version cow.versions slot) in
        (e.used ≡ true)
        × (e.ver ≡ name_of k)
        × (length e.payload ≡ payload_max)
        × (e.payload_size ≤ payload_max))
    → k ≤ later
    → cow.counter ≤ later
    → later ≤ suc cow.counter
    → IsValid (record { versions = change slot f cow.versions; counter = later })
enter-IsValid {cow} c slot f k later h u (t, name, fit, small) kl lo hi =
    let inside : slot < length cow.versions = omega (arith, h, c.size) in
    let entered = version_self cow.versions slot f inside in
    let others = version_other cow.versions slot in
    let number : ℕ → ℕ = λ i. if i == slot then k else c.number i in
    let at_slot : (i : ℕ) → i ≡ slot → number i ≡ k = λ i q. ground (arith, q) in
    let elsewhere : (i : ℕ) → i ≢ slot → number i ≡ c.number i = λ i q. ground (arith, q) in
    let still_free : (v : ℕ)
        → (version (change slot f cow.versions) v).used ≡ false
        → (v ≢ slot) × ((version cow.versions v).used ≡ false) =
      λ v w.
        let apart : v ≢ slot = λ q. ground (
          arith,
          w,
          ap (λ j. (version (change slot f cow.versions) j).used) q,
          ap (λ e. e.used) entered,
          t,
        ) in
        (apart, ap (λ e. e.used) (sym (others v f apart)) ∙ w) in
    record {
      size = length-set cow.versions slot _ ∙ c.size;
      fits = λ i.
          everywhere (λ e. length e.payload ≡ payload_max) cow.versions slot f inside fit i
            (λ q. c.fits i);
      stored = λ i.
          everywhere (λ e. e.payload_size ≤ payload_max) cow.versions slot f inside small i
            (λ q. c.stored i);
      number = number;
      named = λ i w. elim (ℕ_discrete i slot) [
        | yes q ↦
            ap (λ j. (version (change slot f cow.versions) j).ver) q
            ∙ ap (λ e. e.ver) entered
            ∙ name
            ∙ ap name_of (sym (at_slot i q))
        | no q ↦
            ap (λ e. e.ver) (others i f q)
            ∙ c.named i (ap (λ e. e.used) (sym (others i f q)) ∙ w)
            ∙ ap name_of (sym (elsewhere i q))
      ];
      recent = λ i v w j x. elim (ℕ_discrete i slot) [
        | yes q ↦ omega (arith, at_slot i q, kl)
        | no q ↦ omega (
          arith,
          elsewhere i q,
          lo,
          c.recent i v (ap (λ e. e.used) (sym (others i f q)) ∙ w) j (still_free v x).1,
        )
      ];
      room = λ v j x. omega (
        arith,
        hi,
        c.room v j (still_free v x).1,
        used_count-set cow.versions slot (f (version cow.versions slot)) inside u t,
      );
    }

-- A version that keeps its use and its name.
pub keep-IsValid :
    {cow : Cow} (c : IsValid cow) (slot : ℕ) (f : Version → Version)
    → slot < max_versions
    → (let x = version cow.versions slot in
        let e = f x in
        (e.used ≡ x.used)
        × (e.ver ≡ x.ver)
        × (length e.payload ≡ payload_max)
        × (e.payload_size ≤ payload_max))
    → IsValid (record cow { versions = change slot f cow.versions })
keep-IsValid {cow} c slot f h (t, name, fit, small) =
    let inside : slot < length cow.versions = omega (arith, h, c.size) in
    let same_use : (i : ℕ)
        → (version (change slot f cow.versions) i).used ≡ (version cow.versions i).used =
      λ i. elim (ℕ_discrete i slot) [
        | yes q ↦
            ap (λ j. (version (change slot f cow.versions) j).used) q
            ∙ ap (λ e. e.used) (version_self cow.versions slot f inside)
            ∙ t
            ∙ ap (λ j. (version cow.versions j).used) (sym q)
        | no q ↦ ap (λ e. e.used) (version_other cow.versions slot i f q)
      ] in
    let same_ver : (i : ℕ)
        → (version (change slot f cow.versions) i).ver ≡ (version cow.versions i).ver =
      λ i. elim (ℕ_discrete i slot) [
        | yes q ↦
            ap (λ j. (version (change slot f cow.versions) j).ver) q
            ∙ ap (λ e. e.ver) (version_self cow.versions slot f inside)
            ∙ name
            ∙ ap (λ j. (version cow.versions j).ver) (sym q)
        | no q ↦ ap (λ e. e.ver) (version_other cow.versions slot i f q)
      ] in
    record {
      size = length-set cow.versions slot _ ∙ c.size;
      fits = λ i.
          everywhere (λ e. length e.payload ≡ payload_max) cow.versions slot f inside fit i
            (λ q. c.fits i);
      stored = λ i.
          everywhere (λ e. e.payload_size ≤ payload_max) cow.versions slot f inside small i
            (λ q. c.stored i);
      number = c.number;
      named = λ i w. same_ver i ∙ c.named i (sym (same_use i) ∙ w);
      recent = λ i v w j x. c.recent i v (sym (same_use i) ∙ w) j (sym (same_use v) ∙ x);
      room = λ v j x. omega (
        arith,
        c.room v j (sym (same_use v) ∙ x),
        used_count-set_same cow.versions slot (f (version cow.versions slot)) t,
      );
    }

-- The counter of a full table may take any value.
pub full-IsValid :
    {cow : Cow} (c : IsValid cow) (later : ℕ)
    → ((v : ℕ) → v < max_versions → (version cow.versions v).used ≡ true)
    → IsValid (record cow { counter = later })
full-IsValid {cow} c later f = record {
  size = c.size;
  fits = c.fits;
  stored = c.stored;
  number = c.number;
  named = c.named;
  recent = λ i v w j x. absurd (ground (arith, f v j, x));
  room = λ v j x. absurd (ground (arith, f v j, x));
}
