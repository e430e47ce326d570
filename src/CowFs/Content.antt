-- ===== src/CowFs/Content.antt =====
-- What `Harlin_CowWrite` stores in a version and `Harlin_CowReadAt` copies out:
-- src/harlin/fs/cow_fs.c.
use har_lin_kernel.Base.{
  ℕ, ◌<◌, ◌≡◌, ◌≢◌, refl, ap, sym, ◌∙◌, true, false, Option, none, some, List, arith, length, take,
  drop, ◌++◌, min, Option-cases, inl, inr, ◌⊎◌, length-take,
}
use har_lin_kernel.MemFs.{Nodes, payload_max, resolve_path}
use har_lin_kernel.MemFs.Content.{take-stored}
use har_lin_kernel.CowFs.{
  Version, Cow, version, change, same_name, matches, find_ver, name_len, with_payload, store,
  write_found, write_of, write, read_slot, read_of, read_at, is_given,
}
use har_lin_kernel.CowFs.Names.{
  found_apart, version_self, version_other, find_ver-some, find_ver-change,
}

-- A change of a version that a name does not stand for, before or after.
pub read_of-apart :
    (versions : List Version) (i : ℕ) (f : Version → Version) (n : ℕ) (w : List ℕ) (size : ℕ)
    → i < length versions
    → matches n w (version versions i) ≡ false
    → matches n w (f (version versions i)) ≡ false
    → read_of (some n) w size (change i f versions) ≡ read_of (some n) w size versions
unfolding read_of read_slot
read_of-apart versions i f n w size h a b =
    let same = find_ver-change versions i f n w h (b ∙ sym a) in
    elim (Option-cases (find_ver versions n w)) [
      | inl e ↦ rw (same, e) refl
      | inr (s, e) ↦
          (let t = (find_ver-some versions n w s e).1 in
            let apart : s ≢ i =
              λ q. ground (arith, t, a, ap (λ j. matches n w (version versions j)) q) in
            rw (same, e, version_other versions i s f apart) refl)
    ]

pub with_payload-matches :
    (n : ℕ) (ver bytes : List ℕ) (e : Version)
    → matches n ver e ≡ true
    → matches n ver (with_payload n bytes e) ≡ true
unfolding matches
with_payload-matches n ver bytes e t = ground (arith, t)

-- What is read of a version whose payload starts with `xs`.
pub read_of-found :
    (versions : List Version) (n s : ℕ) (ver xs ys : List ℕ) (size : ℕ)
    → find_ver versions n ver ≡ some s
    → (version versions s).payload_size ≡ length xs
    → (version versions s).payload ≡ xs ++ ys
    → read_of (some n) ver size versions ≡ some (take size xs)
unfolding read_of read_slot
read_of-found versions n s ver xs ys size e k p = rw (e, k, p) (ap some (take-stored size xs ys))

-- Reads of all files, as far as they are known for each file that a path leads to.
pub read_at-same :
    (nodes : Nodes) (cow cow' : Cow) (q w : List ℕ) (size : ℕ)
    → ((m : ℕ)
        → resolve_path nodes q ≡ some m
        → read_of (some m) w size cow'.versions ≡ read_of (some m) w size cow.versions)
    → read_at q w size nodes cow' ≡ read_at q w size nodes cow
unfolding read_at read_of
read_at-same nodes cow cow' q w size f = elim (Option-cases (resolve_path nodes q)) [
  | inl e ↦ rw e refl
  | inr (m, e) ↦ rw e (f m e)
]

pub read_at-path :
    (nodes : Nodes) (cow : Cow) (path ver : List ℕ) (size n : ℕ)
    → resolve_path nodes path ≡ some n
    → read_at path ver size nodes cow ≡ read_of (some n) ver size cow.versions
unfolding read_at
read_at-path nodes cow path ver size n e = rw e refl

-- The cases in which the call succeeds.
write_found-some :
    (n : ℕ) (bytes : List ℕ) (o : Option ℕ) (cow : Cow) (k : ℕ)
    → (write_found n bytes o cow).0 ≡ some k
    → (s : ℕ) × (o ≡ some s) × (write_found n bytes o cow ≡ store n bytes s cow)
unfolding write_found
write_found-some n bytes none cow k e = absurd (ground (arith, e))
write_found-some n bytes (some s) cow k e = (s, refl, refl)

write_of-some :
    (o : Option ℕ) (ver bytes : List ℕ) (cow : Cow) (k : ℕ)
    → is_given (some ver) ≡ true
    → (write_of o (some ver) bytes cow).0 ≡ some k
    → (n s : ℕ) × (o ≡ some n)
      × (find_ver cow.versions n ver ≡ some s)
      × (write_of o (some ver) bytes cow ≡ store n bytes s cow)
unfolding write_of
write_of-some none ver bytes cow k g e = absurd (ground (arith, e))
write_of-some (some n) ver bytes cow k g e =
    let opened : write_of (some n) (some ver) bytes cow
        ≡ write_found n bytes (find_ver cow.versions n ver) cow =
      rw g refl in
    let (s, f, same) =
      write_found-some n bytes (find_ver cow.versions n ver) cow k
        (ap (λ r. r.0) (sym opened) ∙ e) in
    (n, s, refl, f, opened ∙ same)

store-read :
    (cow : Cow) (n s : ℕ) (ver bytes : List ℕ) (size : ℕ)
    → find_ver cow.versions n ver ≡ some s
    → let versions' = (store n bytes s cow).1.versions in
      (read_of (some n) ver size versions' ≡ some (take size (take payload_max bytes)))
      × ((m : ℕ) (w : List ℕ)
          → (n ≢ m) ⊎ (same_name w ver name_len 0 ≡ false)
          → read_of (some m) w size versions' ≡ read_of (some m) w size cow.versions)
unfolding store
store-read cow n s ver bytes size e =
    let stored = take payload_max bytes in
    let f = with_payload n stored in
    let old = version cow.versions s in
    let (inside, t) = find_ver-some cow.versions n ver s e in
    let u = with_payload-matches n ver stored old t in
    let there = version_self cow.versions s f inside in
    (
      read_of-found (change s f cow.versions) n s ver stored (drop (length stored) old.payload) size
          (find_ver-change cow.versions s f n ver inside (u ∙ sym t) ∙ e)
          (ap (λ x. x.payload_size) there) (ap (λ x. x.payload) there),
      λ m w a.
          read_of-apart cow.versions s f m w size inside (found_apart n m ver w old t a)
            (found_apart n m ver w (f old) u a),
    )

-- When `Harlin_CowWrite` to a version that its caller names succeeds, be it the newest or not, it
-- changes that version in place: it stores the first 256 bytes
-- and returns their number; a read of that version gives them back, as many as fit, and a read of
-- any other version, be it of another file or under another name, gives what it gave before.
pub write-read_at :
    (path ver bytes : List ℕ) (nodes : Nodes) (cow : Cow) (k size : ℕ)
    → is_given (some ver) ≡ true
    → (write path (some ver) bytes nodes cow).0 ≡ some k
    → let cow' = (write path (some ver) bytes nodes cow).1 in
      (k ≡ min payload_max (length bytes))
      × (read_at path ver size nodes cow' ≡ some (take size (take payload_max bytes)))
      × ((q w : List ℕ)
          → (resolve_path nodes path ≢ resolve_path nodes q) ⊎ (same_name w ver name_len 0 ≡ false)
          → read_at q w size nodes cow' ≡ read_at q w size nodes cow)
unfolding write store
write-read_at path ver bytes nodes cow k size g e =
    let (n, s, found, f, same) = write_of-some (resolve_path nodes path) ver bytes cow k g e in
    let cow' = (write path (some ver) bytes nodes cow).1 in
    let stored = store-read cow n s ver bytes size f in
    let versions = ap (λ r. r.1.versions) same in
    (
      ground (arith, e, ap (λ r. r.0) same, length-take payload_max bytes),
      read_at-path nodes cow' path ver size n found
          ∙ ap (read_of (some n) ver size) versions
          ∙ stored.0,
      λ q w a. read_at-same nodes cow cow' q w size (λ m h.
          ap (read_of (some m) w size) versions
          ∙ stored.1 m w
              (elim a [ inl ne ↦ inl (λ eq. ne (found ∙ ap some eq ∙ sym h)) | inr ne ↦ inr ne ])),
    )
