-- ===== src/PathWalk/Parse.antt =====
-- `Harlin_PathParse` of src/harlin/fs/path_walk.c finds the parts of a path.
use har_lin_kernel.Base.{
  ℕ, zero, suc, ◌+◌, ◌-◌, ◌≤◌, ◌<◌, ◌≡◌, ◌≢◌, refl, sym, ap, ◌∙◌, true, false, ◌||◌, Option, none,
  some, List, [], ◌∷◌, map, arith, ltb, leb, ◌==◌, if◌then◌else◌, length, get_or, take, drop, min,
  Bool-cases, inl, inr, ◌⊎◌, length-drop, take-nil,
}
use mathlib.Core.Path.{ap₂}
use har_lin_kernel.PathWalk.{
  PathParts, max_segments, max_chars, slash, str_length, segment_end, skip_slash, parse_loop,
  parsed, parse,
}
use har_lin_kernel.PathWalk.Parts.{
  contents, parts, keep, first, after, parts-first, length-after, take-first, str_length-contents,
  take-contents,
}

-- The text with the length that is noted for it; and what that is for a text.
abbrev pub view : List ℕ → ℕ × ℕ → List ℕ × ℕ
view buf (start, len) = (take len (drop start buf), len)

abbrev pub sized : List ℕ → List ℕ × ℕ
sized w = (w, length w)

-- What the rest of a list says of the list at index `i`.
record Here (buf : List ℕ) (i c : ℕ) (s : List ℕ) : Type 0 where
  byte : get_or buf i 0 ≡ c
  behind : drop (i + 1) buf ≡ s
  inside : i < length buf

drop-Here : (buf : List ℕ) (i c : ℕ) (s : List ℕ) → drop i buf ≡ c ∷ s → Here buf i c s
drop-Here [] zero c s e = absurd (ground arith)
drop-Here [] (suc i) c s e = absurd (ground arith)
drop-Here (b ∷ buf) zero c s e = record {
  byte = ground arith;
  behind = ground arith;
  inside = omega arith;
}
drop-Here (b ∷ buf) (suc i) c s e =
    let here = drop-Here buf i c s e in
    let next : suc i + 1 ≡ suc (i + 1) = omega arith in
    record { byte = here.byte; behind = rw next here.behind; inside = omega (arith, here.inside) }

past : (buf : List ℕ) (i : ℕ) → drop i buf ≡ [] → length buf ≤ i
past buf i e = omega (arith, ap length e, length-drop i buf)

segment_end-first :
    (buf s : List ℕ) (rounds i : ℕ)
    → drop i buf ≡ s
    → length s ≤ rounds
    → segment_end buf (length buf) rounds i ≡ i + length (first s)
unfolding segment_end
segment_end-first buf [] zero i e h = omega arith
segment_end-first buf [] (suc rounds) i e h =
    let out : ltb i (length buf) ≡ false = ground (arith, past buf i e) in rw out (omega arith)
segment_end-first buf (c ∷ s) zero i e h = omega arith
segment_end-first buf (c ∷ s) (suc rounds) i e h =
    let here = drop-Here buf i c s e in
    let inside : ltb i (length buf) ≡ true = ground (arith, here.inside) in
    elim (Bool-cases (c == slash)) [
      | inl t ↦ rw (inside, here.byte, t) (omega arith)
      | inr t ↦
          rw (inside, here.byte, t)
            (segment_end-first buf s rounds (i + 1) here.behind (omega (arith, h)) ∙ omega arith)
    ]

skip_slash-after :
    (buf s : List ℕ) (i : ℕ)
    → drop i buf ≡ s
    → drop (skip_slash buf (length buf) (i + length (first s))) buf ≡ after s
skip_slash-after buf [] i e =
    let out : ltb (i + 0) (length buf) ≡ false = ground (arith, past buf i e) in
    let same : i + 0 ≡ i = omega arith in rw (out, same) e
skip_slash-after buf (c ∷ s) i e =
    let here = drop-Here buf i c s e in
    let inside : ltb i (length buf) ≡ true = ground (arith, here.inside) in
    elim (Bool-cases (c == slash)) [
      | inl t ↦
          (let same : i + 0 ≡ i = omega arith in rw (t, same, inside, here.byte, t) here.behind)
      | inr t ↦
          (let next : i + suc (length (first s)) ≡ i + 1 + length (first s) = omega arith in
            rw (t, next) (skip_slash-after buf s (i + 1) here.behind))
    ]

-- One round of the outer loop, for the text `w` at `i`, before the parts `ps`.
round-keep :
    (buf : List ℕ) (i count : ℕ) (w : List ℕ) (ps : List (List ℕ)) (rest : ℕ → List (ℕ × ℕ))
    → ((k : ℕ) → map (view buf) (rest k) ≡ map sized (take (max_segments - k) ps))
    → take (length w) (drop i buf) ≡ w
    → count < max_segments
    → map (view buf) (
        if ltb 0 (i + length w - i)
        then (i, i + length w - i) ∷ rest (if ltb 0 (i + length w - i) then count + 1 else count)
        else rest (if ltb 0 (i + length w - i) then count + 1 else count))
      ≡ map sized (take (max_segments - count) (keep w ps))
round-keep buf i count [] ps rest f e h =
    let nothing : i + 0 - i ≡ 0 = omega arith in rw nothing (f count)
round-keep buf i count (c ∷ w) ps rest f e h =
    let whole : i + suc (length w) - i ≡ suc (length w) = omega arith in
    let more : max_segments - count ≡ suc (max_segments - (count + 1)) = omega (arith, h) in
    let positive : ltb 0 (suc (length w)) ≡ true = ground arith in
    rw (whole, more, positive) (ap₂ (λ t rest'. (t, suc (length w)) ∷ rest') e (f (count + 1)))

-- The outer loop finds the parts of the rest of the path, as many as there is room for.
parse_loop-parts :
    (buf : List ℕ) (rounds : ℕ) (s : List ℕ) (i count : ℕ)
    → drop i buf ≡ s
    → length s ≤ rounds
    → map (view buf) (parse_loop buf (length buf) rounds i count)
      ≡ map sized (take (max_segments - count) (parts s))
unfolding parse_loop
parse_loop-parts buf zero [] i count e h = sym (ap (map sized) (take-nil (max_segments - count)))
parse_loop-parts buf zero (c ∷ s) i count e h = absurd (omega (arith, h))
parse_loop-parts buf (suc rounds) [] i count e h =
    let out : ltb i (length buf) ≡ false = ground (arith, past buf i e) in
    rw out (sym (ap (map sized) (take-nil (max_segments - count))))
parse_loop-parts buf (suc rounds) (c ∷ s) i count e h =
    let here = drop-Here buf i c s e in
    let inside : ltb i (length buf) ≡ true = ground (arith, here.inside) in
    let left : length (c ∷ s) ≤ length buf - i = omega (arith, ap length e, length-drop i buf) in
    let end = segment_end-first buf (c ∷ s) (length buf - i) i e left in
    let next = skip_slash-after buf (c ∷ s) i e in
    elim (Bool-cases (ltb count max_segments)) [
      | inl t ↦
          rw (end, inside, t)
            (round-keep buf i count (first (c ∷ s)) (parts (after (c ∷ s))) _
                (λ k.
                  parse_loop-parts buf rounds (after (c ∷ s)) _ k next
                    (omega (arith, length-after c s, h)))
                (ap (take (length (first (c ∷ s)))) e ∙ take-first (c ∷ s)) (ground (arith, t))
              ∙ ap (λ ps. map sized (take (max_segments - count) ps)) (sym (parts-first (c ∷ s))))
      | inr t ↦
          (let full : max_segments - count ≡ 0 = ground arith in rw (end, inside, t, full) refl)
    ]

-- What `Harlin_PathParse` makes of a path.
pub data Parsed (s : List ℕ) : Option PathParts → Type 0 where
  refused : contents s ≡ [] ⊎ max_chars ≤ length (contents s) → Parsed s none
  accepted :
      (p : PathParts)
      → contents s ≢ []
      → length (contents s) < max_chars
      → p.buf ≡ contents s
      → p.is_absolute ≡ (get_or (contents s) 0 0 == slash)
      → map (view p.buf) p.segments ≡ map sized (take max_segments (parts (contents s)))
      → Parsed s (some p)

first_byte : (s : List ℕ) → get_or s 0 0 == slash ≡ (get_or (contents s) 0 0 == slash)
first_byte [] = refl
first_byte (c ∷ s) = elim (Bool-cases (c == 0)) [ inl e ↦ ground arith | inr e ↦ rw e refl ]

segments_lem :
    (buf : List ℕ)
    → map
        (view buf)
        (parse_loop buf (length buf) (length buf) (if get_or buf 0 0 == slash then 1 else 0) 0)
      ≡ map sized (take max_segments (parts buf))
unfolding parse_loop
segments_lem [] = refl
segments_lem (c ∷ buf) = elim (Bool-cases (c == slash)) [
  | inl e ↦ rw e (parse_loop-parts (c ∷ buf) (suc (length buf)) buf 1 0 refl (omega arith))
  | inr e ↦
      (let at_start : ◌≡◌ {A = ℕ} (if c == slash then 1 else 0) 0 = ground arith in
        rw at_start
          (parse_loop-parts (c ∷ buf) (suc (length buf)) (c ∷ buf) 0 0 refl (omega arith)))
]

pub no_bytes : (s : List ℕ) → length s ≡ 0 → s ≡ []
no_bytes [] e = refl
no_bytes (c ∷ s) e = absurd (omega (arith, e))

parse_len-Parsed :
    (s : List ℕ) (len : ℕ)
    → len ≡ min 4096 (length (contents s))
    → Parsed s (if len == 0 || leb max_chars len then none else some (parsed s len))
unfolding parsed
parse_len-Parsed s len e = elim (Bool-cases (len == 0 || leb max_chars len)) [
  | inl t ↦ rw t (
      refused (elim (Bool-cases (leb max_chars (length (contents s)))) [
        | inl u ↦ inr (ground (arith, u))
        | inr u ↦ inl (no_bytes (contents s) (ground (arith, u, t, e)))
      ]))
  | inr t ↦
      (let whole : len ≡ length (contents s) = ground (arith, t, e) in
        let copy : take len s ≡ contents s = ap (λ n. take n s) whole ∙ take-contents s in
        rw t (
          accepted (parsed s len) (λ q. ground (arith, t, whole, ap length q))
            (ground (arith, t, whole)) copy (first_byte s)
            (rw (copy, whole, first_byte s) (segments_lem (contents s)))))
]

-- `Harlin_PathParse` refuses a path that is empty or has 128 bytes or more. Any other it copies,
-- and the segments that it finds are the texts between its slashes that are not empty, but only the
-- first 8 of them.
pub parse-Parsed : (s : List ℕ) → Parsed s (parse s)
unfolding parse
parse-Parsed s = parse_len-Parsed s (str_length 4096 s) (str_length-contents 4096 s)
