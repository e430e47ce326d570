-- ===== src/PathWalk.antt =====
-- Paths: src/harlin/fs/path_walk.c. A C string is the list of its bytes; what lies behind the list
-- counts as 0. A segment is an offset into the copy of the path, with a length.
pub mod Parts
pub mod Parse
pub mod Normal
mod Examples
use har_lin_kernel.Base.{
  ℕ, zero, suc, ◌+◌, ◌-◌, Bool, not, ◌||◌, ◌&&◌, Option, none, some, List, [], ◌∷◌, ◌++◌, ltb, leb,
  ◌==◌, if◌then◌else◌, length, get_or, take, drop, ◌>>=◌,
}

abbrev pub max_segments : ℕ
max_segments = 8

abbrev pub max_chars : ℕ
max_chars = 128

abbrev pub slash : ℕ
slash = b'/'

abbrev pub dot : ℕ
dot = b'.'

-- `struct path_parts`; `count` is the length of `segments`.
pub record PathParts : Type 0 where
  pub segments : List (ℕ × ℕ)
  pub is_absolute : Bool
  pub buf : List ℕ

-- `my_strlen`, with `rounds` left.
pub str_length : ℕ → List ℕ → ℕ
str_length zero s = 0
str_length (suc rounds) [] = 0
str_length (suc rounds) (c ∷ s) = let rest = str_length rounds s in if c == 0 then 0 else suc rest

-- The inner loop of `Harlin_PathParse`: where the segment ends that begins at `i`.
pub segment_end : List ℕ → ℕ → ℕ → ℕ → ℕ
segment_end buf len zero i = i
segment_end buf len (suc rounds) i =
    let later = segment_end buf len rounds (i + 1) in
    if ltb i len && not (get_or buf i 0 == slash) then later else i

-- `if (i < len && buf[i] == '/') i++`
abbrev pub skip_slash : List ℕ → ℕ → ℕ → ℕ
skip_slash buf len i = if ltb i len && get_or buf i 0 == slash then i + 1 else i

-- The outer loop, at `i` with `count` segments found: the segments that follow.
pub parse_loop : List ℕ → ℕ → ℕ → ℕ → ℕ → List (ℕ × ℕ)
parse_loop buf len zero i count = []
parse_loop buf len (suc rounds) i count =
    let end = segment_end buf len (len - i) i in
    let next = skip_slash buf len end in
    let filled = ltb 0 (end - i) in
    let rest = parse_loop buf len rounds next (if filled then count + 1 else count) in
    if ltb i len && ltb count max_segments
    then (if filled then (i, end - i) ∷ rest else rest)
    else []

-- What `Harlin_PathParse` writes for a path of `len` bytes.
parsed : List ℕ → ℕ → PathParts
unfolding parse_loop segment_end
parsed s len = record {
  segments = parse_loop (take len s) len len (if get_or s 0 0 == slash then 1 else 0) 0;
  is_absolute = get_or s 0 0 == slash;
  buf = take len s;
}

-- `Harlin_PathParse`, with `none` for -1.
unfoldable pub parse : List ℕ → Option PathParts
unfolding str_length parsed
parse s =
    let len = str_length 4096 s in
    if len == 0 || leb max_chars len then none else some (parsed s len)

-- `seg_len[i] == 1 && seg[i][0] == '.'`
abbrev pub is_dot : List ℕ → ℕ × ℕ → Bool
is_dot buf (start, len) = len == 1 && get_or buf start 0 == dot

-- The same for `..`.
abbrev pub is_dot_dot : List ℕ → ℕ × ℕ → Bool
is_dot_dot buf (start, len) =
    len == 2 && get_or buf start 0 == dot && get_or buf (start + 1) 0 == dot

abbrev pub pop {ℓ} : {A : Type ℓ} → List A → List A
pop [] = []
pop (x ∷ xs) = xs

-- One round of the first loop of `Harlin_PathNormalize`. The stack has its top first.
pub push : List ℕ → ℕ × ℕ → List (ℕ × ℕ) → Option (List (ℕ × ℕ))
push buf segment stack =
    if is_dot buf segment
    then some stack
    else if is_dot_dot buf segment
    then some (pop stack)
    else if leb max_segments (length stack)
    then none
    else some (segment ∷ stack)

pub push_loop : List ℕ → List (ℕ × ℕ) → List (ℕ × ℕ) → Option (List (ℕ × ℕ))
unfolding push
push_loop buf [] stack = some stack
push_loop buf (segment ∷ segments) stack = do
  stack' ← push buf segment stack
  push_loop buf segments stack'

-- A slash is written behind what `out` holds, if there is room.
pub put_slash : ℕ → List ℕ → Option (List ℕ)
put_slash size out = if leb size (length out + 1) then none else some (out ++ slash ∷ [])

-- A segment is written there.
pub put_segment : ℕ → List ℕ → ℕ × ℕ → List ℕ → Option (List ℕ)
put_segment size buf (start, len) out =
    if leb size (length out + len) then none else some (out ++ take len (drop start buf))

-- The second loop, at segment `i`.
pub put_loop : ℕ → List ℕ → List (ℕ × ℕ) → ℕ → List ℕ → Option (List ℕ)
unfolding put_slash put_segment
put_loop size buf [] i out = some out
put_loop size buf (segment ∷ segments) i out = do
  separated ← (if ltb 0 i then put_slash size out else some out)
  written ← put_segment size buf segment separated
  put_loop size buf segments (i + 1) written

-- A path with nothing written is `.`.
abbrev pub or_dot : List ℕ → List ℕ
or_dot [] = dot ∷ []
or_dot (c ∷ out) = c ∷ out

abbrev pub reversed {ℓ} : {A : Type ℓ} → List A → List A
reversed [] = []
reversed (x ∷ xs) = reversed xs ++ x ∷ []

normalize_parts : ℕ → PathParts → Option (List ℕ)
unfolding push_loop put_loop
normalize_parts size p = do
  stack ← push_loop p.buf p.segments []
  root ← (if p.is_absolute then put_slash size [] else some [])
  out ← put_loop size p.buf (reversed stack) 0 root
  some (or_dot out)

-- `Harlin_PathNormalize`, into a buffer of `out_size` bytes: what it writes, less the final 0, or
-- `none` for -1.
pub normalize : List ℕ → ℕ → Option (List ℕ)
unfolding parse normalize_parts
normalize s out_size = if ltb out_size 2 then none else (parse s >>= normalize_parts out_size)
