-- ===== src/PathWalk/Normal.antt =====
-- `Harlin_PathNormalize` of src/harlin/fs/path_walk.c: what it makes of the parts of a path.
pub mod Stack
pub mod Print
pub mod Again
use har_lin_kernel.Base.{
  ℕ, zero, suc, ◌+◌, Bool, true, false, ◌&&◌, List, [], ◌∷◌, ◌++◌, ◌==◌, if◌then◌else◌, take,
  get_or,
}
use har_lin_kernel.PathWalk.{slash, dot, max_segments, pop, reversed, or_dot}
use har_lin_kernel.PathWalk.Parts.{contents, parts}

-- The text `.`, and the text `..`.
abbrev pub is_here : List ℕ → Bool
is_here [] = false
is_here (c ∷ []) = c == dot
is_here (c ∷ d ∷ w) = false

abbrev pub is_up : List ℕ → Bool
is_up [] = false
is_up (c ∷ []) = false
is_up (c ∷ d ∷ []) = c == dot && d == dot
is_up (c ∷ d ∷ e ∷ w) = false

-- One part changes the parts that lead to the current place; the last of them comes first.
abbrev pub enter : List ℕ → List (List ℕ) → List (List ℕ)
enter w place = if is_here w then place else if is_up w then pop place else w ∷ place

abbrev pub walk : List (List ℕ) → List (List ℕ) → List (List ℕ)
walk [] place = place
walk (w ∷ ws) place = walk ws (enter w place)

-- Parts with a slash before each.
abbrev pub slashed : List (List ℕ) → List ℕ
slashed [] = []
slashed (w ∷ ws) = slash ∷ (w ++ slashed ws)

-- Parts with a slash between each two.
abbrev pub joined : List (List ℕ) → List ℕ
joined [] = []
joined (w ∷ ws) = w ++ slashed ws

abbrev pub root : Bool → List ℕ
root absolute = if absolute then slash ∷ [] else []

-- The path to the place that parts lead to.
abbrev pub path_to : Bool → List (List ℕ) → List ℕ
path_to absolute ws = or_dot (root absolute ++ joined ws)

-- The normal form of a path, from its first 8 parts.
abbrev pub normal : List ℕ → List ℕ
normal s = path_to (get_or s 0 0 == slash) (reversed (walk (take max_segments (parts s)) []))
