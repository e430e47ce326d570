-- ===== src/PathWalk/Examples.antt =====
-- Runs of the functions of src/harlin/fs/path_walk.c, and instances of the theorems.
use Prim.Native.Char.{code}
use Prim.Native.String.{String}
use har_lin_kernel.Base.{ℕ, ◌≡◌, refl, none, some, List, [], ◌∷◌}
use native.Mathlib.Omega.{arith}
use har_lin_kernel.PathWalk.{normalize, parse}
use har_lin_kernel.PathWalk.Parse.{Parsed, parse-Parsed}
use har_lin_kernel.PathWalk.Normal.Print.{normalize_lem}
use har_lin_kernel.PathWalk.Normal.Again.{normalize_again}

abbrev bytes : String → List ℕ
bytes String.[] = []
bytes (String.◌∷◌ c s) = code c ∷ bytes s

keeps_plain : normalize (bytes "/a/b/c") 128 ≡ some (bytes "/a/b/c")
unfolding normalize
keeps_plain = refl

takes_dots_out : normalize (bytes "/a/./b/../c") 128 ≡ some (bytes "/a/c")
unfolding normalize
takes_dots_out = refl

stays_at_root : normalize (bytes "/../..") 128 ≡ some (bytes "/")
unfolding normalize
stays_at_root = refl

nothing_left : normalize (bytes "a/..") 2 ≡ some (bytes ".")
unfolding normalize
nothing_left = refl

too_long : normalize (bytes "a//b") 3 ≡ none
unfolding normalize
too_long = refl

up_from_nowhere : normalize (bytes "../a") 128 ≡ some (bytes "a")
unfolding normalize
up_from_nowhere = refl

ninth_part : normalize (bytes "/a/b/c/d/e/f/g/h/i") 128 ≡ some (bytes "/a/b/c/d/e/f/g/h")
unfolding normalize
ninth_part = refl

shorter : normalize (bytes "a/../b") 8 ≡ some (bytes "b")
unfolding normalize
shorter = refl

parse-Parsed_example : Parsed (bytes "/a//b") (parse (bytes "/a//b"))
parse-Parsed_example = parse-Parsed (bytes "/a//b")

normalize_lem_example : normalize (bytes "a/../b") 8 ≡ some (bytes "b")
normalize_lem_example = normalize_lem (bytes "a/../b") 8

normalize_again_example : normalize (bytes "b") 8 ≡ some (bytes "b")
normalize_again_example = normalize_again (bytes "a/../b") (bytes "b") 8 (omega arith) shorter
