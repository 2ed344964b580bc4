-- ===== src/Glob/Tests.antt =====
-- Runs of the matching, and the lemmas at concrete patterns.
use gfx906_mixed_cuda_rocm_r.Base.{
  ◌≡◌, ◌↔◌, ◌==◌, ◌&&◌, not, refl, true, false, [], ◌∷◌, bytes_eq, arith,
}
use gfx906_mixed_cuda_rocm_r.Text.{Str, starts_with}
use gfx906_mixed_cuda_rocm_r.Glob.{glob_match}
use gfx906_mixed_cuda_rocm_r.Glob.Wildcards.{HasEnd, HasEndWithin, glob_match_wildcards}
use gfx906_mixed_cuda_rocm_r.Glob.Literal.{glob_match-Plain}

abbrev path : Str
path = b'a' ∷ b'/' ∷ b'b' ∷ []

class_runs :
    glob_match (b'[' ∷ b'!' ∷ b'b' ∷ b'-' ∷ b'd' ∷ b']' ∷ b'*' ∷ b'*' ∷ b'b' ∷ []) path ≡ true
unfolding glob_match
class_runs = refl

star_runs : glob_match (b'*' ∷ b'b' ∷ []) path ≡ false
unfolding glob_match
star_runs = refl

open_bracket_runs : glob_match (b'[' ∷ b'a' ∷ []) (b'[' ∷ b'a' ∷ []) ≡ true
unfolding glob_match
open_bracket_runs = refl

glob_match-Plain_example : glob_match path path ≡ bytes_eq path path
glob_match-Plain_example = glob_match-Plain path path (
  (omega arith, omega arith, omega arith),
  ((omega arith, omega arith, omega arith), ((omega arith, omega arith, omega arith), tt)),
)

abbrev just_b : Str
just_b = b'b' ∷ []

glob_match_wildcards_example :
    ((glob_match (b'*' ∷ b'*' ∷ just_b) path ≡ true) ↔ HasEnd (glob_match just_b) path)
    × ((glob_match (b'*' ∷ just_b) path ≡ true) ↔ HasEndWithin (glob_match just_b) path)
    × (glob_match (b'?' ∷ just_b) [] ≡ false)
    × (glob_match (b'?' ∷ just_b) (b'/' ∷ path) ≡ (not (b'/' == b'/') && glob_match just_b path))
unfolding starts_with
glob_match_wildcards_example = glob_match_wildcards just_b just_b path b'/' refl
