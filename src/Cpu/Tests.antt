-- ===== src/Cpu/Tests.antt =====
-- Runs of the parsers of thread masks, and the lemmas at concrete arguments. The numbers are one
-- digit.
use gfx906_mixed_cuda_rocm_r.Base.{
  ℕ, ◌-◌, ◌≡◌, ◌⊎◌, refl, Bool, true, false, ◌&&◌, Option, none, some, List, [], ◌∷◌, leb,
  if◌then◌else◌, replicate, arith,
}
use gfx906_mixed_cuda_rocm_r.Text.{Str}
use gfx906_mixed_cuda_rocm_r.Cpu.{parse_cpu_range, parse_cpu_mask}
use gfx906_mixed_cuda_rocm_r.Cpu.Range.{Refused, Covered, parse_cpu_range_lem}

abbrev digit : Str → Option ℕ
digit [] = none
digit (c ∷ cs) = if leb b'0' c && leb c b'9' then some (c - b'0') else none

abbrev two_to_three : Str
two_to_three = b'2' ∷ b'-' ∷ b'3' ∷ []

abbrev chosen : List Bool
chosen = false ∷ false ∷ true ∷ true ∷ false ∷ []

range_runs : parse_cpu_range 5 digit two_to_three (replicate 5 false) ≡ some (true, chosen)
unfolding parse_cpu_range
range_runs = refl

mask_runs :
    parse_cpu_mask (b'0' ∷ b'x' ∷ b'5' ∷ []) (replicate 5 false)
    ≡ (true, true ∷ false ∷ true ∷ false ∷ false ∷ [])
unfolding parse_cpu_mask
mask_runs = refl

parse_cpu_range_lem_example :
    ((true ≡ false) × (chosen ≡ replicate 5 false) × Refused 5 digit two_to_three)
    ⊎ ((true ≡ true) × Covered 5 digit two_to_three (replicate 5 false) chosen)
unfolding parse_cpu_range
parse_cpu_range_lem_example =
    parse_cpu_range_lem 5 digit two_to_three (replicate 5 false) chosen true (omega arith) refl refl
