-- ===== src/FileName/Tests.antt =====
-- Runs of the check with a parser of ASCII, and the lemmas at concrete names.
use gfx906_mixed_cuda_rocm_r.Base.{
  ℕ, ◌≤◌, ◌<◌, ◌≡◌, refl, Bool, true, false, Option, none, some, [], ◌∷◌, ltb, if◌then◌else◌,
  length, get_or, arith,
}
use gfx906_mixed_cuda_rocm_r.Text.{Str, find}
use gfx906_mixed_cuda_rocm_r.FileName.{fs_validate_filename, first_is, last_is}
use gfx906_mixed_cuda_rocm_r.FileName.Accepted.{
  Allowed, start, fs_validate_filename_total, fs_validate_filename-Allowed,
  fs_validate_filename_lem,
}

abbrev ascii : Str → ℕ → Option (ℕ × ℕ)
ascii s o = if ltb (get_or s o 0) 128 then some (get_or s o 0, 1) else none

abbrev name : Str
name = b'a' ∷ b'.' ∷ b'b' ∷ []

accepts : fs_validate_filename ascii name false ≡ some true
unfolding fs_validate_filename
accepts = refl

refuses_separator : fs_validate_filename ascii (b'a' ∷ b'/' ∷ b'b' ∷ []) false ≡ some false
unfolding fs_validate_filename
refuses_separator = refl

refuses_dots : fs_validate_filename ascii (b'.' ∷ b'.' ∷ b'a' ∷ []) true ≡ some false
unfolding fs_validate_filename
refuses_dots = refl

ascii_takes_one : (o c k : ℕ) → ascii name o ≡ some (c, k) → 1 ≤ k
ascii_takes_one o c k e = ground (arith, e)

fs_validate_filename_total_example : (r : Bool) × (fs_validate_filename ascii name true ≡ some r)
fs_validate_filename_total_example = fs_validate_filename_total ascii name true ascii_takes_one

fs_validate_filename-Allowed_example : Allowed ascii false b'a' 1
unfolding fs_validate_filename
fs_validate_filename-Allowed_example =
    fs_validate_filename-Allowed ascii name false 0 b'a' 1 refl start (omega arith) refl

fs_validate_filename_lem_example :
    (0 < length name)
    × (length name ≤ 255)
    × (first_is b' ' name ≡ false)
    × (last_is b' ' name ≡ false)
    × (last_is b'.' name ≡ false)
    × (find (b'.' ∷ b'.' ∷ []) name ≡ none)
unfolding fs_validate_filename
fs_validate_filename_lem_example = fs_validate_filename_lem ascii name false refl
