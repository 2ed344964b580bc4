-- ===== src/Glob/Literal.antt =====
-- `glob_match` of code/source/common/common.cpp on patterns without special characters, and on the two
-- wildcards.
use gfx906_mixed_cuda_rocm_r.Base.{
  ℕ, zero, suc, ◌<◌, ◌≡◌, ◌≢◌, inl, inr, refl, Bool, true, false, not, ◌&&◌, [], ◌∷◌, ◌==◌, ==-ne,
  Bool-cases, length, bytes_eq, All, arith,
}
use gfx906_mixed_cuda_rocm_r.Text.{Str, starts_with}
use gfx906_mixed_cuda_rocm_r.Glob.{any_suffix, any_within, glob_from, glob_match}

-- A character that stands for itself.
abbrev pub Plain : ℕ → Type 0
Plain c = (c ≢ b'*') × (c ≢ b'?') × (c ≢ b'[')

no_stars : (c : ℕ) (p : Str) → c ≢ b'*' → starts_with (b'*' ∷ b'*' ∷ []) (c ∷ p) ≡ false
unfolding starts_with
no_stars c p h = ground arith

glob_from-Plain :
    (fuel : ℕ) (p s : Str) → length p < fuel → All Plain p → glob_from fuel p s ≡ bytes_eq p s
unfolding glob_from
glob_from-Plain zero p s h a = absurd (omega arith)
glob_from-Plain (suc fuel) [] [] h a = refl
glob_from-Plain (suc fuel) [] (d ∷ ds) h a = refl
glob_from-Plain (suc fuel) (c ∷ p) [] h a =
    rw (glob_from, no_stars c p a.0.0, ==-ne c b'*' a.0.0, ==-ne c b'?' a.0.1, ==-ne c b'[' a.0.2)
      refl
glob_from-Plain (suc fuel) (c ∷ p) (d ∷ ds) h a =
    rw (glob_from, no_stars c p a.0.0, ==-ne c b'*' a.0.0, ==-ne c b'?' a.0.1, ==-ne c b'[' a.0.2)
      (elim (Bool-cases (c == d)) [
        | inl t ↦ ground (arith, t, glob_from-Plain fuel p ds (omega arith) a.1)
        | inr f ↦ ground (arith, f)
      ])

-- A pattern without `*`, `?` and `[` matches the string that equals it and no other.
pub glob_match-Plain : (p s : Str) → All Plain p → glob_match p s ≡ bytes_eq p s
unfolding glob_match
glob_match-Plain p s a = glob_from-Plain (suc (length p)) p s (omega arith) a

-- Whether a string has no `/`.
abbrev pub no_slash : Str → Bool
no_slash [] = true
no_slash (c ∷ cs) = not (c == b'/') && no_slash cs

any_within_empty : (fuel : ℕ) (s : Str) → any_within (glob_from (suc fuel) []) s ≡ no_slash s
unfolding any_within glob_from
any_within_empty fuel [] = refl
any_within_empty fuel (c ∷ cs) = elim (Bool-cases (c == b'/')) [
  | inl t ↦ rw t refl
  | inr f ↦ rw f (any_within_empty fuel cs)
]

any_suffix_empty : (fuel : ℕ) (s : Str) → any_suffix (glob_from (suc fuel) []) s ≡ true
unfolding any_suffix glob_from
any_suffix_empty fuel [] = refl
any_suffix_empty fuel (c ∷ cs) = any_suffix_empty fuel cs

-- `*` alone matches the strings without a `/`, and `**` alone matches every string.
pub glob_match_stars :
    (s : Str) → (glob_match (b'*' ∷ []) s ≡ no_slash s) × (glob_match (b'*' ∷ b'*' ∷ []) s ≡ true)
unfolding glob_match glob_from
glob_match_stars s = (any_within_empty 0 s, any_suffix_empty 1 s)
