-- ===== src/Glob/Wildcards.antt =====
-- The wildcards of `glob_match` (code/source/common/common.cpp).
use gfx906_mixed_cuda_rocm_r.Base.{
  ℕ, suc, ◌≡◌, ◌↔◌, inl, inr, refl, ap, sym, ◌∙◌, Bool, true, false, not, ◌&&◌, [], ◌∷◌, ◌++◌, ◌==◌,
  Bool-cases, length, arith,
}
use gfx906_mixed_cuda_rocm_r.Text.{Str, starts_with}
use gfx906_mixed_cuda_rocm_r.Glob.{any_suffix, any_within, glob_from, glob_match}
use gfx906_mixed_cuda_rocm_r.Glob.Fuel.{any_suffix-cong, glob_from-fuel}
use gfx906_mixed_cuda_rocm_r.Glob.Literal.{no_slash}
use mathlib.Core.Path.{subst}

-- The string has an end that passes the test.
abbrev pub HasEnd : (Str → Bool) → Str → Type 0
HasEnd f s = (a : Str) × (b : Str) × (s ≡ a ++ b) × (f b ≡ true)

-- The same with no `/` before the end.
abbrev pub HasEndWithin : (Str → Bool) → Str → Type 0
HasEndWithin f s = (a : Str) × (b : Str) × (s ≡ a ++ b) × (no_slash a ≡ true) × (f b ≡ true)

any_suffix-HasEnd : (f : Str → Bool) (s : Str) → any_suffix f s ≡ true → HasEnd f s
unfolding any_suffix
any_suffix-HasEnd f [] h = ([], [], refl, h)
any_suffix-HasEnd f (c ∷ cs) h = elim (Bool-cases (f (c ∷ cs))) [
  | inl t ↦ ([], c ∷ cs, refl, t)
  | inr t ↦ let r = any_suffix-HasEnd f cs (rw t at h) in (c ∷ r.0, r.1, ap (λ x. c ∷ x) r.2, r.3)
]

any_suffix-append : (f : Str → Bool) (a b : Str) → f b ≡ true → any_suffix f (a ++ b) ≡ true
unfolding any_suffix
any_suffix-append f [] [] h = h
any_suffix-append f [] (c ∷ cs) h = rw h refl
any_suffix-append f (c ∷ a) b h = elim (Bool-cases (f (c ∷ (a ++ b)))) [
  | inl t ↦ rw t refl
  | inr t ↦ rw t (any_suffix-append f a b h)
]

any_within-HasEnd : (f : Str → Bool) (s : Str) → any_within f s ≡ true → HasEndWithin f s
unfolding any_within
any_within-HasEnd f [] h = ([], [], refl, refl, h)
any_within-HasEnd f (c ∷ cs) h = elim (Bool-cases (f (c ∷ cs))) [
  | inl t ↦ ([], c ∷ cs, refl, refl, t)
  | inr t ↦ elim (Bool-cases (c == b'/')) [
    | inl u ↦ cc (rw (u, t) at h)
    | inr u ↦
        let r = any_within-HasEnd f cs (rw (u, t) at h) in
        (c ∷ r.0, r.1, ap (λ x. c ∷ x) r.2, rw u r.3, r.4)
  ]
]

any_within-append :
    (f : Str → Bool) (a b : Str) → no_slash a ≡ true → f b ≡ true → any_within f (a ++ b) ≡ true
unfolding any_within
any_within-append f [] [] n h = h
any_within-append f [] (c ∷ cs) n h = elim (Bool-cases (c == b'/')) [
  | inl u ↦ rw (u, h) refl
  | inr u ↦ rw (u, h) refl
]
any_within-append f (c ∷ a) b n h = elim (Bool-cases (c == b'/')) [
  | inl u ↦ cc (rw u at n)
  | inr u ↦ elim (Bool-cases (f (c ∷ (a ++ b)))) [
    | inl t ↦ rw (u, t) refl
    | inr t ↦ rw (u, t) (any_within-append f a b (rw u at n) h)
  ]
]

glob_match-stars : (p s : Str) → glob_match (b'*' ∷ b'*' ∷ p) s ≡ any_suffix (glob_match p) s
unfolding glob_match glob_from
glob_match-stars p s =
    any_suffix-cong (glob_from (suc (suc (length p))) p) (glob_match p) s
      (λ r. glob_from-fuel (suc (suc (length p))) (suc (length p)) p r (omega arith) (omega arith))

one_star :
    (p : Str)
    → starts_with (b'*' ∷ []) p ≡ false
    → starts_with (b'*' ∷ b'*' ∷ []) (b'*' ∷ p) ≡ false
unfolding starts_with
one_star [] h = refl
one_star (c ∷ p) h = h

glob_match-star :
    (p s : Str)
    → starts_with (b'*' ∷ []) p ≡ false
    → glob_match (b'*' ∷ p) s ≡ any_within (glob_match p) s
unfolding glob_match glob_from
glob_match-star p s h = rw (glob_from, one_star p h) refl

glob_match-question :
    (p s : Str) (c : ℕ) → glob_match (b'?' ∷ p) (c ∷ s) ≡ (not (c == b'/') && glob_match p s)
unfolding glob_match glob_from
glob_match-question p s c = elim (Bool-cases (c == b'/')) [
  | inl t ↦
      let e : c ≡ b'/' = ground (arith, t) in
      subst (λ x. glob_match (b'?' ∷ p) (x ∷ s) ≡ (not (x == b'/') && glob_match p s)) (sym e) refl
  | inr t ↦ rw (glob_from, t) refl
]

glob_match-question_empty : (p : Str) → glob_match (b'?' ∷ p) [] ≡ false
unfolding glob_match glob_from
glob_match-question_empty p = refl

-- What the wildcards match, for every string `s` and in front of any pattern `q`, or of a pattern `p`
-- that does not begin with `*`: `**` any string before a match of `q`; a `*` before `p` any string
-- without `/` before a match of `p`; `?` one character other than `/` before a match of `q`.
pub glob_match_wildcards :
    (p q s : Str) (c : ℕ)
    → starts_with (b'*' ∷ []) p ≡ false
    → ((glob_match (b'*' ∷ b'*' ∷ q) s ≡ true) ↔ HasEnd (glob_match q) s)
      × ((glob_match (b'*' ∷ p) s ≡ true) ↔ HasEndWithin (glob_match p) s)
      × (glob_match (b'?' ∷ q) [] ≡ false)
      × (glob_match (b'?' ∷ q) (c ∷ s) ≡ (not (c == b'/') && glob_match q s))
glob_match_wildcards p q s c h = (
  (
    λ e. any_suffix-HasEnd (glob_match q) s (sym (glob_match-stars q s) ∙ e),
    λ x.
        glob_match-stars q s
        ∙ subst (λ t. any_suffix (glob_match q) t ≡ true) (sym x.2)
            (any_suffix-append (glob_match q) x.0 x.1 x.3),
  ),
  (
    λ e. any_within-HasEnd (glob_match p) s (sym (glob_match-star p s h) ∙ e),
    λ x.
        glob_match-star p s h
        ∙ subst (λ t. any_within (glob_match p) t ≡ true) (sym x.2)
            (any_within-append (glob_match p) x.0 x.1 x.3 x.4),
  ),
  glob_match-question_empty q,
  glob_match-question q s c,
)
