-- ===== src/Glob/Fuel.antt =====
-- The recursion of `glob_match` (code/source/common/common.cpp) ends: its fuel is enough.
use gfx906_mixed_cuda_rocm_r.Base.{
  ℕ, zero, suc, ◌≤◌, ◌<◌, ◌≡◌, inl, inr, refl, ap, Bool, ◌&&◌, none, [], ◌∷◌, ◌==◌, if◌then◌else◌,
  Bool-cases, Option-cases, length, drop, take, arith,
}
use gfx906_mixed_cuda_rocm_r.Text.{Str, starts_with}
use gfx906_mixed_cuda_rocm_r.Glob.{
  any_suffix, any_within, within, tail, head_is, class_end, glob_class_match, glob_from,
}

length-drop : (n : ℕ) (p : Str) → length (drop n p) ≤ length p
length-drop zero p = omega arith
length-drop (suc n) [] = omega arith
length-drop (suc n) (c ∷ p) = omega (arith, length-drop n p)

pub any_suffix-cong :
    (f g : Str → Bool) (s : Str) → ((t : Str) → f t ≡ g t) → any_suffix f s ≡ any_suffix g s
unfolding any_suffix
any_suffix-cong f g [] h = h []
any_suffix-cong f g (c ∷ cs) h = rw (h (c ∷ cs), any_suffix-cong f g cs h) refl

any_within-cong :
    (f g : Str → Bool) (s : Str) → ((t : Str) → f t ≡ g t) → any_within f s ≡ any_within g s
unfolding any_within
any_within-cong f g [] h = h []
any_within-cong f g (c ∷ cs) h = rw (h (c ∷ cs), any_within-cong f g cs h) refl

pub glob_from-fuel :
    (f g : ℕ) (p s : Str) → length p < f → length p < g → glob_from f p s ≡ glob_from g p s
unfolding glob_from
glob_from-fuel zero g p s h k = absurd (omega (arith, h))
glob_from-fuel (suc f) zero p s h k = absurd (omega (arith, k))
glob_from-fuel (suc f) (suc g) [] s h k = refl
glob_from-fuel (suc f) (suc g) (c ∷ p) s h k =
    elim (Bool-cases (starts_with (b'*' ∷ b'*' ∷ []) (c ∷ p))) [
      | inl t ↦
          let short = length-drop 1 p in
          rw (glob_from, t)
            (any_suffix-cong (glob_from f (drop 1 p)) (glob_from g (drop 1 p)) s (λ r.
              glob_from-fuel f g (drop 1 p) r (omega (arith, short, h)) (omega (arith, short, k))))
      | inr t ↦ elim (Bool-cases (c == b'*')) [
        | inl u ↦
            rw (glob_from, t, u)
              (any_within-cong (glob_from f p) (glob_from g p) s
                (λ r. glob_from-fuel f g p r (omega arith) (omega arith)))
        | inr u ↦ elim (Bool-cases (c == b'?' && within s)) [
          | inl v ↦
              rw (glob_from, t, u, v) (glob_from-fuel f g p (tail s) (omega arith) (omega arith))
          | inr v ↦ elim (Option-cases (if c == b'[' then class_end p else none)) [
            | inr (n, q) ↦
                let short = length-drop (suc n) p in
                rw (glob_from, t, u, v, q)
                  (ap (λ b. head_is (λ d. glob_class_match d (take n p)) s && b)
                    (glob_from-fuel f g (drop (suc n) p) (tail s) (omega (arith, short, h))
                      (omega (arith, short, k))))
            | inl q ↦
                rw (glob_from, t, u, v, q)
                  (ap (λ b. head_is (λ d. c == d) s && b)
                    (glob_from-fuel f g p (tail s) (omega arith) (omega arith)))
          ]
        ]
      ]
    ]
