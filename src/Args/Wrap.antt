-- ===== src/Args/Wrap.antt =====
-- `break_str_into_lines` of code/source/common/arg.cpp: the words of a long line.
use gfx906_mixed_cuda_rocm_r.Base.{
  ℕ, ◌+◌, ◌≤◌, ◌<◌, ◌≡◌, refl, ◌∙◌, ap, List, [], ◌∷◌, ◌++◌, append_assoc, ltb, Bool-cases, inl,
  inr, length, length-append, All, arith,
}
use gfx906_mixed_cuda_rocm_r.Text.{Str, string_join}
use gfx906_mixed_cuda_rocm_r.Args.{wrap_words}

abbrev pub Short : ℕ → Str → Type 0
Short width l = (0 < length l) × (length l ≤ width)

wrap_words-Short :
    (width c : ℕ) (cs : Str) (words : List Str)
    → Short width (c ∷ cs)
    → All (Short width) words
    → All (Short width) (wrap_words width (c ∷ cs) words)
unfolding wrap_words
wrap_words-Short width c cs [] h ws = (h, tt)
wrap_words-Short width c cs ([] ∷ words) h ws = absurd (omega (arith, ws.0.0))
wrap_words-Short width c cs ((d ∷ ds) ∷ words) h ws =
    elim (Bool-cases (ltb width (length (c ∷ cs) + 1 + length (d ∷ ds)))) [
      | inl t ↦ rw (All, wrap_words, t) (h, wrap_words-Short width d ds words ws.0 ws.1)
      | inr f ↦
          let fits : Short width ((c ∷ cs) ++ b' ' ∷ d ∷ ds) =
            (omega arith, ground (arith, f, length-append cs (b' ' ∷ d ∷ ds))) in
          rw (wrap_words, f) (wrap_words-Short width c (cs ++ b' ' ∷ d ∷ ds) words fits ws.1)
    ]

-- The result has a line.
wrap_words_cons :
    (width c : ℕ) (cs : Str) (words : List Str)
    → All (Short width) words
    → (l : Str) × (ls : List Str) × (wrap_words width (c ∷ cs) words ≡ l ∷ ls)
unfolding wrap_words
wrap_words_cons width c cs [] ws = (c ∷ cs, [], refl)
wrap_words_cons width c cs (word ∷ words) ws =
    elim (Bool-cases (ltb width (length (c ∷ cs) + 1 + length word))) [
      | inl t ↦ (c ∷ cs, wrap_words width word words, rw (wrap_words, t) refl)
      | inr f ↦
          let r = wrap_words_cons width c (cs ++ b' ' ∷ word) words ws.1 in
          (r.0, r.1, rw (wrap_words, f) r.2)
    ]

string_join-append :
    (sep v w : Str) (ws : List Str)
    → string_join ((v ++ (sep ++ w)) ∷ ws) sep ≡ v ++ (sep ++ string_join (w ∷ ws) sep)
unfolding string_join
string_join-append sep v w [] = refl
string_join-append sep v w (x ∷ ws) =
    append_assoc v (sep ++ w) _ ∙ ap (λ y. v ++ y) (append_assoc sep w _)

wrap_words-joined :
    (width c : ℕ) (cs : Str) (words : List Str)
    → All (Short width) words
    → string_join (wrap_words width (c ∷ cs) words) (b' ' ∷ [])
      ≡ string_join ((c ∷ cs) ∷ words) (b' ' ∷ [])
unfolding wrap_words string_join
wrap_words-joined width c cs [] ws = refl
wrap_words-joined width c cs ([] ∷ words) ws = absurd (omega (arith, ws.0.0))
wrap_words-joined width c cs ((d ∷ ds) ∷ words) ws =
    elim (Bool-cases (ltb width (length (c ∷ cs) + 1 + length (d ∷ ds)))) [
      | inl t ↦
          let r = wrap_words_cons width d ds words ws.1 in
          let q = wrap_words-joined width d ds words ws.1 in
          rw (wrap_words, t, r.2) (ap (λ x. (c ∷ cs) ++ (b' ' ∷ x)) (rw r.2 at q))
      | inr f ↦
          rw (wrap_words, f)
            (wrap_words-joined width c (cs ++ b' ' ∷ d ∷ ds) words ws.1
              ∙ string_join-append (b' ' ∷ []) (c ∷ cs) (d ∷ ds) words)
    ]

-- Words that are not empty and fit the width are wrapped into lines that fit it, and the lines joined
-- by spaces are the words joined by spaces.
pub wrap_words_lem :
    (width : ℕ) (words : List Str)
    → All (Short width) words
    → All (Short width) (wrap_words width [] words)
      × (string_join (wrap_words width [] words) (b' ' ∷ []) ≡ string_join words (b' ' ∷ []))
unfolding wrap_words string_join
wrap_words_lem width [] ws = (tt, refl)
wrap_words_lem width ([] ∷ words) ws = absurd (omega (arith, ws.0.0))
wrap_words_lem width ((c ∷ cs) ∷ words) ws =
    (wrap_words-Short width c cs words ws.0 ws.1, wrap_words-joined width c cs words ws.1)
