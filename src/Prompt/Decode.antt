-- ===== src/Prompt/Decode.antt =====
-- `common_prompt_batch_decode` of code/source/common/common.cpp.
use gfx906_mixed_cuda_rocm_r.Base.{
  ℕ, suc, ◌+◌, ◌≤◌, ◌<◌, ◌≡◌, ◌⊎◌, inl, inr, refl, ap, Bool, true, false, ◌&&◌, Option, none, some,
  List, [], ◌∷◌, ltb, leb, Bool-cases, length, arith,
}
use gfx906_mixed_cuda_rocm_r.Prompt.{
  Session, but_last, last_of, decode_saving, decode_whole, common_prompt_batch_decode,
}
use mathlib.Core.Option.{some-injective}
use mathlib.Core.Path.{subst}

length-but_last : (t : ℕ) (ts : List ℕ) → length (but_last (t ∷ ts)) ≡ length ts
unfolding but_last
length-but_last t [] = refl
length-but_last t (u ∷ ts) = ap suc (length-but_last u ts)

-- Where the position may be after decoding `n` tokens from `before` on.
abbrev pub Moved : ℕ → ℕ → Bool → ℕ → Type 0
Moved before n ok after =
    (before ≤ after)
    × (after ≤ before + n)
    × ((ok ≡ true) ⊎ (after < before + n))
    × ((ok ≡ false) ⊎ (after ≡ before + n))

module _ {Ctx : Type 0} (decode : Ctx → List ℕ → Option ℕ → Bool × Ctx) where
  Advanced : List ℕ → Session Ctx → Bool × Session Ctx → Type 0
  Advanced tokens s r = Moved s.n_past (length tokens) r.0 r.1.n_past

  decode_saving-Advanced :
      (t : ℕ) (ts : List ℕ) (s : Session Ctx) → Advanced (t ∷ ts) s (decode_saving decode t ts s)
  unfolding decode_saving Advanced
  decode_saving-Advanced t ts s =
      let n = length-but_last t ts in
      elim (Bool-cases (decode s.ctx (but_last (t ∷ ts)) none).0) [
        | inr q ↦ rw (decode_saving, q) (omega arith, omega arith, inr (omega arith), inl refl)
        | inl q ↦
            elim (Bool-cases
              (decode (decode s.ctx (but_last (t ∷ ts)) none).1 (last_of t ts ∷ [])
                (some (s.n_past + length (but_last (t ∷ ts))))).0) [
                  | inr p ↦
                      rw (decode_saving, q, p)
                        (omega arith, omega (arith, n), inr (omega (arith, n)), inl refl)
                  | inl p ↦
                      rw (decode_saving, q, p)
                        (omega arith, omega (arith, n), inl refl, inr (omega (arith, n)))
                ]
      ]

  decode_whole-Advanced :
      (t : ℕ) (ts : List ℕ) (s : Session Ctx) → Advanced (t ∷ ts) s (decode_whole decode (t ∷ ts) s)
  unfolding decode_whole Advanced
  decode_whole-Advanced t ts s = elim (Bool-cases (decode s.ctx (t ∷ ts) none).0) [
    | inl q ↦ rw q (omega arith, omega arith, inl refl, inr refl)
    | inr q ↦ rw q (omega arith, omega arith, inr (omega arith), inl refl)
  ]

  -- Decoding a prompt that does not abort moves the position by the number of its tokens when it
  -- succeeds, and by less when it fails.
  pub common_prompt_batch_decode_lem :
      (tokens : List ℕ) (n_batch : ℕ) (save_state : Bool) (s s' : Session Ctx) (ok : Bool)
      → common_prompt_batch_decode decode tokens n_batch save_state s ≡ some (ok, s')
      → Moved s.n_past (length tokens) ok s'.n_past
  unfolding common_prompt_batch_decode Advanced
  common_prompt_batch_decode_lem [] n_batch save_state s s' ok h =
      subst (Advanced [] s) (some-injective _ _ h)
        (omega arith, omega arith, inl refl, inr (omega arith))
  common_prompt_batch_decode_lem (t ∷ ts) n_batch save_state s s' ok h =
      elim (Bool-cases (save_state && ltb 1 (length (t ∷ ts)))) [
        | inr f ↦
            subst (Advanced (t ∷ ts) s)
              (some-injective _ _ (rw (common_prompt_batch_decode, f) at h))
              (decode_whole-Advanced t ts s)
        | inl q ↦ elim (Bool-cases (leb (length (t ∷ ts)) n_batch)) [
          | inr f ↦ cc (rw (common_prompt_batch_decode, q, f) at h)
          | inl p ↦
              subst (Advanced (t ∷ ts) s)
                (some-injective _ _ (rw (common_prompt_batch_decode, q, p) at h))
                (decode_saving-Advanced t ts s)
        ]
      ]
