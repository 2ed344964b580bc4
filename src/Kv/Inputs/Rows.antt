-- ===== src/Kv/Inputs/Rows.antt =====
-- The rows that the tokens of a batch are written to by `set_input_k_idxs` of
-- code/source/src/llama-kv-cache.cpp are within the tensor and differ.
use gfx906_mixed_cuda_rocm_r.Base.{
  ℕ, zero, suc, ◌+◌, ◌*◌, ◌%◌, ◌≤◌, ◌<◌, ◌≡◌, ◌≢◌, inl, inr, ◌⊎◌, some, List, [], ◌∷◌, ◌==◌, ltb,
  ltb→lt, length, All, All-append, Bool-cases, Option-cases, arith,
}
use gfx906_mixed_cuda_rocm_r.Kv.Slot.{SlotInfo, u32_mod}
use gfx906_mixed_cuda_rocm_r.Kv.Slot.Ring.{Distinct, append-Distinct}
use gfx906_mixed_cuda_rocm_r.Kv.Batch.{slot_size}
use gfx906_mixed_cuda_rocm_r.Kv.Inputs.{offset_rows, stream_rows, set_input_k_idxs}
use gfx906_mixed_cuda_rocm_r.Kv.Valid.Batch.{Within}
use mathlib.Core.Option.{some-injective}
use mathlib.Core.Path.{subst}
use native.Mathlib.Nat.{mul-le-mul_right, suc-mul}

-- What `offset_rows` gives is in the interval of its stream, and no entry twice.
offset_rows-All :
    (offs kv n : ℕ) (l rows : List ℕ)
    → All (λ i. i < kv) l
    → offset_rows offs n l ≡ some rows
    → All (λ x. (offs ≤ x) × (x < offs + kv)) rows
unfolding offset_rows
offset_rows-All offs kv zero l rows a e =
    subst (All (λ x. (offs ≤ x) × (x < offs + kv))) (some-injective _ _ e) tt
offset_rows-All offs kv (suc n) [] rows a e = cc
offset_rows-All offs kv (suc n) (i ∷ l) rows a e = elim (Option-cases (offset_rows offs n l)) [
  | inl q ↦ cc (rw (offset_rows, q) at e)
  | inr q ↦
      subst (All (λ x. (offs ≤ x) × (x < offs + kv)))
        (some-injective _ _ (rw (offset_rows, q.1) at e))
        ((omega arith, omega (arith, a.0)), offset_rows-All offs kv n l q.0 a.1 q.1)
]

offset_rows-fresh :
    (offs n i : ℕ) (l rows : List ℕ)
    → All (λ j. i ≢ j) l
    → offset_rows offs n l ≡ some rows
    → All (λ x. offs + i ≢ x) rows
unfolding offset_rows
offset_rows-fresh offs zero i l rows a e = subst (All (λ x. offs + i ≢ x)) (some-injective _ _ e) tt
offset_rows-fresh offs (suc n) i [] rows a e = cc
offset_rows-fresh offs (suc n) i (j ∷ l) rows a e = elim (Option-cases (offset_rows offs n l)) [
  | inl q ↦ cc (rw (offset_rows, q) at e)
  | inr q ↦
      subst (All (λ x. offs + i ≢ x)) (some-injective _ _ (rw (offset_rows, q.1) at e))
        ((λ p. a.0 (omega (arith, p))), offset_rows-fresh offs n i l q.0 a.1 q.1)
]

offset_rows-Distinct :
    (offs n : ℕ) (l rows : List ℕ) → Distinct l → offset_rows offs n l ≡ some rows → Distinct rows
unfolding offset_rows Distinct
offset_rows-Distinct offs zero l rows d e = subst Distinct (some-injective _ _ e) tt
offset_rows-Distinct offs (suc n) [] rows d e = cc
offset_rows-Distinct offs (suc n) (i ∷ l) rows d e = elim (Option-cases (offset_rows offs n l)) [
  | inl q ↦ cc (rw (offset_rows, q) at e)
  | inr q ↦
      subst Distinct (some-injective _ _ (rw (offset_rows, q.1) at e))
        (offset_rows-fresh offs n i l q.0 d.0 q.1, offset_rows-Distinct offs n l q.0 d.1 q.1)
]

All_map : {P Q : ℕ → Type 0} (xs : List ℕ) → ((x : ℕ) → P x → Q x) → All P xs → All Q xs
All_map [] f a = tt
All_map (x ∷ xs) f a = (f x a.0, All_map xs f a.1)

next_block : (a b kv : ℕ) → a < b → a * kv + kv ≤ b * kv
next_block a b kv h = omega (arith, mul-le-mul_right {m = suc a} {n = b} kv h, suc-mul a kv)

-- The numbers of a stream's block, and those outside it.
abbrev InBlock : ℕ → ℕ → ℕ → Type 0
InBlock kv st x = (st * kv ≤ x) × (x < st * kv + kv)

abbrev OffBlock : ℕ → ℕ → ℕ → Type 0
OffBlock kv st x = (x < st * kv) ⊎ (st * kv + kv ≤ x)

InBlock-OffBlock : (kv a b x : ℕ) → a ≢ b → InBlock kv b x → OffBlock kv a x
InBlock-OffBlock kv a b x n p = elim (Bool-cases (ltb a b)) [
  | inl t ↦ inr (omega (arith, next_block a b kv (ltb→lt a b t), p))
  | inr t ↦ inl (omega (arith, next_block b a kv (ground (arith, t)), p))
]

-- The offset of a stream that is there does not wrap around.
offset_fits : (kv ns st : ℕ) → ns * kv ≤ u32_mod → st < ns → 1 ≤ kv → (st * kv) % u32_mod ≡ st * kv
offset_fits kv ns st b h o = omega (arith, next_block st ns kv h)

module _ (kv ns n : ℕ) (b : ns * kv ≤ u32_mod) (o : 1 ≤ kv) where
  abbrev offs : ℕ → ℕ
  offs st = (st * kv) % u32_mod

  block_rows :
      (st : ℕ) (l rows : List ℕ)
      → st < ns
      → All (λ i. i < kv) l
      → offset_rows (offs st) n l ≡ some rows
      → All (InBlock kv st) rows
  block_rows st l rows h a e =
      subst (λ x. All (λ y. (x ≤ y) × (y < x + kv)) rows) (offset_fits kv ns st b h o)
        (offset_rows-All (offs st) kv n l rows a e)

  stream_rows-Off :
      (a : ℕ) (strm : List ℕ) (ls : List (List ℕ)) (rows : List ℕ)
      → All (λ s. a ≢ s) strm
      → All (λ s. s < ns) strm
      → Within kv ls
      → stream_rows offs n strm ls ≡ some rows
      → All (OffBlock kv a) rows
  unfolding stream_rows Within
  stream_rows-Off a [] ls rows d h w e = subst (All (OffBlock kv a)) (some-injective _ _ e) tt
  stream_rows-Off a (st ∷ strm) [] rows d h w e = cc
  stream_rows-Off a (st ∷ strm) (l ∷ ls) rows d h w e =
      elim (Option-cases (offset_rows (offs st) n l)) [
        | inl q ↦ cc (rw (stream_rows, q) at e)
        | inr q ↦ elim (Option-cases (stream_rows offs n strm ls)) [
          | inl p ↦ cc (rw (stream_rows, q.1, p) at e)
          | inr p ↦
              subst (All (OffBlock kv a)) (some-injective _ _ (rw (stream_rows, q.1, p.1) at e)) (
                All-append (OffBlock kv a) q.0 p.0
                  (All_map q.0 (λ x. InBlock-OffBlock kv a st x d.0)
                    (block_rows st l q.0 h.0 w.0 q.1))
                  (stream_rows-Off a strm ls p.0 d.1 h.1 w.1 p.1))
        ]
      ]

  stream_rows-Distinct :
      (strm : List ℕ) (ls : List (List ℕ)) (rows : List ℕ)
      → Distinct strm
      → All (λ s. s < ns) strm
      → Within kv ls
      → All Distinct ls
      → stream_rows offs n strm ls ≡ some rows
      → Distinct rows
  unfolding stream_rows Within Distinct
  stream_rows-Distinct [] ls rows d h w f e = subst Distinct (some-injective _ _ e) tt
  stream_rows-Distinct (st ∷ strm) [] rows d h w f e = cc
  stream_rows-Distinct (st ∷ strm) (l ∷ ls) rows d h w f e =
      elim (Option-cases (offset_rows (offs st) n l)) [
        | inl q ↦ cc (rw (stream_rows, q) at e)
        | inr q ↦ elim (Option-cases (stream_rows offs n strm ls)) [
          | inl p ↦ cc (rw (stream_rows, q.1, p) at e)
          | inr p ↦ subst Distinct (some-injective _ _ (rw (stream_rows, q.1, p.1) at e)) (
              append-Distinct q.0 p.0 (offset_rows-Distinct (offs st) n l q.0 f.0 q.1)
                (stream_rows-Distinct strm ls p.0 d.1 h.1 w.1 f.1 p.1)
                (All_map q.0
                  (λ x i.
                    All_map p.0 (λ y u. apart st x y i u)
                      (stream_rows-Off st strm ls p.0 d.0 h.1 w.1 p.1))
                  (block_rows st l q.0 h.0 w.0 q.1)))
        ]
      ]
    where
      apart : (st x y : ℕ) → InBlock kv st x → OffBlock kv st y → x ≢ y
      apart st x y i (inl u) = omega (arith, i)
      apart st x y i (inr u) = omega (arith, i)

  stream_rows-All :
      (strm : List ℕ) (ls : List (List ℕ)) (rows : List ℕ)
      → All (λ s. s < ns) strm
      → Within kv ls
      → stream_rows offs n strm ls ≡ some rows
      → All (λ x. x < ns * kv) rows
  unfolding stream_rows Within
  stream_rows-All [] ls rows h w e = subst (All (λ x. x < ns * kv)) (some-injective _ _ e) tt
  stream_rows-All (st ∷ strm) [] rows h w e = cc
  stream_rows-All (st ∷ strm) (l ∷ ls) rows h w e =
      elim (Option-cases (offset_rows (offs st) n l)) [
        | inl q ↦ cc (rw (stream_rows, q) at e)
        | inr q ↦ elim (Option-cases (stream_rows offs n strm ls)) [
          | inl p ↦ cc (rw (stream_rows, q.1, p) at e)
          | inr p ↦
              subst (All (λ x. x < ns * kv)) (some-injective _ _ (rw (stream_rows, q.1, p.1) at e))
                (All-append (λ x. x < ns * kv) q.0 p.0
                  (All_map q.0 (λ x i. omega (arith, i, next_block st ns kv h.0))
                    (block_rows st l q.0 h.0 w.0 q.1))
                  (stream_rows-All strm ls p.0 h.1 w.1 p.1))
        ]
      ]

-- For a slot in different streams of a cache with one or more cells in each, with indices within the
-- cells and none twice in a stream, the tokens of a batch are written to different rows, all within the
-- tensor, when it has at most 2 ^ 32 rows.
pub set_input_k_idxs-Distinct :
    (kv ns n_tokens : ℕ) (slot : SlotInfo) (rows : List ℕ)
    → ns * kv ≤ u32_mod
    → 1 ≤ kv
    → Distinct slot.strm
    → All (λ s. s < ns) slot.strm
    → Within kv slot.idxs
    → All Distinct slot.idxs
    → set_input_k_idxs kv n_tokens slot ≡ some rows
    → Distinct rows × All (λ x. x < ns * kv) rows
unfolding set_input_k_idxs
set_input_k_idxs-Distinct kv ns n_tokens slot rows b o d h w f e =
    elim (Bool-cases (n_tokens == slot_size slot * length slot.strm)) [
      | inr t ↦ cc (rw (set_input_k_idxs, t) at e)
      | inl t ↦ (
        stream_rows-Distinct kv ns (slot_size slot) b o slot.strm slot.idxs rows d h w f
            (rw (set_input_k_idxs, t) at e),
        stream_rows-All kv ns (slot_size slot) b o slot.strm slot.idxs rows h w
            (rw (set_input_k_idxs, t) at e),
      )
    ]
