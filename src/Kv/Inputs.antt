-- ===== src/Kv/Inputs.antt =====
-- `llama_kv_cache::set_input_k_idxs` and `set_input_v_idxs` (code/source/src/llama-kv-cache.cpp): the rows
-- of the tensors that the tokens of a batch are written to. The loops write the entries in the order of
-- their index, so the tensor is the list of them. `none` is an assertion that fails, or an index out of
-- range. `strm[s]*get_size()` is a product of 32-bit numbers; with transposed values it is of 64 bits.
pub mod Rows
use gfx906_mixed_cuda_rocm_r.Base.{
  ℕ, zero, suc, ◌+◌, ◌*◌, ◌%◌, ◌≤◌, ◌<◌, ◌≡◌, ◌≢◌, refl, ap, sym, ◌∙◌, inl, inr, ◌⊎◌, Bool, true,
  false, not, Option, none, some, List, [], ◌∷◌, ◌++◌, ◌==◌, if◌then◌else◌, length, All, All-append,
  Bool-cases, Option-cases, arith,
}
use gfx906_mixed_cuda_rocm_r.Kv.Slot.{SlotInfo, u32_mod}
use gfx906_mixed_cuda_rocm_r.Kv.Slot.Ring.{Distinct, append-Distinct}
use gfx906_mixed_cuda_rocm_r.Kv.Batch.{slot_size}
use mathlib.Core.Option.{some-injective}
use mathlib.Core.Path.{subst}

-- The first `n` entries, with an offset.
unfoldable pub offset_rows : ℕ → ℕ → List ℕ → Option (List ℕ)
offset_rows offs zero l = some []
offset_rows offs (suc n) [] = none
offset_rows offs (suc n) (i ∷ l) = elim (offset_rows offs n l) [
  | none ↦ none
  | some rest ↦ some ((offs + i) ∷ rest)
]

-- The loop over the streams, with the offset of a stream.
unfoldable pub stream_rows : (ℕ → ℕ) → ℕ → List ℕ → List (List ℕ) → Option (List ℕ)
unfolding offset_rows
stream_rows offs n [] ls = some []
stream_rows offs n (st ∷ strm) [] = none
stream_rows offs n (st ∷ strm) (l ∷ ls) = elim (offset_rows (offs st) n l) [
  | none ↦ none
  | some rows ↦ elim (stream_rows offs n strm ls) [ none ↦ none | some rest ↦ some (rows ++ rest) ]
]

unfoldable pub set_input_k_idxs : ℕ → ℕ → SlotInfo → Option (List ℕ)
unfolding stream_rows
set_input_k_idxs kv_size n_tokens slot =
    if not (n_tokens == slot_size slot * length slot.strm)
    then none
    else stream_rows (λ st. (st * kv_size) % u32_mod) (slot_size slot) slot.strm slot.idxs

-- A row for each of `n` dimensions, from `j` on.
unfoldable pub dim_rows : ℕ → ℕ → ℕ → ℕ → List ℕ
dim_rows kv_size base zero j = []
dim_rows kv_size base (suc n) j = (base + j * kv_size) ∷ dim_rows kv_size base n (j + 1)

unfoldable pub spread_rows : ℕ → ℕ → List ℕ → List ℕ
unfolding dim_rows
spread_rows kv_size n [] = []
spread_rows kv_size n (b ∷ bs) = dim_rows kv_size b n 0 ++ spread_rows kv_size n bs

unfoldable pub set_input_v_idxs : Bool → ℕ → ℕ → ℕ → SlotInfo → Option (List ℕ)
unfolding stream_rows spread_rows
set_input_v_idxs v_trans n_embd kv_size n_tokens slot =
    if not (n_tokens == slot_size slot * length slot.strm)
    then none
    else if not v_trans
    then stream_rows (λ st. (st * kv_size) % u32_mod) (slot_size slot) slot.strm slot.idxs
    else elim (stream_rows (λ st. st * kv_size * n_embd) (slot_size slot) slot.strm slot.idxs) [
      | none ↦ none
      | some bases ↦ some (spread_rows kv_size n_embd bases)
    ]
