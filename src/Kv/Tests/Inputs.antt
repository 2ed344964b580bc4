-- ===== src/Kv/Tests/Inputs.antt =====
-- Runs of `set_input_k_idxs` and `set_input_v_idxs` (code/source/src/llama-kv-cache.cpp), and the theorem on
-- the rows.
use gfx906_mixed_cuda_rocm_r.Base.{◌*◌, ◌<◌, ◌≡◌, refl, true, none, some, [], ◌∷◌, All, arith}
use gfx906_mixed_cuda_rocm_r.Kv.Slot.{SlotInfo}
use gfx906_mixed_cuda_rocm_r.Kv.Slot.Ring.{Distinct}
use gfx906_mixed_cuda_rocm_r.Kv.Valid.Batch.{Within}
use gfx906_mixed_cuda_rocm_r.Kv.Inputs.{
  offset_rows, stream_rows, set_input_k_idxs, dim_rows, spread_rows, set_input_v_idxs,
}
use gfx906_mixed_cuda_rocm_r.Kv.Inputs.Rows.{set_input_k_idxs-Distinct}

-- Two tokens in each of two streams of four cells.
abbrev slot : SlotInfo
slot = record { s0 = 0; s1 = 1; strm = 0 ∷ 1 ∷ []; idxs = (1 ∷ 2 ∷ []) ∷ (0 ∷ 3 ∷ []) ∷ [] }

k_rows : set_input_k_idxs 4 4 slot ≡ some (1 ∷ 2 ∷ 4 ∷ 7 ∷ [])
unfolding set_input_k_idxs stream_rows offset_rows
k_rows = refl

-- Five tokens are not what the slot holds.
k_refused : set_input_k_idxs 4 5 slot ≡ none
unfolding set_input_k_idxs
k_refused = refl

-- Transposed values of two dimensions.
v_rows : set_input_v_idxs true 2 4 4 slot ≡ some (1 ∷ 5 ∷ 2 ∷ 6 ∷ 8 ∷ 12 ∷ 11 ∷ 15 ∷ [])
unfolding set_input_v_idxs stream_rows offset_rows spread_rows dim_rows
v_rows = refl

set_input_k_idxs-Distinct_example :
    Distinct (1 ∷ 2 ∷ 4 ∷ 7 ∷ []) × All (λ x. x < 2 * 4) (1 ∷ 2 ∷ 4 ∷ 7 ∷ [])
unfolding Distinct Within
set_input_k_idxs-Distinct_example =
    set_input_k_idxs-Distinct 4 2 4 slot (1 ∷ 2 ∷ 4 ∷ 7 ∷ []) (omega arith) (omega arith)
      (((λ p. omega (arith, p)), tt), (tt, tt)) (omega arith, (omega arith, tt))
      ((omega arith, (omega arith, tt)), ((omega arith, (omega arith, tt)), tt))
      ((((λ p. omega (arith, p)), tt), (tt, tt)), ((((λ p. omega (arith, p)), tt), (tt, tt)), tt))
      k_rows
