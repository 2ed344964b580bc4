-- ===== src/Prompt/Restore.antt =====
-- The checkpoints of code/source/common/common.cpp: what is loaded is what was saved.
use gfx906_mixed_cuda_rocm_r.Base.{
  ℕ, ◌<◌, ◌≡◌, refl, false, some, List, [], ◌∷◌, ==-refl, length, arith,
}
use gfx906_mixed_cuda_rocm_r.Prompt.{
  Checkpoint, empty, read_state, write_state, update_tgt, load_tgt,
}

module _ {Ctx : Type 0} (get_size : Ctx → ℕ → ℕ → ℕ) (get_data : Ctx → ℕ → ℕ → List ℕ)
    (set_data : Ctx → List ℕ → ℕ → ℕ → Ctx × ℕ) where
  write_state_lem :
      (ctx : Ctx) (bytes : List ℕ) (seq_id flags : ℕ)
      → 0 < length bytes
      → (set_data ctx bytes seq_id flags).1 ≡ length bytes
      → write_state get_size get_data set_data ctx bytes seq_id flags
        ≡ some (set_data ctx bytes seq_id flags).0
  unfolding write_state
  write_state_lem ctx [] seq_id flags h e = absurd (omega (arith, h))
  write_state_lem ctx (b ∷ bs) seq_id flags h e =
      rw (write_state, e, ==-refl (length (b ∷ bs))) refl

  -- When the size that a context reports is the number of bytes that it gives, a checkpoint taken of a
  -- sequence succeeds, is not empty, and keeps the other half. Loading it into a context that takes
  -- all the bytes writes exactly the bytes that the first context gave.
  pub load_tgt-update_tgt :
      (ctx ctx' : Ctx) (seq_id flags : ℕ) (c : Checkpoint)
      → get_size ctx seq_id flags ≡ length (get_data ctx seq_id flags)
      → 0 < length (get_data ctx seq_id flags)
      → (set_data ctx' (get_data ctx seq_id flags) seq_id flags).1
        ≡ length (get_data ctx seq_id flags)
      → (c' : Checkpoint) × (update_tgt get_size get_data set_data (some ctx) seq_id flags c
          ≡ some c')
        × (empty c' ≡ false)
        × (c'.data_dft ≡ c.data_dft)
        × (load_tgt get_size get_data set_data (some ctx') seq_id flags c'
            ≡ some (some (set_data ctx' (get_data ctx seq_id flags) seq_id flags).0))
  unfolding update_tgt load_tgt read_state empty
  load_tgt-update_tgt ctx ctx' seq_id flags c e some_bytes taken =
      let bytes = get_data ctx seq_id flags in
      (
        record c { data_tgt = bytes },
        rw (update_tgt, read_state, e, ==-refl (length bytes)) refl,
        ground (arith, some_bytes),
        refl,
        rw (load_tgt, write_state_lem ctx' bytes seq_id flags some_bytes taken) refl,
      )
