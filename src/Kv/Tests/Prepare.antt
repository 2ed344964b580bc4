-- ===== src/Kv/Tests/Prepare.antt =====
-- Runs of `prepare` and of the operations (code/source/src/llama-kv-cache.cpp) on cells made of lists,
-- and the theorems on them.
use gfx906_mixed_cuda_rocm_r.Base.{
  ℕ, ◌+◌, ◌<◌, ◌≡◌, refl, false, some, List, [], ◌∷◌, arith, All, replicate,
}
use gfx906_mixed_cuda_rocm_r.Base.Int.{pos}
use gfx906_mixed_cuda_rocm_r.Kv.{Cache, first_cache}
use gfx906_mixed_cuda_rocm_r.Kv.Slot.{
  Ubatch, SlotInfo, find_in_stream, find_slot, test_cells, search_slot, can_use, start_head,
  after_tests, find_streams, one_sequence,
}
use gfx906_mixed_cuda_rocm_r.Kv.Batch.{
  prepare, try_ubatch, try_ubatches, restore, restore_streams, save_cells, apply_ubatch,
  place_streams, place_cells, overwrite, place_token, add_seqs, purge, purge_seq, move_heads, back,
}
use gfx906_mixed_cuda_rocm_r.Kv.Valid.{IsValid}
use gfx906_mixed_cuda_rocm_r.Kv.Valid.Batch.{Within, set_head-IsValid}
use gfx906_mixed_cuda_rocm_r.Kv.Valid.Copy.{first_cache-IsValid}
use gfx906_mixed_cuda_rocm_r.Kv.Valid.Prepare.{prepare-Within}
use gfx906_mixed_cuda_rocm_r.Kv.Valid.Placed.{find_slot-apply_ubatch}
use gfx906_mixed_cuda_rocm_r.Kv.Valid.Heads.{prepare-v_heads}
use gfx906_mixed_cuda_rocm_r.Kv.Valid.Reach.{Reach-IsValid, built, after, prepares}
use gfx906_mixed_cuda_rocm_r.Kv.Tests.{
  Cell, list_ops, blank, list_ops-KeepsSize, list_ops-KeepsOthers, unmasked,
}

-- One token of a sequence.
abbrev token : ℕ → Ubatch
token s = record {
  n_tokens = 1;
  n_seqs_unq = 1;
  seq_id_unq = s ∷ [];
  n_seq_id = 1 ∷ [];
  seq_id = (s ∷ []) ∷ [];
  positions = pos 0 ∷ [];
  is_pos_2d = false;
}

abbrev fresh : Cache (List Cell)
fresh = first_cache list_ops 1 4

abbrev first_slot : SlotInfo
first_slot = record { s0 = 0; s1 = 0; strm = 0 ∷ []; idxs = (0 ∷ []) ∷ [] }

prepared : prepare list_ops unmasked (token 0 ∷ []) fresh ≡ some (fresh, first_slot ∷ [])
unfolding prepare try_ubatches try_ubatch restore restore_streams save_cells apply_ubatch
    place_streams place_cells overwrite place_token add_seqs purge purge_seq move_heads find_slot
    find_streams one_sequence find_in_stream search_slot test_cells after_tests can_use start_head
    first_cache
prepared = refl

slot_found : find_slot list_ops unmasked fresh (token 0) false ≡ some first_slot
unfolding find_slot find_streams one_sequence find_in_stream search_slot test_cells after_tests
    can_use start_head first_cache
slot_found = refl

find_slot-apply_ubatch_example :
    (c' : Cache (List Cell)) × (last : ℕ) × (apply_ubatch list_ops first_slot (token 0) fresh
      ≡ some c')
    × (back (0 ∷ []) ≡ some last)
    × (last < 4)
    × (c'.v_heads ≡ (last + 1) ∷ [])
unfolding first_cache
find_slot-apply_ubatch_example =
    find_slot-apply_ubatch list_ops list_ops-KeepsSize list_ops-KeepsOthers unmasked fresh (token 0)
      4 first_slot (omega arith)
      (first_cache-IsValid list_ops list_ops-KeepsSize 4 1 1 (omega arith)) (omega arith)
      (omega arith) slot_found refl

prepare-Within_example : All (λ s. Within 4 s.idxs) (first_slot ∷ [])
prepare-Within_example =
    prepare-Within list_ops list_ops-KeepsSize 4 1 (omega arith) unmasked (token 0 ∷ []) fresh
      (fresh, first_slot ∷ []) (first_cache-IsValid list_ops list_ops-KeepsSize 4 1 1 (omega arith))
      prepared

-- The head at 2: the token goes to cell 2 in the trial, which moves the head to 3.
abbrev moved : Cache (List Cell)
moved = record fresh { v_heads = 2 ∷ [] }

abbrev second_slot : SlotInfo
second_slot = record { s0 = 0; s1 = 0; strm = 0 ∷ []; idxs = (2 ∷ []) ∷ [] }

prepared_moved : prepare list_ops unmasked (token 0 ∷ []) moved ≡ some (moved, second_slot ∷ [])
unfolding prepare try_ubatches try_ubatch restore restore_streams save_cells apply_ubatch
    place_streams place_cells overwrite place_token add_seqs purge purge_seq move_heads find_slot
    find_streams one_sequence find_in_stream search_slot test_cells after_tests can_use start_head
    first_cache
prepared_moved = refl

moved-IsValid : IsValid list_ops 4 1 moved
unfolding first_cache
moved-IsValid =
    set_head-IsValid list_ops list_ops-KeepsSize 4 1 fresh 0 2
      (first_cache-IsValid list_ops list_ops-KeepsSize 4 1 1 (omega arith)) (omega arith)

prepare-v_heads_example : moved.v_heads ≡ 2 ∷ []
prepare-v_heads_example =
    prepare-v_heads list_ops list_ops-KeepsSize unmasked 4 (omega arith) (token 0 ∷ []) moved
      (moved, second_slot ∷ []) moved-IsValid prepared_moved

Reach-IsValid_example : IsValid list_ops 4 1 fresh
Reach-IsValid_example =
    Reach-IsValid list_ops list_ops-KeepsSize unmasked 4 1 (omega arith) (omega arith) fresh
      (after fresh fresh built (prepares (token 0 ∷ []) fresh (fresh, first_slot ∷ []) prepared))

-- Two streams, with the head of the first at 3. A batch of sequence 1 alone is placed in the second
-- stream, whose head then stays at 3.
abbrev two_streams : Cache (List Cell)
two_streams = record {
  seq_to_stream = 0 ∷ 1 ∷ [];
  v_cells = replicate 4 blank ∷ replicate 4 blank ∷ [];
  v_heads = 3 ∷ 0 ∷ [];
  ssrc = [];
  sdst = [];
}

head_mixed :
    prepare list_ops unmasked (token 1 ∷ []) two_streams
    ≡ some (
      record two_streams { v_heads = 3 ∷ 3 ∷ [] },
      record { s0 = 1; s1 = 1; strm = 1 ∷ []; idxs = (0 ∷ []) ∷ [] } ∷ [],
    )
unfolding prepare try_ubatches try_ubatch restore restore_streams save_cells apply_ubatch
    place_streams place_cells overwrite place_token add_seqs purge purge_seq move_heads find_slot
    find_streams one_sequence find_in_stream search_slot test_cells after_tests can_use start_head
    first_cache
head_mixed = refl
