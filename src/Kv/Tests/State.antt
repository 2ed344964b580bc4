-- ===== src/Kv/Tests/State.antt =====
-- Runs of `state_write` and `state_read` (code/source/src/llama-kv-cache.cpp) on cells made of lists, and
-- the theorems on them.
use gfx906_mixed_cuda_rocm_r.Base.{
  ℕ, ◌≡◌, refl, true, false, Option, none, some, List, [], ◌∷◌, length, map, replicate,
}
use gfx906_mixed_cuda_rocm_r.Base.Int.{ℤ, pos, negsuc, pos_part}
use gfx906_mixed_cuda_rocm_r.Kv.{Cache, cache_clear}
use gfx906_mixed_cuda_rocm_r.Kv.Slot.{Ubatch}
use gfx906_mixed_cuda_rocm_r.Kv.Slot.Ring.{range, keep}
use gfx906_mixed_cuda_rocm_r.Kv.State.{
  CellState, StreamState, ranges_loop, cell_ranges, count_check, chosen, seqs_of, write_cell,
  write_range, state_write_meta, pack_stream, write_stream,
}
use gfx906_mixed_cuda_rocm_r.Kv.State.Read.{
  Reader, Thrown, nothing, failed_to_restore, read_failed, read_dims, read_seqs, extend_cell,
  read_cells, placed_cells, read_stream, state_read_meta, drop_restored, fail_restore,
  target_stream, read_part, read_streams, state_read,
}
use gfx906_mixed_cuda_rocm_r.Kv.State.Written.{write_stream_lem}
use gfx906_mixed_cuda_rocm_r.Kv.State.Failure.{Told, state_read-Told}
use gfx906_mixed_cuda_rocm_r.Kv.Tests.{Cell, blank, list_ops, unmasked, four}

write_stream_lem_example :
    write_stream list_ops 2 false (negsuc 0) four
    ≡ some (record {
      cell_count = length (keep (chosen list_ops 2 false (negsuc 0) four) (range 0 4));
      metas =
          map
            (write_cell list_ops 2 false (negsuc 0) four)
            (keep (chosen list_ops 2 false (negsuc 0) four) (range 0 4));
    })
write_stream_lem_example = write_stream_lem list_ops 2 false (negsuc 0) four

abbrev entry : ℤ → ℤ → CellState Unit
entry s p = record { cell_pos = p; seq_ids = s ∷ []; ext = none }

abbrev part : List (CellState Unit) → StreamState Unit
part ms = record { cell_count = length ms; metas = ms }

-- The taken cells of `four`, with a gap between them.
four_written :
    write_stream list_ops 2 false (negsuc 0) four
    ≡ some (part (entry (pos 0) (pos 7) ∷ entry (pos 0) (pos 8) ∷ []))
unfolding write_stream pack_stream cell_ranges ranges_loop count_check chosen seqs_of write_cell
    write_range state_write_meta
four_written = refl

-- A state is the list of the numbers that are written; the data of the tensors is always there.
abbrev next_int : List ℤ → Option (ℤ × List ℤ)
next_int [] = none
next_int (x ∷ xs) = some (x, xs)

abbrev next_nat : List ℤ → Option (ℕ × List ℤ)
next_nat [] = none
next_nat (x ∷ xs) = some (pos_part x, xs)

abbrev list_reader : Reader (List ℤ) Unit
list_reader = record {
  read_i32 = next_int;
  read_u32 = next_nat;
  read_ext = λ io. some (tt, io);
  read_data = λ st n slot io. some (true, io);
  ext_x = λ x. pos 0;
  ext_y = λ x. pos 0;
  is_2d = false;
  n_seq_max = 2;
}

-- A state of one sequence is not read here.
abbrev reserved : ℕ → Ubatch
reserved n = record {
  n_tokens = n;
  n_seqs_unq = 1;
  seq_id_unq = 0 ∷ [];
  n_seq_id = [];
  seq_id = [];
  positions = [];
  is_pos_2d = false;
}

abbrev restored : List ℤ → Cache (List Cell) → Option (Cache (List Cell) × Thrown)
restored io c = state_read list_ops list_reader unmasked reserved (negsuc 0) io c

-- The number of streams, then for each the number of cells, and a cell with a position and sequence.
abbrev two_cells : ℤ → List ℤ
two_cells s = pos 2 ∷ pos 1 ∷ pos 5 ∷ pos 1 ∷ pos 0 ∷ pos 1 ∷ pos 6 ∷ pos 1 ∷ s ∷ []

abbrev streams : List (List Cell) → Cache (List Cell)
streams ks = record {
  seq_to_stream = 0 ∷ 1 ∷ [];
  v_cells = ks;
  v_heads = 0 ∷ 0 ∷ [];
  ssrc = [];
  sdst = [];
}

-- Both streams of the state hold a cell, but what is read into the first is cleared by the second.
first_lost :
    restored (two_cells (pos 1)) (streams (replicate 1 blank ∷ replicate 1 blank ∷ []))
    ≡ some (streams ((blank ∷ []) ∷ ((1 ∷ [], pos 6) ∷ []) ∷ []), nothing)
unfolding state_read read_streams read_part state_read_meta read_stream read_cells read_seqs
    read_dims extend_cell target_stream cache_clear placed_cells
first_lost = refl

-- Sequence 9 is out of range.
refuses :
    restored (two_cells (pos 9)) (streams (((1 ∷ [], pos 2) ∷ []) ∷ replicate 1 blank ∷ []))
    ≡ some (streams ((blank ∷ []) ∷ (blank ∷ []) ∷ []), failed_to_restore)
unfolding state_read read_streams read_part state_read_meta read_stream read_cells read_seqs
    read_dims extend_cell target_stream cache_clear placed_cells drop_restored fail_restore
refuses = refl

-- A state that ends behind a position leaves the cell with the position alone.
ends_early :
    restored
      (pos 2 ∷ pos 1 ∷ pos 5 ∷ pos 1 ∷ [])
      (streams (((1 ∷ [], pos 2) ∷ []) ∷ replicate 1 blank ∷ []))
    ≡ some (streams ((([], pos 5) ∷ []) ∷ (blank ∷ []) ∷ []), read_failed)
unfolding state_read read_streams read_part state_read_meta read_stream read_cells read_seqs
    read_dims extend_cell target_stream cache_clear placed_cells
ends_early = refl

state_read-Told_example :
    (r : Cache (List Cell) × Thrown) × (restored
        (two_cells (pos 1))
        (streams (replicate 1 blank ∷ replicate 1 blank ∷ []))
      ≡ some r)
    × Told list_ops (streams (replicate 1 blank ∷ replicate 1 blank ∷ [])) (some 2) r
state_read-Told_example =
    state_read-Told list_ops list_reader unmasked reserved (two_cells (pos 1))
      (streams (replicate 1 blank ∷ replicate 1 blank ∷ []))
