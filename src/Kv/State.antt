-- ===== src/Kv/State.antt =====
-- `llama_kv_cache::state_write`, `state_read` and their parts for the cells
-- (code/source/src/llama-kv-cache.cpp). A state that is written is a list of what is written for
-- each stream, and `none` is an assertion that fails. The data of the tensors is left out.
pub mod Read
pub mod Ranges
pub mod Written
pub mod Sizes
pub mod Failure
pub mod Valid
use gfx906_mixed_cuda_rocm_r.Base.{
  ℕ, zero, suc, ◌+◌, ◌-◌, ◌*◌, Bool, true, false, not, ◌&&◌, ◌||◌, Option, none, some, List, [],
  ◌∷◌, ◌++◌, ltb, leb, ◌==◌, if◌then◌else◌, length, get_elem?, get_or, set, replicate,
}
use gfx906_mixed_cuda_rocm_r.Base.Int.{ℤ, pos, negsuc, is_negative, is_zero, pos_part, ◌-ℤ◌}
use gfx906_mixed_cuda_rocm_r.Kv.{CellOps, Cache, cache_seq_rm, cache_clear, count}
use gfx906_mixed_cuda_rocm_r.Kv.Slot.{Ubatch, SlotInfo, find_slot}
use gfx906_mixed_cuda_rocm_r.Kv.Batch.{apply_ubatch, is_empty_list, is_minus_one}

-- What is written for a cell. `ext` is there for positions of several dimensions.
pub record CellState (E : Type 0) : Type 0 where
  pub cell_pos : ℤ
  pub seq_ids : List ℤ
  pub ext : Option E

-- What is written for a stream.
pub record StreamState (E : Type 0) : Type 0 where
  pub cell_count : ℕ
  pub metas : List (CellState E)

-- The loop over the cells, `n` of them from `i` on: how many are chosen, where the open range begins (at
-- `size` when there is none), and the closed ranges.
unfoldable pub ranges_loop : (ℕ → Bool) → ℕ → ℕ → ℕ → ℕ → ℕ → List (ℕ × ℕ) → ℕ × ℕ × List (ℕ × ℕ)
ranges_loop chosen size zero i cell_count begin closed = (cell_count, begin, closed)
ranges_loop chosen size (suc n) i cell_count begin closed = elim (chosen i) [
  | true ↦
      ranges_loop chosen size n (i + 1) (cell_count + 1) (if begin == size then i else begin) closed
  | false ↦
      ranges_loop chosen size n (i + 1) cell_count size
        (if begin == size then closed else closed ++ (begin, i) ∷ [])
]

-- The number of chosen cells, and the ranges.
unfoldable pub cell_ranges : (ℕ → Bool) → ℕ → ℕ × List (ℕ × ℕ)
unfolding ranges_loop
cell_ranges chosen size =
    let r : ℕ × ℕ × List (ℕ × ℕ) = ranges_loop chosen size size 0 0 size [] in
    (r.0, if r.1 == size then r.2 else r.2 ++ (r.1, size) ∷ [])

unfoldable pub count_check : List (ℕ × ℕ) → ℕ
count_check [] = 0
count_check (r ∷ rs) = (r.1 - r.0) + count_check rs

-- Whether `seq_id`, or -1, takes sequence `cur`.
abbrev pub takes_seq : ℤ → ℕ → Bool
takes_seq (pos s) cur = cur == s
takes_seq (negsuc zero) cur = true
takes_seq (negsuc (suc n)) cur = false

module _ {C E : Type 0} (ops : CellOps C E) (n_seq_max : ℕ) (pos_2d : Bool) where
  open ops use {size, is_empty, seq_has, pos_get, ext_get, pos_set, ext_set, seq_add}

  -- The cells of a sequence, or of all for -1.
  unfoldable pub chosen : ℤ → C → ℕ → Bool
  chosen seq_id cells i =
      not (is_empty cells i) && (is_minus_one seq_id || seq_has cells i (pos_part seq_id))

  -- The sequences of a cell from `cur` on, `n` of them.
  unfoldable pub seqs_of : ℤ → C → ℕ → ℕ → ℕ → List ℤ
  seqs_of seq_id cells i zero cur = []
  seqs_of seq_id cells i (suc n) cur =
      let rest : List ℤ = seqs_of seq_id cells i n (cur + 1) in
      if takes_seq seq_id cur && seq_has cells i cur then pos cur ∷ rest else rest

  unfoldable pub write_cell : ℤ → C → ℕ → CellState E
  unfolding seqs_of
  write_cell seq_id cells i = record {
    cell_pos = pos_get cells i;
    seq_ids = seqs_of seq_id cells i n_seq_max 0;
    ext = if pos_2d then some (ext_get cells i) else none;
  }

  unfoldable pub write_range : ℤ → C → ℕ → ℕ → List (CellState E)
  unfolding write_cell
  write_range seq_id cells zero i = []
  write_range seq_id cells (suc n) i =
      write_cell seq_id cells i ∷ write_range seq_id cells n (i + 1)

  unfoldable pub state_write_meta : ℤ → C → List (ℕ × ℕ) → List (CellState E)
  unfolding write_range
  state_write_meta seq_id cells [] = []
  state_write_meta seq_id cells (r ∷ rs) =
      write_range seq_id cells (r.1 - r.0) r.0 ++ state_write_meta seq_id cells rs

  -- The part of a stream, from the number of cells and the ranges.
  unfoldable pub pack_stream : ℤ → C → ℕ × List (ℕ × ℕ) → Option (StreamState E)
  unfolding count_check state_write_meta
  pack_stream seq_id cells r =
      if not (r.0 == count_check r.1)
      then none
      else some (record {
        cell_count = r.0;
        metas = if r.0 == 0 then [] else state_write_meta seq_id cells r.1;
      })

  unfoldable pub write_stream : ℤ → C → Option (StreamState E)
  unfolding cell_ranges chosen pack_stream
  write_stream seq_id cells =
      pack_stream seq_id cells (cell_ranges (chosen seq_id cells) (size cells))

  unfoldable pub state_write : ℤ → List C → Option (List (StreamState E))
  unfolding write_stream
  state_write seq_id [] = some []
  state_write seq_id (cells ∷ rest) = elim (write_stream seq_id cells) [
    | none ↦ none
    | some s ↦ elim (state_write seq_id rest) [ none ↦ none | some ss ↦ some (s ∷ ss) ]
  ]
