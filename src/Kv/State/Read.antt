-- ===== src/Kv/State/Read.antt =====
-- `llama_kv_cache::state_read` and `state_read_meta` (code/source/src/llama-kv-cache.cpp). `none` is an
-- assertion that fails. The state is read through `llama_io_read_i`, a parameter, whose `read` throws
-- when the state ends: the cache is then what was made of it so far. The data of the tensors is left
-- out: `read_data` tells of a stream, the number of its cells and their slot whether it could be read.
-- `reserve n` is `llama_batch_allocr::ubatch_reserve` for `n` tokens of one sequence.
use gfx906_mixed_cuda_rocm_r.Base.{
  ℕ, zero, suc, ◌+◌, ◌*◌, Bool, true, false, ◌&&◌, ◌||◌, Option, none, some, List, [], ◌∷◌, ltb,
  leb, ◌==◌, if◌then◌else◌, length, get_elem?, get_or, set,
}
use gfx906_mixed_cuda_rocm_r.Base.Int.{ℤ, pos, negsuc, is_negative, is_zero, pos_part, ◌-ℤ◌}
use gfx906_mixed_cuda_rocm_r.Kv.{CellOps, Cache, cache_seq_rm, cache_clear, count}
use gfx906_mixed_cuda_rocm_r.Kv.Slot.{Ubatch, SlotInfo, find_slot, no_slot}
use gfx906_mixed_cuda_rocm_r.Kv.Batch.{apply_ubatch, is_empty_list}

-- `llama_io_read_i::read` of a signed number, of an unsigned one and of a `llama_kv_cell_ext`, with the
-- rest of the state; `none` is an exception. `is_2d` tells whether a cell has such an extension, and
-- `read_data st n slot` is `state_read_data`.
pub record Reader (I E : Type 0) : Type 0 where
  pub read_i32 : I → Option (ℤ × I)
  pub read_u32 : I → Option (ℕ × I)
  pub read_ext : I → Option (E × I)
  pub read_data : ℕ → ℕ → SlotInfo → I → Option (Bool × I)
  pub ext_x : E → ℤ
  pub ext_y : E → ℤ
  pub is_2d : Bool
  pub n_seq_max : ℕ

-- How a part of the reading ends: `return true`, `return false`, or the exception of the reader.
pub data Status : Type 0 where
  finished refused ended : Status

-- The result of reading the cells of a stream: the cache, the slot, how it ended, and the rest.
pub record MetaResult (C I : Type 0) : Type 0 where
  pub cache : Cache C
  pub slot : SlotInfo
  pub status : Status
  pub rest : I

-- After one stream: the cache, and the rest of the state when the loop goes on.
pub data StreamResult (C I : Type 0) : Type 0 where
  goes_on : Cache C → I → StreamResult C I
  throws fails : Cache C → StreamResult C I

-- The result of `state_read`: what was thrown, if anything.
pub data Thrown : Type 0 where
  nothing n_stream_mismatch failed_to_restore read_failed : Thrown

module _ {C E I : Type 0} (ops : CellOps C E) (reader : Reader I E) where
  open ops use {size, seq_has, pos_get, pos_set, ext_set, seq_add}
  open reader use {read_i32, read_u32, read_ext, ext_x, ext_y, is_2d, n_seq_max}

  -- The extension of a cell, when cells have one.
  unfoldable pub read_dims : I → Option (Option E × I)
  read_dims io = elim is_2d [
    | false ↦ some (none, io)
    | true ↦ elim (read_ext io) [ none ↦ none | some r ↦ some (some r.0, r.1) ]
  ]

  -- `n` sequences of cell `i`; one that is out of range is refused.
  unfoldable pub read_seqs : ℕ → ℕ → C → I → C × Status × I
  read_seqs zero i cells io = (cells, finished, io)
  read_seqs (suc n) i cells io = elim (read_i32 io) [
    | none ↦ (cells, ended, io)
    | some r ↦
        let next : C × Status × I = read_seqs n i (seq_add cells i (pos_part r.0)) r.1 in
        if is_negative r.0 || leb n_seq_max (pos_part r.0) then (cells, refused, r.1) else next
  ]

  unfoldable pub extend_cell : ℕ → Option E → C → C
  extend_cell i none cells = cells
  extend_cell i (some x) cells = ext_set cells i x

  -- `n` cells from `i` on, of a whole stream.
  unfoldable pub read_cells : ℕ → ℕ → C → I → C × Status × I
  unfolding read_dims read_seqs extend_cell
  read_cells zero i cells io = (cells, finished, io)
  read_cells (suc n) i cells io = elim (read_i32 io) [
    | none ↦ (cells, ended, io)
    | some p ↦ elim (read_u32 p.1) [
      | none ↦ (cells, ended, p.1)
      | some k ↦ elim (read_dims k.1) [
        | none ↦ (pos_set cells i p.0, ended, k.1)
        | some x ↦
            let r : C × Status × I =
              read_seqs k.0 i (extend_cell i x.0 (pos_set cells i p.0)) x.1 in
            elim r.1 [ finished ↦ read_cells n (i + 1) r.0 r.2 | refused ↦ r | ended ↦ r ]
      ]
    ]
  ]

  -- What the loop for one sequence writes of a cell to the batch.
  unfoldable pub fill_token : ℕ → ℕ → ℤ → Option E → Ubatch → Ubatch
  fill_token dest i cell_pos ext ub =
      let extended : List ℤ = elim ext [
        | none ↦ ub.positions
        | some x ↦
            set (set ub.positions (i + ub.n_tokens) (ext_y x)) (i + ub.n_tokens * 2) (ext_x x)
      ] in
      record ub {
        positions = set extended i cell_pos;
        n_seq_id = set ub.n_seq_id i 1;
        seq_id = set ub.seq_id i (dest ∷ []);
      }

  -- `n` cells from `i` on. A cell of another number of sequences than one is refused; the sequence is
  -- read and dropped.
  unfoldable pub fill_tokens : ℕ → ℕ → ℕ → Ubatch → I → Ubatch × Status × I
  unfolding fill_token read_dims
  fill_tokens dest zero i ub io = (ub, finished, io)
  fill_tokens dest (suc n) i ub io = elim (read_i32 io) [
    | none ↦ (ub, ended, io)
    | some p ↦ elim (read_u32 p.1) [
      | none ↦ (ub, ended, p.1)
      | some k ↦ elim (k.0 == 1) [
        | false ↦ (ub, refused, k.1)
        | true ↦ elim (read_dims k.1) [
          | none ↦ (ub, ended, k.1)
          | some x ↦ elim (read_i32 x.1) [
            | none ↦ (ub, ended, x.1)
            | some q ↦ fill_tokens dest n (i + 1) (fill_token dest i p.0 x.0 ub) q.1
          ]
        ]
      ]
    ]
  ]

  -- The assertions on the cells of the slot, from token `i` on.
  unfoldable pub check_cells : ℕ → Ubatch → ℕ → List ℕ → C → Bool
  check_cells dest ub i [] cells = true
  check_cells dest ub i (idx ∷ idxs) cells =
      is_zero (pos_get cells idx -ℤ get_or ub.positions i (pos 0))
      && seq_has cells idx dest
      && check_cells dest ub (i + 1) idxs cells

module _ {C E I : Type 0} (ops : CellOps C E) (reader : Reader I E) (masked : ℤ → ℤ → Bool)
    (reserve : ℕ → Ubatch) where
  open ops use {size}
  open reader use {read_u32, read_data}

  -- The assertions behind the placement.
  unfoldable pub checked : ℕ → ℕ → ℕ → Ubatch → SlotInfo → I → Cache C → Option (MetaResult C I)
  unfolding check_cells
  checked st n dest ub slot io c = elim (get_elem? c.v_cells st) [
    | none ↦ none
    | some cells ↦
        if (length slot.strm == 1 && length (get_or slot.idxs 0 []) == n)
          && check_cells ops reader dest ub 0 (get_or slot.idxs 0 []) cells
        then some (record { cache = c; slot = slot; status = finished; rest = io })
        else none
  ]

  abbrev pub without_slot : Cache C → Status → I → MetaResult C I
  without_slot c t io = record { cache = c; slot = no_slot; status = t; rest = io }

  -- The tokens that were read go to a slot that is found for them.
  unfoldable pub place_sequence : ℕ → ℕ → ℕ → Ubatch → I → Cache C → Option (MetaResult C I)
  unfolding checked
  place_sequence st n dest ub io c = elim (find_slot ops masked c ub false) [
    | none ↦ none
    | some slot ↦ elim (is_empty_list slot.idxs) [
      | true ↦ some (without_slot c refused io)
      | false ↦ elim (apply_ubatch ops slot ub c) [
        | none ↦ none
        | some c' ↦ checked st n dest ub slot io c'
      ]
    ]
  ]

  -- The cells of one sequence, `dest`.
  unfoldable pub read_sequence : ℕ → ℕ → ℕ → I → Cache C → Option (MetaResult C I)
  unfolding fill_tokens place_sequence
  read_sequence st n dest io c = elim (cache_seq_rm ops (pos dest) (negsuc 0) (negsuc 0) c) [
    | none ↦ none
    | some c1 ↦
        let ub0 : Ubatch = reserve n in
        let f : Ubatch × Status × I =
          fill_tokens ops reader dest n 0 (record ub0 { seq_id_unq = set ub0.seq_id_unq 0 dest })
            io in
        elim f.1 [
          | finished ↦ place_sequence st n dest f.0 f.2 c1
          | refused ↦ some (without_slot c1 refused f.2)
          | ended ↦ some (without_slot c1 ended f.2)
        ]
  ]

  -- The cells as far as they were read; the slot is the first `n` cells.
  unfoldable pub placed_cells : ℕ → ℕ → Cache C → C → Status → I → MetaResult C I
  placed_cells st n c cells finished io = record {
    cache = record c { v_cells = set c.v_cells st cells; v_heads = set c.v_heads st 0 };
    slot = record { s0 = st; s1 = st; strm = st ∷ []; idxs = count n 0 ∷ [] };
    status = finished;
    rest = io;
  }
  placed_cells st n c cells refused io =
      without_slot (record c { v_cells = set c.v_cells st cells }) refused io
  placed_cells st n c cells ended io =
      without_slot (record c { v_cells = set c.v_cells st cells }) ended io

  -- The cells of a stream, when the whole cache is restored.
  unfoldable pub read_stream : ℕ → ℕ → I → Cache C → Option (MetaResult C I)
  unfolding read_cells placed_cells
  read_stream st n io c = elim (get_elem? c.v_cells st) [
    | none ↦ none
    | some before ↦ elim (ltb (size before) n) [
      | true ↦ some (without_slot c refused io)
      | false ↦ elim (get_elem? (cache_clear ops c).v_cells st) [
        | none ↦ none
        | some cells ↦
            let r : C × Status × I = read_cells ops reader n 0 cells io in
            some (placed_cells st n (cache_clear ops c) r.0 r.1 r.2)
      ]
    ]
  ]

  unfoldable pub state_read_meta : ℕ → ℕ → ℤ → I → Cache C → Option (MetaResult C I)
  unfolding read_sequence read_stream
  state_read_meta st n (pos dest) io c = read_sequence st n dest io c
  state_read_meta st n (negsuc m) io c = read_stream st n io c

  -- What a failure leaves.
  unfoldable pub drop_restored : ℤ → Cache C → Option (Cache C)
  drop_restored (pos s) c = cache_seq_rm ops (pos s) (negsuc 0) (negsuc 0) c
  drop_restored (negsuc n) c = some (cache_clear ops c)

  unfoldable pub fail_restore : ℤ → Cache C → Option (Cache C × Thrown)
  unfolding drop_restored
  fail_restore seq_id c = elim (drop_restored seq_id c) [
    | none ↦ none
    | some c' ↦ some (c', failed_to_restore)
  ]

  -- The stream that a part of the state is for: that of the sequence, or the `s`-th.
  unfoldable pub target_stream : ℤ → ℕ → Cache C → Option ℕ
  target_stream (pos seq_id) s c = get_elem? c.seq_to_stream seq_id
  target_stream (negsuc n) s c = some s

  -- One stream of `n` cells: `state_read_meta`, then `state_read_data`.
  unfoldable pub read_part : ℕ → ℕ → ℤ → I → Cache C → Option (StreamResult C I)
  unfolding state_read_meta
  read_part st n seq_id io c = elim (state_read_meta st n seq_id io c) [
    | none ↦ none
    | some r ↦ elim r.status [
      | ended ↦ some (throws r.cache)
      | refused ↦ some (fails r.cache)
      | finished ↦ elim (read_data st n r.slot r.rest) [
        | none ↦ some (throws r.cache)
        | some d ↦ elim d.0 [ true ↦ some (goes_on r.cache d.1) | false ↦ some (fails r.cache) ]
      ]
    ]
  ]

  -- The loop over the streams, `m` of them from `s` on.
  unfoldable pub read_streams : ℤ → ℕ → ℕ → I → Cache C → Option (Cache C × Thrown)
  unfolding read_part fail_restore target_stream
  read_streams seq_id zero s io c = some (c, nothing)
  read_streams seq_id (suc m) s io c = elim (read_u32 io) [
    | none ↦ some (c, read_failed)
    | some k ↦ elim (k.0 == 0) [
      | true ↦ read_streams seq_id m (s + 1) k.1 c
      | false ↦ elim (target_stream seq_id s c) [
        | none ↦ none
        | some st ↦ elim (read_part st k.0 seq_id k.1 c) [
          | none ↦ none
          | some (goes_on c' io') ↦ read_streams seq_id m (s + 1) io' c'
          | some (throws c') ↦ some (c', read_failed)
          | some (fails c') ↦ fail_restore seq_id c'
        ]
      ]
    ]
  ]

  abbrev pub known_seq : ℤ → Cache C → Bool
  known_seq (pos s) c = ltb s (length c.seq_to_stream)
  known_seq (negsuc zero) c = true
  known_seq (negsuc (suc n)) c = false

  unfoldable pub state_read : ℤ → I → Cache C → Option (Cache C × Thrown)
  unfolding read_streams
  state_read seq_id io c = elim (known_seq seq_id c) [
    | false ↦ none
    | true ↦ elim (read_u32 io) [
      | none ↦ some (c, read_failed)
      | some k ↦ elim (k.0 == length c.v_cells) [
        | false ↦ some (c, n_stream_mismatch)
        | true ↦ read_streams seq_id (length c.v_cells) 0 k.1 c
      ]
    ]
  ]
