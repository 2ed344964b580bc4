-- ===== src/Kv.antt =====
-- code/source/src/llama-kv-cache.cpp, the cells of a cache: the cells of each stream, where the search
-- for free cells starts, and the operations on sequences. `llama_kv_cells` and its methods are an
-- interface, since their file is not part of the repository. The tensors are left out. A failed
-- assertion, or a stream out of range, is `none`.
pub mod Slot
pub mod Batch
pub mod Valid
pub mod State
pub mod Inputs
mod Tests
use gfx906_mixed_cuda_rocm_r.Base.{
  ℕ, zero, suc, ◌+◌, Bool, true, false, not, ◌&&◌, ◌||◌, Option, none, some, List, [], ◌∷◌, ◌++◌,
  map, ltb, leb, ◌==◌, if◌then◌else◌, length, get_elem?, get_or, set, replicate,
}
use gfx906_mixed_cuda_rocm_r.Base.Int.{
  ℤ, pos, negsuc, pos_part, ◌+ℤ◌, ◌-ℤ◌, is_negative, is_zero, lt_int,
}

-- The methods of `llama_kv_cells`, `C`, that the cache calls; `E` is `llama_kv_cell_ext`. A method that
-- writes gives the new cells, and what it returns.
pub record CellOps (C E : Type 0) : Type 0 where
  pub new_cells : C
  pub resize : C → ℕ → C
  pub size : C → ℕ
  pub get_used : C → ℕ
  pub is_empty : C → ℕ → Bool
  pub seq_count : C → ℕ → ℕ
  pub seq_get : C → ℕ → ℕ
  pub seq_has : C → ℕ → ℕ → Bool
  pub seq_pos_min : C → ℕ → ℤ
  pub seq_pos_max : C → ℕ → ℤ
  pub pos_get : C → ℕ → ℤ
  pub pos_in : C → ℕ → ℤ → ℤ → Bool
  pub get_shift : C → ℕ → ℤ
  pub get_has_shift : C → Bool
  pub ext_get : C → ℕ → E
  pub make_ext : ℤ → ℤ → E
  pub reset : C → C
  pub reset_shift : C → C
  pub rm : C → ℕ → C
  pub seq_rm : C → ℕ → ℕ → C × Bool
  pub seq_keep : C → ℕ → ℕ → C × Bool
  pub seq_add : C → ℕ → ℕ → C
  pub pos_set : C → ℕ → ℤ → C
  pub pos_add : C → ℕ → ℤ → C × Bool
  pub pos_div : C → ℕ → ℕ → C
  pub ext_set : C → ℕ → E → C
  pub cp : C → List ℕ → C
  pub set_cells : C → List ℕ → C → C

-- `seq_to_stream` has an entry for each sequence, `v_cells` and `v_heads` for each stream; `ssrc` and
-- `sdst` are the copies of buffers that wait for the next update.
pub record Cache (C : Type 0) : Type 0 where
  pub seq_to_stream : List ℕ
  pub v_cells : List C
  pub v_heads : List ℕ
  pub ssrc : List ℕ
  pub sdst : List ℕ

-- `std::numeric_limits<llama_pos>::max()`.
abbrev pub pos_max : ℤ
pos_max = pos 2147483647

abbrev pub from_start : ℤ → ℤ
from_start p0 = if is_negative p0 then pos 0 else p0

abbrev pub to_end : ℤ → ℤ
to_end p1 = if is_negative p1 then pos_max else p1

-- 0, 1, and so on.
abbrev pub count : ℕ → ℕ → List ℕ
count zero i = []
count (suc n) i = i ∷ count n (i + 1)

module _ {C E : Type 0} (ops : CellOps C E) where
  open ops use {
    size, seq_has, pos_in, get_shift, pos_get, ext_get, reset, rm, seq_rm, seq_keep, seq_add,
    pos_set, pos_add, pos_div, ext_set, seq_pos_min, seq_pos_max, get_has_shift, resize, new_cells,
    reset_shift,
  }

  -- The part of the constructor that makes the cells.
  unfoldable pub first_cache : ℕ → ℕ → Cache C
  first_cache n_stream kv_size = record {
    seq_to_stream = if ltb 1 n_stream then count n_stream 0 else replicate 256 0;
    v_cells = replicate n_stream (resize new_cells kv_size);
    v_heads = replicate n_stream 0;
    ssrc = [];
    sdst = [];
  }

  -- A loop over the cells, `n` of them from `i` on. `visit` gives the cells and whether it freed a
  -- slot; `new_head` is the first freed one, or the number of cells.
  pub sweep : (C → ℕ → C × Bool) → ℕ → ℕ → C → ℕ → C × ℕ
  sweep visit zero i cells new_head = (cells, new_head)
  sweep visit (suc n) i cells new_head =
      let r : C × Bool = visit cells i in
      sweep visit n (i + 1) r.0 (if r.1 && new_head == size r.0 then i else new_head)

  pub sweep_all : (C → ℕ → C × Bool) → C → C × ℕ
  unfolding sweep
  sweep_all visit cells = sweep visit (size cells) 0 cells (size cells)

  -- The bodies of the loops.
  pub visit_rm : ℕ → ℤ → ℤ → C → ℕ → C × Bool
  visit_rm seq_id p0 p1 cells i =
      if not (pos_in cells i p0 p1)
      then (cells, false)
      else if seq_has cells i seq_id
      then seq_rm cells i seq_id
      else (cells, false)

  pub visit_rm_any : ℤ → ℤ → C → ℕ → C × Bool
  visit_rm_any p0 p1 cells i =
      if not (pos_in cells i p0 p1) then (cells, false) else (rm cells i, true)

  pub visit_cp : ℕ → ℕ → ℤ → ℤ → C → ℕ → C × Bool
  visit_cp src dst p0 p1 cells i =
      if pos_in cells i p0 p1 && seq_has cells i src
      then (seq_add cells i dst, false)
      else (cells, false)

  pub visit_add : ℕ → ℤ → ℤ → ℤ → C → ℕ → C × Bool
  visit_add seq_id p0 p1 shift cells i =
      if pos_in cells i p0 p1 && seq_has cells i seq_id
      then pos_add cells i shift
      else (cells, false)

  pub visit_div : ℕ → ℤ → ℤ → ℕ → C → ℕ → C × Bool
  visit_div seq_id p0 p1 d cells i =
      if pos_in cells i p0 p1 && seq_has cells i seq_id
      then (pos_div cells i d, false)
      else (cells, false)

  -- "If we freed up a slot, set head to it."
  pub lower_head : C × ℕ → ℕ → ℕ
  lower_head r head = if not (r.1 == size r.0) && ltb r.1 head then r.1 else head

  -- A stream's cells and head are replaced by what `f` makes of them.
  pub on_stream : ℕ → (C → ℕ → C × ℕ) → Cache C → Option (Cache C)
  on_stream s f c = elim (get_elem? c.v_cells s) [
    | none ↦ none
    | some cells ↦
        let r : C × ℕ = f cells (get_or c.v_heads s 0) in
        some (record c { v_cells = set c.v_cells s r.0; v_heads = set c.v_heads s r.1 })
  ]

  -- The stream of a sequence, or the failed assertion.
  pub on_sequence : ℕ → (C → ℕ → C × ℕ) → Cache C → Option (Cache C)
  unfolding on_stream
  on_sequence seq_id f c = elim (get_elem? c.seq_to_stream seq_id) [
    | none ↦ none
    | some s ↦ on_stream s f c
  ]

  abbrev pub swept : (C → ℕ → C × Bool) → C → ℕ → C × ℕ
  swept visit cells head = let r : C × ℕ = sweep_all visit cells in (r.0, lower_head r head)

  -- The loop over the streams from `s` on, `n` of them.
  pub rm_streams : ℕ → ℕ → ℤ → ℤ → Cache C → Option (Cache C)
  unfolding on_stream sweep_all lower_head visit_rm_any
  rm_streams zero s p0 p1 c = some c
  rm_streams (suc n) s p0 p1 c = elim (on_stream s (swept (visit_rm_any p0 p1)) c) [
    | none ↦ none
    | some c' ↦ rm_streams n (s + 1) p0 p1 c'
  ]

  -- `negsuc 0` is every sequence; another negative id fails the assertion.
  pub cache_seq_rm : ℤ → ℤ → ℤ → Cache C → Option (Cache C)
  unfolding rm_streams on_sequence visit_rm sweep_all lower_head
  cache_seq_rm (pos seq_id) p0 p1 c =
      on_sequence seq_id (swept (visit_rm seq_id (from_start p0) (to_end p1))) c
  cache_seq_rm (negsuc zero) p0 p1 c = rm_streams (length c.v_cells) 0 (from_start p0) (to_end p1) c
  cache_seq_rm (negsuc (suc n)) p0 p1 c = none

  pub cache_seq_keep : ℕ → Cache C → Option (Cache C)
  unfolding on_sequence sweep_all lower_head
  cache_seq_keep seq_id = on_sequence seq_id (swept (λ cells i. seq_keep cells i seq_id))

  -- What the shift of a sequence makes of its stream, where `p0` and `p1` are the bounds in use.
  pub add_stream : ℕ → ℤ → ℤ → ℤ → C → ℕ → C × ℕ
  unfolding visit_add sweep_all
  add_stream seq_id p0 p1 shift cells head =
      if is_zero shift || is_zero (p1 -ℤ p0)
      then (cells, head)
      else (let r : C × ℕ = sweep_all (visit_add seq_id p0 p1 shift) cells in
          (r.0, if r.1 == size r.0 then 0 else r.1))

  pub div_stream : ℕ → ℤ → ℤ → ℕ → C → ℕ → C × ℕ
  unfolding visit_div sweep_all
  div_stream seq_id p0 p1 d cells head =
      if d == 1 || is_zero (p1 -ℤ p0)
      then (cells, head)
      else ((sweep_all (visit_div seq_id p0 p1 d) cells).0, head)

  -- `one_pos` is `hparams.n_pos_per_embd() == 1`, which is asserted.
  pub cache_seq_add : Bool → ℕ → ℤ → ℤ → ℤ → Cache C → Option (Cache C)
  unfolding on_sequence add_stream
  cache_seq_add one_pos seq_id p0 p1 shift c =
      if not one_pos
      then none
      else on_sequence seq_id (add_stream seq_id (from_start p0) (to_end p1) shift) c

  pub cache_seq_div : Bool → ℕ → ℤ → ℤ → ℕ → Cache C → Option (Cache C)
  unfolding on_sequence div_stream
  cache_seq_div one_pos seq_id p0 p1 d c =
      if not one_pos
      then none
      else on_sequence seq_id (div_stream seq_id (from_start p0) (to_end p1) d) c

  -- What one cell becomes in a copy between streams.
  pub copy_cell : ℕ → C → C → ℕ → C
  copy_cell dst source target i =
      let shift : ℤ = get_shift source i in
      let p : ℤ = if is_zero shift then pos_get source i else pos_get source i -ℤ shift in
      let placed : C = seq_add (pos_set target i p) i dst in
      let shifted : C = if is_zero shift then placed else (pos_add placed i shift).0 in
      ext_set shifted i (ext_get source i)

  -- The loop over the cells, `n` of them from `i` on.
  pub copy_cells : ℕ → ℕ → ℕ → ℕ → C → C → C
  unfolding copy_cell
  copy_cells zero i src dst source target = target
  copy_cells (suc n) i src dst source target =
      copy_cells n (i + 1) src dst source
        (if seq_has source i src then copy_cell dst source target i else target)

  -- `get_size`: of the stream of sequence 0.
  pub get_size : Cache C → Option ℕ
  get_size c = elim (get_elem? c.seq_to_stream 0) [
    | none ↦ none
    | some s ↦ elim (get_elem? c.v_cells s) [ none ↦ none | some cells ↦ some (size cells) ]
  ]

  -- Whether a bound of the range cuts the cache, which a copy between streams does not support.
  pub cuts : ℤ → ℕ → Bool
  cuts p n = lt_int (pos 0) p && lt_int (p +ℤ pos 1) (pos n)

  -- The branch of `seq_cp` for two streams, with the cells of both.
  pub copy_stream : ℕ → ℕ → ℕ → ℕ → C → C → Cache C → Cache C
  unfolding copy_cells
  copy_stream s0 s1 src dst source target c = record c {
    ssrc = c.ssrc ++ s0 ∷ [];
    sdst = c.sdst ++ s1 ∷ [];
    v_cells = set c.v_cells s1 (copy_cells (size source) 0 src dst source (reset target));
    v_heads = set c.v_heads s1 (get_or c.v_heads s0 0);
  }

  -- The branch for one stream.
  pub cp_stream : ℕ → ℕ → ℤ → ℤ → C → ℕ → C × ℕ
  unfolding sweep_all visit_cp
  cp_stream src dst p0 p1 cells head =
      if src == dst then (cells, head) else ((sweep_all (visit_cp src dst p0 p1) cells).0, head)

  -- The branch for two streams. The assertion on the range reads the bounds as they were given.
  pub cp_between : ℕ → ℕ → ℕ → ℕ → ℤ → ℤ → Cache C → Option (Cache C)
  unfolding get_size cuts copy_stream
  cp_between s0 s1 src dst p0 p1 c = elim (get_size c) [
    | none ↦ none
    | some n ↦ elim (cuts p0 n || cuts p1 n) [
      | true ↦ none
      | false ↦ elim (get_elem? c.v_cells s0) [
        | none ↦ none
        | some source ↦ elim (get_elem? c.v_cells s1) [
          | none ↦ none
          | some target ↦ some (copy_stream s0 s1 src dst source target c)
        ]
      ]
    ]
  ]

  pub cache_seq_cp : ℕ → ℕ → ℤ → ℤ → Cache C → Option (Cache C)
  unfolding on_stream cp_stream cp_between
  cache_seq_cp src dst p0 p1 c = elim (get_elem? c.seq_to_stream src) [
    | none ↦ none
    | some s0 ↦ elim (get_elem? c.seq_to_stream dst) [
      | none ↦ none
      | some s1 ↦ elim (s0 == s1) [
        | true ↦ on_stream s0 (cp_stream src dst (from_start p0) (to_end p1)) c
        | false ↦ cp_between s0 s1 src dst p0 p1 c
      ]
    ]
  ]

  -- `clear`, but for the buffers.
  unfoldable pub cache_clear : Cache C → Cache C
  cache_clear c = record c {
    v_cells = map reset c.v_cells;
    v_heads = replicate (length c.v_cells) 0;
  }

  abbrev any_shift : List C → Bool
  any_shift [] = false
  any_shift (c ∷ cs) = get_has_shift c || any_shift cs

  pub cache_get_has_shift : Cache C → Bool
  cache_get_has_shift c = any_shift c.v_cells

  -- `init_update`: whether cells are shifted, and the copies that wait, which it takes away.
  pub init_update : Cache C → Cache C × Bool × List ℕ × List ℕ
  unfolding cache_get_has_shift
  init_update c = (record c { ssrc = []; sdst = [] }, cache_get_has_shift c, c.ssrc, c.sdst)

  -- What `update` does to the cells at the end, when they are shifted.
  pub reset_shifts : Cache C → Cache C
  reset_shifts c = record c { v_cells = map reset_shift c.v_cells }

  pub cells_of : ℕ → Cache C → Option C
  cells_of seq_id c = elim (get_elem? c.seq_to_stream seq_id) [
    | none ↦ none
    | some s ↦ get_elem? c.v_cells s
  ]

  pub cache_seq_pos_min : ℕ → Cache C → Option ℤ
  unfolding cells_of
  cache_seq_pos_min seq_id c = elim (cells_of seq_id c) [
    | none ↦ none
    | some cells ↦ some (seq_pos_min cells seq_id)
  ]

  pub cache_seq_pos_max : ℕ → Cache C → Option ℤ
  unfolding cells_of
  cache_seq_pos_max seq_id c = elim (cells_of seq_id c) [
    | none ↦ none
    | some cells ↦ some (seq_pos_max cells seq_id)
  ]
