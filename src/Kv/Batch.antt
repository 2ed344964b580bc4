-- ===== src/Kv/Batch.antt =====
-- `llama_kv_cache::apply_ubatch` and `prepare` (code/source/src/llama-kv-cache.cpp): the placement of a
-- batch in the cells, and the trial of it. What is undefined in the code, an index out of range, is
-- `none`, as a failed assertion is; but a cell's sequence from 256 on writes nothing.
pub mod Parts
use gfx906_mixed_cuda_rocm_r.Base.{
  ℕ, zero, suc, ◌+◌, ◌*◌, Bool, true, false, not, ◌||◌, ◌==◌, Option, none, some, List, [], ◌∷◌,
  ◌++◌, if◌then◌else◌, length, get_elem?, get_or, set, replicate,
}
use gfx906_mixed_cuda_rocm_r.Base.Int.{ℤ, pos, negsuc, ◌+ℤ◌, lt_int, max_int}
use gfx906_mixed_cuda_rocm_r.Kv.{CellOps, Cache, cache_seq_rm}
use gfx906_mixed_cuda_rocm_r.Kv.Slot.{Ubatch, SlotInfo, find_slot, max_seq, add32}

abbrev pub is_minus_one : ℤ → Bool
is_minus_one (negsuc zero) = true
is_minus_one (negsuc (suc n)) = false
is_minus_one (pos n) = false

-- `slot_info::size`.
abbrev pub slot_size : SlotInfo → ℕ
slot_size slot = length (get_or slot.idxs 0 [])

-- `std::vector::empty`, also of the indices of a slot, which is `slot_info::empty`.
abbrev pub is_empty_list {ℓ} : {A : Type ℓ} → List A → Bool
is_empty_list [] = true
is_empty_list (x ∷ xs) = false

-- `std::vector::back`.
abbrev pub back : List ℕ → Option ℕ
back [] = none
back (x ∷ []) = some x
back (x ∷ y ∷ ys) = back (y ∷ ys)

-- `state_t`: what `prepare` remembers of the cache before it places a batch.
pub record Saved (C : Type 0) : Type 0 where
  pub slot : SlotInfo
  pub v_heads_old : List ℕ
  pub cells_old : List C

-- What the loop of `prepare` leaves: the cache, the slots, the stack, and `success`.
pub record Trial (C : Type 0) : Type 0 where
  pub cache : Cache C
  pub res : List SlotInfo
  pub states : List (Saved C)
  pub success : Bool

abbrev pub first_trial : {C : Type 0} → Cache C → Trial C
first_trial c = record { cache = c; res = []; states = []; success = true }

module _ {C E : Type 0} (ops : CellOps C E) where
  open ops use {
    is_empty, seq_count, seq_get, pos_get, rm, pos_set, ext_set, seq_add, make_ext, seq_pos_min, cp,
    set_cells,
  }

  unfoldable pub add_seqs : C → ℕ → List ℕ → C
  add_seqs cells idx [] = cells
  add_seqs cells idx (s ∷ ss) = add_seqs (seq_add cells idx s) idx ss

  -- What a cell held is dropped, and the greatest such position of its sequence is remembered. A cell
  -- of several sequences fails an assertion.
  unfoldable pub overwrite : C → ℕ → List ℤ → Option (C × List ℤ)
  overwrite cells idx maxs = elim (is_empty cells idx) [
    | true ↦ some (cells, maxs)
    | false ↦ elim (seq_count cells idx == 1) [
      | false ↦ none
      | true ↦
          let s : ℕ = seq_get cells idx in
          some (rm cells idx, set maxs s (max_int (get_or maxs s (negsuc 0)) (pos_get cells idx)))
    ]
  ]

  -- Token `i` of the batch in cell `idx`.
  unfoldable pub place_token : Ubatch → ℕ → ℕ → C → C
  unfolding add_seqs
  place_token ub i idx cells =
      let placed : C = pos_set cells idx (get_or ub.positions i (pos 0)) in
      let extended : C =
        if ub.is_pos_2d
        then (ext_set placed idx (
            make_ext (get_or ub.positions (i + ub.n_tokens * 2) (pos 0))
              (get_or ub.positions (i + ub.n_tokens) (pos 0))))
        else placed in
      add_seqs extended idx (get_or ub.seq_id i [])

  -- `n` tokens from `i` on, in the cells of the list.
  unfoldable pub place_cells : Ubatch → ℕ → ℕ → List ℕ → C → List ℤ → Option (C × List ℤ)
  unfolding overwrite place_token
  place_cells ub zero i idxs cells maxs = some (cells, maxs)
  place_cells ub (suc n) i [] cells maxs = none
  place_cells ub (suc n) i (idx ∷ idxs) cells maxs = elim (overwrite cells idx maxs) [
    | none ↦ none
    | some r ↦ place_cells ub n (i + 1) idxs (place_token ub i idx r.0) r.1
  ]

  -- The streams of a slot, from number `s` on.
  unfoldable pub place_streams :
      Ubatch → ℕ → ℕ → List ℕ → List (List ℕ) → Cache C → List ℤ → Option (Cache C × List ℤ)
  unfolding place_cells
  place_streams ub n s [] ls c maxs = some (c, maxs)
  place_streams ub n s (st ∷ strm) [] c maxs = none
  place_streams ub n s (st ∷ strm) (l ∷ ls) c maxs = elim (get_elem? c.v_cells st) [
    | none ↦ none
    | some cells ↦ elim (place_cells ub n (s * n) l cells maxs) [
      | none ↦ none
      | some r ↦
          place_streams ub n (s + 1) strm ls (record c { v_cells = set c.v_cells st r.0 }) r.1
    ]
  ]

  -- One sequence, whose greatest overwritten position is `m`.
  unfoldable pub purge_seq : ℕ → ℤ → Cache C → Option (Cache C)
  unfolding cache_seq_rm
  purge_seq s m c = elim (get_elem? c.seq_to_stream s) [
    | none ↦ none
    | some st ↦ elim (get_elem? c.v_cells st) [
      | none ↦ none
      | some cells ↦
          if lt_int m (seq_pos_min cells s)
          then some c
          else cache_seq_rm ops (pos s) (seq_pos_min cells s) (m +ℤ pos 1) c
    ]
  ]

  -- The loop over the sequences from `s` on, with the greatest overwritten positions.
  unfoldable pub purge : ℕ → List ℤ → Cache C → Option (Cache C)
  unfolding purge_seq
  purge s [] c = some c
  purge s (m ∷ ms) c = elim (if is_minus_one m then some c else purge_seq s m c) [
    | none ↦ none
    | some c' ↦ purge (s + 1) ms c'
  ]

  -- The head of each stream moves behind the last cell of its slot.
  unfoldable pub move_heads : List ℕ → List (List ℕ) → Cache C → Option (Cache C)
  move_heads [] ls c = some c
  move_heads (st ∷ strm) [] c = none
  move_heads (st ∷ strm) (l ∷ ls) c = elim (back l) [
    | none ↦ none
    | some idx ↦ move_heads strm ls (record c { v_heads = set c.v_heads st (add32 idx 1) })
  ]

  abbrev pub no_maxs : List ℤ
  no_maxs = replicate max_seq (negsuc 0)

  unfoldable pub apply_ubatch : SlotInfo → Ubatch → Cache C → Option (Cache C)
  unfolding place_streams purge move_heads
  apply_ubatch slot ub c = elim (ub.n_tokens == length slot.strm * slot_size slot) [
    | false ↦ none
    | true ↦ elim (place_streams ub (slot_size slot) 0 slot.strm slot.idxs c no_maxs) [
      | none ↦ none
      | some r ↦ elim (purge 0 r.1 r.0) [
        | none ↦ none
        | some c' ↦ move_heads slot.strm slot.idxs c'
      ]
    ]
  ]

  -- The copies of the cells that a slot will overwrite.
  unfoldable pub save_cells : Cache C → List ℕ → List (List ℕ) → Option (List C)
  save_cells c [] ls = some []
  save_cells c (st ∷ strm) [] = none
  save_cells c (st ∷ strm) (l ∷ ls) = elim (get_elem? c.v_cells st) [
    | none ↦ none
    | some cells ↦ elim (save_cells c strm ls) [
      | none ↦ none
      | some rest ↦ some (cp cells l ∷ rest)
    ]
  ]

  -- One entry of the stack: the cells get back what they held. The head of stream `strm[s]` becomes
  -- the old head number `s`.
  unfoldable pub restore_streams :
      ℕ → List ℕ → List ℕ → List (List ℕ) → List C → Cache C → Option (Cache C)
  restore_streams s old [] ls saved c = some c
  restore_streams s old (st ∷ strm) (l ∷ ls) (k ∷ saved) c = elim (get_elem? c.v_cells st) [
    | none ↦ none
    | some cells ↦ elim (get_elem? old s) [
      | none ↦ none
      | some head ↦ restore_streams (s + 1) old strm ls saved (record c {
        v_cells = set c.v_cells st (set_cells cells l k);
        v_heads = set c.v_heads st head;
      })
    ]
  ]
  restore_streams s old (st ∷ strm) [] saved c = none
  restore_streams s old (st ∷ strm) (l ∷ ls) [] c = none

  -- The stack, the last entry first.
  unfoldable pub restore : List (Saved C) → Cache C → Option (Cache C)
  unfolding restore_streams
  restore [] c = some c
  restore (e ∷ es) c =
      elim (restore_streams 0 e.v_heads_old e.slot.strm e.slot.idxs e.cells_old c) [
        | none ↦ none
        | some c' ↦ restore es c'
      ]

module _ {C E : Type 0} (ops : CellOps C E) (masked : ℤ → ℤ → Bool) where
  -- One batch: a slot is found, what it overwrites is saved, and the batch is placed.
  unfoldable pub try_ubatch : Ubatch → Trial C → Option (Trial C)
  unfolding save_cells apply_ubatch
  try_ubatch ub t = elim (find_slot ops masked t.cache ub false) [
    | none ↦ none
    | some slot ↦ elim (is_empty_list slot.idxs) [
      | true ↦ some (record t { success = false })
      | false ↦ elim (save_cells ops t.cache slot.strm slot.idxs) [
        | none ↦ none
        | some saved ↦ elim (apply_ubatch ops slot ub t.cache) [
          | none ↦ none
          | some c ↦ some (record {
            cache = c;
            res = t.res ++ slot ∷ [];
            states =
                record { slot = slot; v_heads_old = t.cache.v_heads; cells_old = saved } ∷ t.states;
            success = true;
          })
        ]
      ]
    ]
  ]

  unfoldable pub try_ubatches : List Ubatch → Trial C → Option (Trial C)
  unfolding try_ubatch
  try_ubatches [] t = some t
  try_ubatches (ub ∷ ubs) t = elim (try_ubatch ub t) [
    | none ↦ none
    | some t' ↦ elim t'.success [ true ↦ try_ubatches ubs t' | false ↦ some t' ]
  ]

  -- An empty list of slots tells of no success.
  unfoldable pub prepare : List Ubatch → Cache C → Option (Cache C × List SlotInfo)
  unfolding try_ubatches restore
  prepare ubs c = elim (try_ubatches ubs (first_trial c)) [
    | none ↦ none
    | some t ↦ elim (not (is_empty_list t.states) || not t.success) [
      | false ↦ none
      | true ↦ elim (restore ops t.states t.cache) [
        | none ↦ none
        | some c' ↦ some (c', if t.success then t.res else [])
      ]
    ]
  ]
