-- ===== src/Kv/Slot.antt =====
-- `llama_kv_cache::find_slot` (code/source/src/llama-kv-cache.cpp). The numbers are `uint32_t`. The
-- printing for debugging is left out. `masked p q` is `llama_hparams::is_masked_swa` with the cache's
-- window.
pub mod Ring
pub mod Words
pub mod Search
pub mod Found
pub mod Runs
use gfx906_mixed_cuda_rocm_r.Base.{
  ℕ, zero, suc, ◌+◌, ◌-◌, ◌*◌, ◌/◌, ◌%◌, ◌^◌, min, max, Bool, true, false, not, ◌&&◌, ◌||◌, Option,
  none, some, List, [], ◌∷◌, ◌++◌, ltb, leb, ◌==◌, if◌then◌else◌, length, get_elem?, get_or, take,
}
use gfx906_mixed_cuda_rocm_r.Base.Int.{ℤ, pos, ◌+ℤ◌}
use gfx906_mixed_cuda_rocm_r.Kv.{CellOps, Cache}

abbrev pub u32_mod : ℕ
u32_mod = 4294967296

abbrev pub add32 : ℕ → ℕ → ℕ
add32 a b = (a + b) % u32_mod

abbrev pub sub32 : ℕ → ℕ → ℕ
sub32 a b = (a + u32_mod - b) % u32_mod

-- `LLAMA_MAX_SEQ`.
abbrev pub max_seq : ℕ
max_seq = 256

-- What the search reads of a `llama_ubatch`, and what the placement reads.
pub record Ubatch : Type 0 where
  pub n_tokens : ℕ
  pub n_seqs_unq : ℕ
  pub seq_id_unq : List ℕ
  pub n_seq_id : List ℕ
  pub seq_id : List (List ℕ)
  pub positions : List ℤ
  pub is_pos_2d : Bool

-- `slot_info`.
pub record SlotInfo : Type 0 where
  pub s0 : ℕ
  pub s1 : ℕ
  pub strm : List ℕ
  pub idxs : List (List ℕ)

abbrev pub no_slot : SlotInfo
no_slot = record { s0 = 0; s1 = 0; strm = []; idxs = [] }

-- The end of a search in one stream; `searching` when the fuel is used up.
pub data Outcome : Type 0 where
  found : List ℕ → Outcome
  nowhere searching : Outcome

-- How many cells a round tests.
abbrev pub n_test : Bool → ℕ → ℕ
n_test cont n_tokens = if cont then n_tokens else 1

-- The rest of a round: the slot is complete, or the stream is tested, or the search goes on `again`.
unfoldable pub after_tests : (ℕ → ℕ → List ℕ → Outcome) → ℕ → Bool → ℕ → ℕ × ℕ × List ℕ → Outcome
after_tests again n_tokens cont n_cells r = elim (length r.2 == n_tokens) [
  | true ↦ found r.2
  | false ↦ elim (leb n_cells r.1) [
    | true ↦ nowhere
    | false ↦ again r.0 r.1 (if cont then [] else r.2)
  ]
]

module _ {C E : Type 0} (ops : CellOps C E) (masked : ℤ → ℤ → Bool) where
  open ops use {size, get_used, is_empty, seq_count, seq_get, pos_get, seq_pos_max}

  unfoldable pub can_use : C → ℕ → Bool
  can_use cells idx =
      is_empty cells idx
      || (seq_count cells idx == 1
          && masked (pos_get cells idx) (seq_pos_max cells (seq_get cells idx) +ℤ pos 1))

  -- The inner loop, with `n` cells to test: the head, the number of tested cells, and the indices.
  unfoldable pub test_cells : ℕ → Bool → C → ℕ → ℕ → List ℕ → ℕ × ℕ × List ℕ
  unfolding can_use
  test_cells zero cont cells head n_tested idxs = (head, n_tested, idxs)
  test_cells (suc n) cont cells head n_tested idxs = elim (can_use cells head) [
    | true ↦ test_cells n cont cells (add32 head 1) (add32 n_tested 1) (idxs ++ head ∷ [])
    | false ↦ elim cont [
      | true ↦ (add32 head 1, add32 n_tested 1, idxs)
      | false ↦ test_cells n false cells (add32 head 1) (add32 n_tested 1) idxs
    ]
  ]

  -- The outer loop. A round that only wraps around counts as one.
  unfoldable pub search_slot : ℕ → ℕ → Bool → C → ℕ → ℕ → List ℕ → Outcome
  unfolding test_cells after_tests
  search_slot zero n_tokens cont cells head n_tested idxs = searching
  search_slot (suc fuel) n_tokens cont cells head n_tested idxs =
      elim (ltb (size cells) (add32 head (n_test cont n_tokens))) [
        | true ↦
            search_slot fuel n_tokens cont cells 0 (add32 n_tested (sub32 (size cells) head)) idxs
        | false ↦
            after_tests
              (λ head' n_tested' idxs'. search_slot fuel n_tokens cont cells head' n_tested' idxs')
              n_tokens cont (size cells)
              (test_cells (n_test cont n_tokens) cont cells head n_tested idxs)
      ]

  unfoldable pub start_head : C → ℕ → ℕ → ℕ
  start_head cells n_tokens head =
      if ltb (add32 (get_used cells) ((2 * n_tokens) % u32_mod)) head then 0 else head

  -- One stream. A round that wraps is followed by one that tests, and each of these counts a cell.
  unfoldable pub find_in_stream : ℕ → Bool → C → ℕ → Outcome
  unfolding search_slot start_head
  find_in_stream n_tokens cont cells head =
      if ltb (size cells) n_tokens
      then nowhere
      else search_slot (2 * size cells + 2) n_tokens cont cells (start_head cells n_tokens head) 0
          []

  -- The assertions on sequence `s` of a batch over several streams.
  unfoldable pub one_sequence : Ubatch → ℕ → ℕ → ℕ → Bool
  one_sequence ub n_tokens s seq_id =
      get_or ub.n_seq_id (s * n_tokens) 0 == 1
      && get_or (get_or ub.seq_id (s * n_tokens) []) 0 seq_id == seq_id

  -- The loop over the sequences, from number `s` on, with the slot so far. `none` is an abort.
  unfoldable pub find_streams :
      Cache C → Ubatch → ℕ → Bool → ℕ → List ℕ → SlotInfo → Option SlotInfo
  unfolding one_sequence find_in_stream
  find_streams c ub n_tokens cont s [] slot = some slot
  find_streams c ub n_tokens cont s (seq_id ∷ seq_ids) slot =
      elim (leb (length c.v_cells) 1 || one_sequence ub n_tokens s seq_id) [
        | false ↦ none
        | true ↦ elim (get_elem? c.seq_to_stream seq_id) [
          | none ↦ none
          | some stream ↦ elim (get_elem? c.v_cells stream) [
            | none ↦ none
            | some cells ↦ elim (find_in_stream n_tokens cont cells (get_or c.v_heads stream 0)) [
              | searching ↦ none
              | nowhere ↦ some no_slot
              | found idxs ↦ find_streams c ub n_tokens cont (s + 1) seq_ids (record {
                s0 = min slot.s0 stream;
                s1 = max slot.s1 stream;
                strm = slot.strm ++ stream ∷ [];
                idxs = slot.idxs ++ idxs ∷ [];
              })
            ]
          ]
        ]
      ]

  abbrev pub empty_info : SlotInfo
  empty_info = record { s0 = max_seq; s1 = 0; strm = []; idxs = [] }

  -- `slot_info::empty()` of the result tells that there is no slot.
  unfoldable pub find_slot : Cache C → Ubatch → Bool → Option SlotInfo
  unfolding find_streams
  find_slot c ub cont =
      if leb (length c.v_cells) 1
      then find_streams c ub ub.n_tokens cont 0 (take 1 ub.seq_id_unq) empty_info
      else if not (ub.n_tokens % ub.n_seqs_unq == 0)
      then none
      else find_streams c ub (ub.n_tokens / ub.n_seqs_unq) cont 0 (take ub.n_seqs_unq ub.seq_id_unq)
          empty_info
