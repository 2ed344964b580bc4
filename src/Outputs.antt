-- ===== src/Outputs.antt =====
-- The output rows of code/source/src/llama-context.cpp: the buffer that `output_reserve` lays out, the
-- order of the rows after a batch (the end of `decode`, and `output_reorder`), and the row of a token
-- (`output_resolve_row`).
pub mod Layout
pub mod Order
mod Tests
use gfx906_mixed_cuda_rocm_r.Base.{
  ℕ, zero, suc, ◌+◌, ◌-◌, ◌*◌, ◌%◌, ◌^◌, max, Bool, true, false, not, ◌&&◌, ◌||◌, Option, none,
  some, List, [], ◌∷◌, ltb, leb, ◌==◌, if◌then◌else◌, length, set, get_or, get_elem?, replicate,
}
use gfx906_mixed_cuda_rocm_r.Base.Int.{ℤ, pos, negsuc}

pub data RowError : Type 0 where
  negative_index out_of_range no_output corrupt : RowError

pub data RowResult : Type 0 where
  row : ℕ → RowResult
  err : RowError → RowResult

-- `output_ids` has `none` for -1.
pub check_row : ℕ → Option ℕ → RowResult
check_row n_outputs none = err no_output
check_row n_outputs (some j) = if leb n_outputs j then err corrupt else row j

pub output_resolve_row : ℕ → List (Option ℕ) → ℤ → RowResult
unfolding check_row
output_resolve_row n_outputs output_ids (negsuc m) =
    if leb n_outputs m then err negative_index else check_row n_outputs (some (n_outputs - suc m))
output_resolve_row n_outputs output_ids (pos i) =
    if leb (length output_ids) i
    then err out_of_range
    else check_row n_outputs (get_or output_ids i none)

-- The place of the smallest entry from `j` on; `j_min` is the best so far.
pub find_min : ℕ → ℕ → ℕ → List ℕ → ℕ
find_min zero j j_min out_ids = j_min
find_min (suc n) j j_min out_ids =
    find_min n (j + 1) (if ltb (get_or out_ids j 0) (get_or out_ids j_min 0) then j else j_min)
      out_ids

-- `std::swap` of two entries.
pub swap {ℓ} : {A : Type ℓ} → A → ℕ → ℕ → List A → List A
swap d i j xs = set (set xs i (get_or xs j d)) j (get_or xs i d)

-- The selection sort, with `n` rounds left, the last of which has nothing to do: the sorted ids, and
-- the swaps that it remembers.
pub sort_rounds : ℕ → ℕ → List ℕ → List ℕ × List (ℕ × ℕ)
unfolding find_min swap
sort_rounds zero i out_ids = (out_ids, [])
sort_rounds (suc n) i out_ids =
    let j_min : ℕ = find_min n (i + 1) i out_ids in
    elim (j_min == i) [
      | true ↦ sort_rounds n (i + 1) out_ids
      | false ↦
          let rest : List ℕ × List (ℕ × ℕ) = sort_rounds n (i + 1) (swap 0 i j_min out_ids) in
          (rest.0, (i, j_min) ∷ rest.1)
    ]

-- `output_ids[out_ids[k]] = k`, from number `k` on.
pub place_ids : ℕ → List ℕ → List (Option ℕ) → List (Option ℕ)
place_ids k [] output_ids = output_ids
place_ids k (out_id ∷ out_ids) output_ids =
    place_ids (k + 1) out_ids (set output_ids out_id (some k))

-- Whether every id is at its place already.
pub in_place : ℕ → List ℕ → Bool
in_place k [] = true
in_place k (out_id ∷ out_ids) = out_id == k && in_place (k + 1) out_ids

-- The end of `decode`: the new `out_ids`, `output_ids` and `output_swaps`, which is empty before.
pub order_outputs : List ℕ → List (Option ℕ) → List ℕ × List (Option ℕ) × List (ℕ × ℕ)
unfolding place_ids in_place sort_rounds
order_outputs out_ids output_ids =
    if not (in_place 0 out_ids) && ltb 1 (length out_ids)
    then (let sorted : List ℕ × List (ℕ × ℕ) = sort_rounds (length out_ids) 0 out_ids in
        (sorted.0, place_ids 0 sorted.0 (replicate (length output_ids) none), sorted.1))
    else (out_ids, place_ids 0 out_ids output_ids, [])

-- The loop that swaps rows `i0` and `i1` of `width` entries, from entry `k` on.
pub swap_rows {ℓ} : {A : Type ℓ} → A → ℕ → ℕ → ℕ → ℕ → ℕ → List A → List A
unfolding swap
swap_rows d zero k width i0 i1 rows = rows
swap_rows d (suc n) k width i0 i1 rows =
    swap_rows d n (k + 1) width i0 i1 (swap d (i0 * width + k) (i1 * width + k) rows)

-- The rows of an output, `width` entries each, and the arrays of the samplers. A view of size 0 is
-- empty here.
pub record Rows (A : Type 0) : Type 0 where
  pub logits : List A
  pub embd : List A
  pub embd_pre_norm : List A
  pub sampled : List (List ℕ)
  pub sampling : List (List A)

module _ {A : Type 0} (d : A) (n_vocab n_embd : ℕ) where
  abbrev pub swap_view : ℕ → ℕ → ℕ → List A → List A
  swap_view width i0 i1 [] = []
  swap_view width i0 i1 (x ∷ xs) = swap_rows d width 0 width i0 i1 (x ∷ xs)

  abbrev pub map_view : {B : Type 0} → (B → B) → List B → List B
  map_view f [] = []
  map_view f (x ∷ xs) = f x ∷ map_view f xs

  -- One remembered swap. `sampling` are the logits, probabilities and candidates of the samplers,
  -- `sampled` the sampled tokens and the three counts; both are empty without samplers.
  pub reorder_step : ℕ × ℕ → Rows A → Rows A
  unfolding swap_rows swap
  reorder_step s r = record {
    logits = swap_view n_vocab s.0 s.1 r.logits;
    embd = swap_view n_embd s.0 s.1 r.embd;
    embd_pre_norm = swap_view n_embd s.0 s.1 r.embd_pre_norm;
    sampling = map_view (λ rows. swap_rows d n_vocab 0 n_vocab s.0 s.1 rows) r.sampling;
    sampled = map_view (λ xs. swap 0 s.0 s.1 xs) r.sampled;
  }

  pub output_reorder : List (ℕ × ℕ) → Rows A → Rows A × List (ℕ × ℕ)
  unfolding reorder_step
  output_reorder [] r = (r, [])
  output_reorder (s ∷ swaps) r = output_reorder swaps (reorder_step s r)

-- What `output_reserve` reads of the model and its parameters. The device's buffers are not part of
-- the file: `alloc` gives the size of a new buffer, or `none`.
pub record Config : Type 0 where
  pub n_vocab : ℕ
  pub n_embd : ℕ
  pub n_embd_out : ℕ
  pub n_batch : ℕ
  pub n_seq_max : ℕ
  pub embeddings : Bool
  pub embeddings_pre_norm : Bool
  pub embeddings_pre_norm_masked : Bool
  pub is_t5 : Bool
  pub has_samplers : Bool
  pub alloc : ℕ → Option ℕ

-- A view: where it starts in the buffer, in bytes, and its entries, of four bytes each.
pub record View : Type 0 where
  pub start : ℕ
  pub size : ℕ

pub record Buffers : Type 0 where
  pub buf_size : Option ℕ
  pub output_ids : List (Option ℕ)
  pub n_outputs : ℕ
  pub logits : Option View
  pub embd : Option View
  pub embd_pre_norm : Option View
  pub sampling_logits : Option View
  pub sampling_probs : Option View
  pub sampling_sampled : Option View
  pub sampling_candidates : Option View
  pub counts : List ℕ

-- The products and sums of 32 bits, and those of `size_t`.
abbrev pub wrap32 : ℕ → ℕ
wrap32 n = n % 2 ^ 32

abbrev pub wrap64 : ℕ → ℕ
wrap64 n = n % 2 ^ 64

-- `buffer_view{nullptr, 0}` is `none`.
pub view_at : Bool → ℕ → ℕ → Option View
view_at has start size = if has then some (record { start = start; size = size }) else none

module _ (cfg : Config) where
  pub n_outputs_max : ℕ → ℕ
  n_outputs_max n_outputs = max n_outputs cfg.n_seq_max

  abbrev pub has_embd : Bool
  has_embd = cfg.embeddings || cfg.is_t5

  abbrev pub when : Bool → ℕ → ℕ
  when b n = if b then n else 0

  pub logits_size : ℕ → ℕ
  logits_size m = wrap64 (cfg.n_vocab * m)

  pub embd_size : ℕ → ℕ
  embd_size m = when has_embd (wrap64 (cfg.n_embd_out * m))

  pub pre_norm_size : ℕ → ℕ
  pre_norm_size m =
      when cfg.embeddings_pre_norm
        (wrap64 (cfg.n_embd * (if cfg.embeddings_pre_norm_masked then m else cfg.n_batch)))

  -- Of the samplers' logits and probabilities; the first product has 32 bits.
  pub float_count : ℕ → ℕ
  float_count m = when cfg.has_samplers (wrap64 (wrap32 (2 * cfg.n_vocab) * m))

  -- Of the sampled tokens and the candidates; the sum has 32 bits.
  pub token_count : ℕ → ℕ
  token_count m = when cfg.has_samplers (wrap64 (wrap32 (1 + cfg.n_vocab) * m))

  pub new_size : ℕ → ℕ
  unfolding logits_size embd_size pre_norm_size float_count token_count
  new_size m = wrap64 (
      wrap64 (logits_size m + embd_size m + pre_norm_size m + float_count m) * 4
      + token_count m * 4)

  -- A buffer that is large enough stays.
  pub reserve_buffer : ℕ → Option ℕ → Option ℕ
  reserve_buffer size none = cfg.alloc size
  reserve_buffer size (some prev) = if ltb prev size then cfg.alloc size else some prev

  -- The views, one behind the other.
  pub lay_out : ℕ → ℕ → List (Option ℕ) → Buffers
  unfolding view_at logits_size embd_size pre_norm_size
  lay_out m buf_size ids =
      let o1 : ℕ = wrap64 (logits_size m * 4) in
      let o2 : ℕ = wrap64 (o1 + embd_size m * 4) in
      let o3 : ℕ = wrap64 (o2 + pre_norm_size m * 4) in
      let o4 : ℕ = wrap64 (o3 + logits_size m * 4) in
      let o5 : ℕ = wrap64 (o4 + logits_size m * 4) in
      let o6 : ℕ = wrap64 (o5 + m * 4) in
      record {
        buf_size = some buf_size;
        output_ids = replicate (length ids) none;
        n_outputs = 0;
        logits = view_at true 0 (logits_size m);
        embd = view_at has_embd o1 (embd_size m);
        embd_pre_norm = view_at cfg.embeddings_pre_norm o2 (pre_norm_size m);
        sampling_logits = view_at cfg.has_samplers o3 (logits_size m);
        sampling_probs = view_at cfg.has_samplers o4 (logits_size m);
        sampling_sampled = view_at cfg.has_samplers o5 m;
        sampling_candidates = view_at cfg.has_samplers o6 (logits_size m);
        counts = replicate (when cfg.has_samplers m) 0;
      }

  abbrev pub init_ids : List (Option ℕ) → List (Option ℕ)
  init_ids [] = replicate cfg.n_batch none
  init_ids (i ∷ ids) = i ∷ ids

  -- The number of rows, and the buffers; `none` is the failed allocation, for which it returns 0.
  pub output_reserve : ℕ → Buffers → Option (ℕ × Buffers)
  unfolding n_outputs_max new_size reserve_buffer lay_out
  output_reserve n_outputs b =
      let m : ℕ = n_outputs_max n_outputs in
      elim (reserve_buffer (new_size m) b.buf_size) [
        | none ↦ none
        | some size ↦ some (m, lay_out m size (init_ids b.output_ids))
      ]
