-- ===== src/Outputs/Tests.antt =====
-- Runs of the output rows, and the lemmas at concrete arguments.
use gfx906_mixed_cuda_rocm_r.Base.{
  ℕ, ◌+◌, ◌≤◌, ◌≡◌, refl, max, true, false, Option, none, some, List, [], ◌∷◌, map, length,
  replicate, get_or, arith,
}
use gfx906_mixed_cuda_rocm_r.Base.Int.{pos, negsuc}
use gfx906_mixed_cuda_rocm_r.Outputs.{
  row, err, no_output, output_resolve_row, sort_rounds, order_outputs, swap_rows, Config, Buffers,
  output_reserve,
}
use gfx906_mixed_cuda_rocm_r.Outputs.Order.{
  SameItems, replay, sort_rounds_ascends, replay-sort_rounds,
}
use gfx906_mixed_cuda_rocm_r.Outputs.Layout.{exact_size, Chained, views, output_reserve_lem}

abbrev ids : List ℕ
ids = 4 ∷ 1 ∷ 3 ∷ []

sort_runs : sort_rounds 3 0 ids ≡ (1 ∷ 3 ∷ 4 ∷ [], (0, 1) ∷ (1, 2) ∷ [])
unfolding sort_rounds
sort_runs = refl

order_runs :
    order_outputs ids (replicate 5 none)
    ≡ (1 ∷ 3 ∷ 4 ∷ [], none ∷ some 0 ∷ none ∷ some 1 ∷ some 2 ∷ [], (0, 1) ∷ (1, 2) ∷ [])
unfolding order_outputs
order_runs = refl

abbrev placed : List (Option ℕ)
placed = none ∷ some 0 ∷ none ∷ some 1 ∷ some 2 ∷ []

last_row : output_resolve_row 3 placed (negsuc 0) ≡ row 2
unfolding output_resolve_row
last_row = refl

no_row : output_resolve_row 3 placed (pos 0) ≡ err no_output
unfolding output_resolve_row
no_row = refl

-- Two rows of three entries: swapped with that width, and with a width of two.
rows_swapped :
    swap_rows {A = ℕ} 0 3 0 3 0 1 (1 ∷ 2 ∷ 3 ∷ 4 ∷ 5 ∷ 6 ∷ []) ≡ 4 ∷ 5 ∷ 6 ∷ 1 ∷ 2 ∷ 3 ∷ []
unfolding swap_rows
rows_swapped = refl

rows_mixed : swap_rows {A = ℕ} 0 2 0 2 0 1 (1 ∷ 2 ∷ 3 ∷ 4 ∷ 5 ∷ 6 ∷ []) ≡ 3 ∷ 4 ∷ 1 ∷ 2 ∷ 5 ∷ 6 ∷ []
unfolding swap_rows
rows_mixed = refl

sort_rounds_ascends_example :
    (get_or (sort_rounds (length ids) 0 ids).0 0 0 ≤ get_or (sort_rounds (length ids) 0 ids).0 2 0)
    × SameItems (sort_rounds (length ids) 0 ids).0 ids
    × (length (sort_rounds (length ids) 0 ids).0 ≡ length ids)
sort_rounds_ascends_example = sort_rounds_ascends ids 0 2 (omega arith) (omega arith)

abbrev doubled : ℕ → ℕ
doubled n = n + n

replay-sort_rounds_example :
    replay 0 (sort_rounds (length ids) 0 ids).1 (map doubled ids)
    ≡ map doubled (sort_rounds (length ids) 0 ids).0
replay-sort_rounds_example = replay-sort_rounds 0 doubled ids

abbrev cfg : Config
cfg = record {
  n_vocab = 8;
  n_embd = 4;
  n_embd_out = 2;
  n_batch = 3;
  n_seq_max = 1;
  embeddings = true;
  embeddings_pre_norm = true;
  embeddings_pre_norm_masked = false;
  is_t5 = false;
  has_samplers = true;
  alloc = λ n. some n;
}

abbrev fresh : Buffers
fresh = record {
  buf_size = none;
  output_ids = [];
  n_outputs = 0;
  logits = none;
  embd = none;
  embd_pre_norm = none;
  sampling_logits = none;
  sampling_probs = none;
  sampling_sampled = none;
  sampling_candidates = none;
  counts = [];
}

abbrev reserved : Option (ℕ × Buffers) → Buffers
reserved none = fresh
reserved (some r) = r.1

abbrev laid_out : Buffers
laid_out = reserved (output_reserve cfg 2 fresh)

takes_what_is_asked : (s t : ℕ) → cfg.alloc s ≡ some t → s ≤ t
takes_what_is_asked s t e = ground (arith, e)

output_reserve_lem_example :
    (size : ℕ) × (laid_out.buf_size ≡ some size)
    × (exact_size cfg 2 ≤ size)
    × Chained 0 (views laid_out) size
    × (laid_out.logits ≡ some (record { start = 0; size = 16 }))
    × (laid_out.output_ids ≡ replicate (length laid_out.output_ids) none)
    × (laid_out.n_outputs ≡ 0)
    × (2 ≡ max 2 cfg.n_seq_max)
unfolding output_reserve
output_reserve_lem_example =
    output_reserve_lem cfg 2 2 fresh laid_out (omega arith) (omega arith) takes_what_is_asked refl
