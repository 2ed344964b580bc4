-- ===== src/Prompt/Tests.antt =====
-- Runs of the decoding and the checkpoints, and the lemmas at concrete arguments. The context is the
-- list of the tokens that it has; it refuses the token 99.
use gfx906_mixed_cuda_rocm_r.Base.{
  ℕ, ◌≡◌, refl, Bool, true, false, Option, none, some, List, [], ◌∷◌, ◌++◌, ◌==◌, if◌then◌else◌,
  length, replicate,
}
use gfx906_mixed_cuda_rocm_r.Prompt.{
  Batch, Session, Checkpoint, common_batch_add, common_prompt_batch_decode,
}
use gfx906_mixed_cuda_rocm_r.Prompt.Decode.{Moved, common_prompt_batch_decode_lem}

abbrev good : List ℕ → Bool
good [] = true
good (t ∷ ts) = if t == 99 then false else good ts

abbrev decode : List ℕ → List ℕ → Option ℕ → Bool × List ℕ
decode ctx ts pos = if good ts then (true, ctx ++ ts) else (false, ctx)

abbrev fresh : Session (List ℕ)
fresh = record { ctx = []; n_past = 0; saved = [] }

abbrev after : Session (List ℕ)
after = record { ctx = 5 ∷ 6 ∷ 7 ∷ []; n_past = 3; saved = (5 ∷ 6 ∷ [], 5 ∷ 6 ∷ []) ∷ [] }

saves : common_prompt_batch_decode decode (5 ∷ 6 ∷ 7 ∷ []) 8 true fresh ≡ some (true, after)
unfolding common_prompt_batch_decode
saves = refl

common_prompt_batch_decode_lem_example : Moved 0 3 true 3
unfolding common_prompt_batch_decode
common_prompt_batch_decode_lem_example =
    common_prompt_batch_decode_lem decode (5 ∷ 6 ∷ 7 ∷ []) 8 true fresh after true refl

abbrev get_size : List ℕ → ℕ → ℕ → ℕ
get_size ctx seq_id flags = length ctx

abbrev get_data : List ℕ → ℕ → ℕ → List ℕ
get_data ctx seq_id flags = ctx

abbrev set_data : List ℕ → List ℕ → ℕ → ℕ → List ℕ × ℕ
set_data ctx bytes seq_id flags = (bytes, length bytes)

abbrev none_taken : Checkpoint
none_taken = record { n_tokens = 0; pos_min = 0; pos_max = 0; data_tgt = []; data_dft = 9 ∷ [] }

abbrev state : List ℕ
state = 1 ∷ 2 ∷ []

abbrev empty_batch : Batch
empty_batch = record {
  n_tokens = 0;
  token = replicate 1 0;
  pos = replicate 1 0;
  n_seq_id = replicate 1 0;
  seq_id = some (replicate 2 0) ∷ none ∷ [];
  logits = replicate 1 false;
}

abbrev one_token : Batch
one_token = record {
  n_tokens = 1;
  token = 7 ∷ [];
  pos = 3 ∷ [];
  n_seq_id = 1 ∷ [];
  seq_id = some (4 ∷ 0 ∷ []) ∷ none ∷ [];
  logits = true ∷ [];
}

adds : common_batch_add empty_batch 7 3 (4 ∷ []) true ≡ some one_token
unfolding common_batch_add
adds = refl

full : common_batch_add one_token 7 3 (4 ∷ []) true ≡ none
unfolding common_batch_add
full = refl
