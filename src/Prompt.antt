-- ===== src/Prompt.antt =====
-- Batches, the decoding of a prompt and its checkpoints in code/source/common/common.cpp. The calls of
-- the context (`llama_decode`, `llama_state_save_file`, `llama_state_seq_get_data_ext` and
-- `llama_state_seq_set_data_ext`) are parameters.
pub mod Decode
pub mod Restore
mod Tests
use gfx906_mixed_cuda_rocm_r.Base.{
  ℕ, suc, ◌+◌, ◌-◌, Bool, true, false, not, ◌&&◌, Option, none, some, List, [], ◌∷◌, ◌++◌, ltb, leb,
  ◌==◌, if◌then◌else◌, length, get_or, set, take, drop,
}

-- `llama_batch`: its arrays, each of the capacity of the batch; `seq_id` has a NULL at its end.
pub record Batch : Type 0 where
  pub n_tokens : ℕ
  pub token : List ℕ
  pub pos : List ℕ
  pub n_seq_id : List ℕ
  pub seq_id : List (Option (List ℕ))
  pub logits : List Bool

pub common_batch_clear : Batch → Batch
common_batch_clear b = record b { n_tokens = 0 }

-- `none` when the assertion fires.
pub common_batch_add : Batch → ℕ → ℕ → List ℕ → Bool → Option Batch
common_batch_add b id pos seq_ids logits = elim (get_or b.seq_id b.n_tokens none) [
  | none ↦ none
  | some ids ↦ some (record {
    n_tokens = suc b.n_tokens;
    token = set b.token b.n_tokens id;
    pos = set b.pos b.n_tokens pos;
    n_seq_id = set b.n_seq_id b.n_tokens (length seq_ids);
    seq_id = set b.seq_id b.n_tokens (some (seq_ids ++ drop (length seq_ids) ids));
    logits = set b.logits b.n_tokens logits;
  })
]

-- The last token, and the others.
pub but_last : List ℕ → List ℕ
but_last [] = []
but_last (t ∷ []) = []
but_last (t ∷ u ∷ ts) = t ∷ but_last (u ∷ ts)

pub last_of : ℕ → List ℕ → ℕ
last_of t [] = t
last_of t (u ∷ ts) = last_of u ts

-- The context, the position, and the states that were saved with their tokens.
pub record Session (Ctx : Type 0) : Type 0 where
  pub ctx : Ctx
  pub n_past : ℕ
  pub saved : List (Ctx × List ℕ)

module _ {Ctx : Type 0} (decode : Ctx → List ℕ → Option ℕ → Bool × Ctx) where
  -- `decode` takes the tokens and the position that the batch sets, if it does, and tells whether it
  -- succeeds.
  pub common_replay_last_token : Ctx → ℕ → ℕ → Bool × Ctx
  common_replay_last_token ctx last_token pos = decode ctx (last_token ∷ []) (some pos)

  -- The branch that saves the state before the last token.
  pub decode_saving : ℕ → List ℕ → Session Ctx → Bool × Session Ctx
  unfolding but_last last_of
  decode_saving t ts s =
      let before : List ℕ = but_last (t ∷ ts) in
      let first : Bool × Ctx = decode s.ctx before none in
      let mid : Session Ctx = record {
        ctx = first.1;
        n_past = s.n_past + length before;
        saved = (first.1, before) ∷ s.saved;
      } in
      let second : Bool × Ctx = decode first.1 (last_of t ts ∷ []) (some mid.n_past) in
      if not first.0
      then (false, record s { ctx = first.1 })
      else if not second.0
      then (false, record mid { ctx = second.1 })
      else (true, record mid { ctx = second.1; n_past = mid.n_past + 1 })

  pub decode_whole : List ℕ → Session Ctx → Bool × Session Ctx
  decode_whole tokens s =
      let done : Bool × Ctx = decode s.ctx tokens none in
      if not done.0
      then (false, record s { ctx = done.1 })
      else (true, record s { ctx = done.1; n_past = s.n_past + length tokens })

  -- `none` when the assertion on the size of the batch fires.
  pub common_prompt_batch_decode : List ℕ → ℕ → Bool → Session Ctx → Option (Bool × Session Ctx)
  unfolding decode_saving decode_whole
  common_prompt_batch_decode [] n_batch save_state s = some (true, s)
  common_prompt_batch_decode (t ∷ ts) n_batch save_state s =
      if save_state && ltb 1 (length (t ∷ ts))
      then if leb (length (t ∷ ts)) n_batch then some (decode_saving t ts s) else none
      else some (decode_whole (t ∷ ts) s)

-- `common_prompt_checkpoint`. Its positions are only kept, and are numbers here.
pub record Checkpoint : Type 0 where
  pub n_tokens : ℕ
  pub pos_min : ℕ
  pub pos_max : ℕ
  pub data_tgt : List ℕ
  pub data_dft : List ℕ

pub size : Checkpoint → ℕ
size c = length c.data_tgt + length c.data_dft

pub empty : Checkpoint → Bool
empty c = length c.data_tgt == 0

pub clear : Checkpoint → Checkpoint
clear c = record { n_tokens = 0; pos_min = 0; pos_max = 0; data_tgt = []; data_dft = [] }

pub update_pos : ℕ → ℕ → ℕ → Checkpoint → Checkpoint
update_pos n_tokens pos_min pos_max c = record c {
  n_tokens = n_tokens;
  pos_min = pos_min;
  pos_max = pos_max;
}

pub clear_tgt : Checkpoint → Checkpoint
clear_tgt c = record c { data_tgt = [] }

pub clear_dft : Checkpoint → Checkpoint
clear_dft c = record c { data_dft = [] }

-- A context is an option, `none` for `nullptr`. `get_size` and `get_data` read the state of a sequence,
-- `set_data` writes it and gives the number of bytes it read; the result is `none` for an abort.
module _ {Ctx : Type 0} (get_size : Ctx → ℕ → ℕ → ℕ) (get_data : Ctx → ℕ → ℕ → List ℕ)
    (set_data : Ctx → List ℕ → ℕ → ℕ → Ctx × ℕ) where
  pub read_state : Ctx → ℕ → ℕ → Option (List ℕ)
  read_state ctx seq_id flags =
      if length (get_data ctx seq_id flags) == get_size ctx seq_id flags
      then some (get_data ctx seq_id flags)
      else none

  pub write_state : Ctx → List ℕ → ℕ → ℕ → Option Ctx
  write_state ctx [] seq_id flags = some ctx
  write_state ctx (b ∷ bs) seq_id flags =
      if (set_data ctx (b ∷ bs) seq_id flags).1 == length (b ∷ bs)
      then some (set_data ctx (b ∷ bs) seq_id flags).0
      else none

  pub update_tgt : Option Ctx → ℕ → ℕ → Checkpoint → Option Checkpoint
  unfolding read_state
  update_tgt none seq_id flags c = some c
  update_tgt (some ctx) seq_id flags c = elim (read_state ctx seq_id flags) [
    | none ↦ none
    | some bytes ↦ some (record c { data_tgt = bytes })
  ]

  pub update_dft : Option Ctx → ℕ → ℕ → Checkpoint → Option Checkpoint
  unfolding read_state
  update_dft none seq_id flags c = some c
  update_dft (some ctx) seq_id flags c = elim (read_state ctx seq_id flags) [
    | none ↦ none
    | some bytes ↦ some (record c { data_dft = bytes })
  ]

  pub load_tgt : Option Ctx → ℕ → ℕ → Checkpoint → Option (Option Ctx)
  unfolding write_state
  load_tgt none seq_id flags c = some none
  load_tgt (some ctx) seq_id flags c = elim (write_state ctx c.data_tgt seq_id flags) [
    | none ↦ none
    | some ctx' ↦ some (some ctx')
  ]

  pub load_dft : Option Ctx → ℕ → ℕ → Checkpoint → Option (Option Ctx)
  unfolding write_state
  load_dft none seq_id flags c = some none
  load_dft (some ctx) seq_id flags c = elim (write_state ctx c.data_dft seq_id flags) [
    | none ↦ none
    | some ctx' ↦ some (some ctx')
  ]
