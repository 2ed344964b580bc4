-- ===== src/Sched.antt =====
-- code/source/ggml/src/ggml-backend.cpp, the scheduler: its data, and the backend that the current
-- location of a tensor asks for. A `ggml_tensor *` is a number, 0 for NULL, and the tensors are a
-- table; a backend id is an option, `none` for -1. An assertion or abort that fires is `none`.
pub mod Assign
pub mod Split
pub mod Copies
use gfx906_mixed_cuda_rocm_r.Base.{
  ℕ, zero, suc, ◌+◌, ◌-◌, Bool, true, false, not, ◌&&◌, ◌||◌, Option, none, some, List, [], ◌∷◌,
  ltb, ◌==◌, if◌then◌else◌, is_some,
}

-- The operations that the scheduler tells apart (`enum ggml_op` is not part of the repository).
pub data Op : Type 0 where
  view reshape permute transpose rope : Op
  other : ℕ → Op

pub is_view_op : Op → Bool
is_view_op view = true
is_view_op reshape = true
is_view_op permute = true
is_view_op transpose = true
is_view_op op = false

abbrev pub is_rope : Op → Bool
is_rope rope = true
is_rope op = false

-- A buffer: its type, and whether its usage is GGML_BACKEND_BUFFER_USAGE_WEIGHTS.
pub record Buffer : Type 0 where
  pub buft : ℕ
  pub weights : Bool

-- What the scheduler reads of a `ggml_tensor`. `src` has GGML_MAX_SRC entries.
pub record Tensor : Type 0 where
  pub op : Op
  pub view_src : ℕ
  pub buffer : Option Buffer
  pub src : List ℕ
  pub input : Bool
  pub output : Bool

-- What the scheduler asks of its backends, by their place in `sched->backends`, which has at least
-- one entry, the CPU last: the interface functions of the backends are not part of the scheduler.
pub record Backends : Type 0 where
  pub n_backends : ℕ
  pub supports_op : ℕ → ℕ → Bool
  pub supports_buft : ℕ → ℕ → Bool
  pub offload_op : ℕ → ℕ → Bool
  pub is_host : ℕ → Bool
  pub bufts : ℕ → ℕ
  pub op_offload : Bool

abbrev pub Heap : Type 0
Heap = ℕ → Tensor

-- `hv_tensor_backend_ids`, by tensor. NULL has an entry like any other key.
abbrev pub Ids : Type 0
Ids = ℕ → Option ℕ

abbrev pub is_null : ℕ → Bool
is_null p = p == 0

-- The first of the `n` numbers from `i` on that passes a test.
pub first_from : ℕ → ℕ → (ℕ → Bool) → Option ℕ
first_from zero i test = none
first_from (suc n) i test = let rest = first_from n (i + 1) test in if test i then some i else rest

-- The buffer that holds a tensor, which for a view is that of its source.
pub buffer_of : Heap → ℕ → Option Buffer
buffer_of heap t =
    if is_null (heap t).view_src then (heap t).buffer else (heap (heap t).view_src).buffer

module _ (be : Backends) (heap : Heap) where
  abbrev pub last_backend : ℕ
  last_backend = be.n_backends - 1

  -- `ggml_backend_sched_backend_from_buffer`.
  pub backend_from_buffer : ℕ → ℕ → Option ℕ
  unfolding buffer_of first_from
  backend_from_buffer tensor op = elim (buffer_of heap tensor) [
    | none ↦ none
    | some buffer ↦
        first_from be.n_backends 0 λ b. be.supports_buft b buffer.buft && be.supports_op b op
  ]

  abbrev pub is_last : Option ℕ → Bool
  is_last none = false
  is_last (some b) = b == last_backend

  abbrev pub is_weights : Option Buffer → Bool
  is_weights none = false
  is_weights (some b) = b.weights

  abbrev pub host_buffer : Option Buffer → Bool
  host_buffer none = false
  host_buffer (some b) = be.is_host b.buft

  -- A higher priority backend that wants to offload the operation, else the backend of the weights.
  pub weight_backend : ℕ → ℕ → Option ℕ
  unfolding backend_from_buffer
  weight_backend tensor s =
      let home : Option ℕ = backend_from_buffer s tensor in
      if be.op_offload && is_last home && host_buffer (heap s).buffer
      then elim (first_from last_backend 0
          (λ b. be.supports_op b tensor && be.offload_op b tensor)) [
            | none ↦ home
            | some b ↦ some b
          ]
      else home

  -- The loop over the sources: the first that is a weight decides.
  pub from_weights : ℕ → List ℕ → Option ℕ
  unfolding weight_backend
  from_weights tensor [] = none
  from_weights tensor (s ∷ rest) =
      let later = from_weights tensor rest in
      if is_null s
      then later
      else if not (is_rope (heap tensor).op) && is_weights (heap s).buffer
      then weight_backend tensor s
      else later

  -- `ggml_backend_sched_backend_id_from_cur`; `some none` is its -1.
  pub backend_id_from_cur : ℕ → Option (Option ℕ)
  unfolding backend_from_buffer from_weights buffer_of
  backend_id_from_cur tensor = elim (backend_from_buffer tensor tensor) [
    | some b ↦ some (some b)
    | none ↦
        elim (if is_null (heap tensor).view_src
          then none
          else backend_from_buffer (heap tensor).view_src tensor) [
            | some b ↦ some (some b)
            | none ↦
                if is_some (heap tensor).buffer
                  || (not (is_null (heap tensor).view_src)
                      && is_some (heap (heap tensor).view_src).buffer)
                then none
                else if (heap tensor).input
                then some (some last_backend)
                else some (from_weights tensor (heap tensor).src)
          ]
  ]
