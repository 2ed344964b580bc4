-- ===== src/Sched/Assign.antt =====
-- Passes 1 to 4 of `ggml_backend_sched_split_graph` (code/source/ggml/src/ggml-backend.cpp), which
-- give each tensor of the graph a backend. A graph is the list of its nodes, or of its leafs.
pub mod Fixed
pub mod Raise
pub mod Expand
pub mod Total
mod Tests
use gfx906_mixed_cuda_rocm_r.Base.{
  ℕ, zero, suc, ◌+◌, ◌-◌, Bool, true, false, not, ◌&&◌, ◌||◌, Option, none, some, List, [], ◌∷◌,
  ltb, ◌==◌, if◌then◌else◌, is_some,
}
use mathlib.Core.List.{reverse}
use gfx906_mixed_cuda_rocm_r.Base.Maps.{update}
use gfx906_mixed_cuda_rocm_r.Sched.{
  Op, is_view_op, Buffer, Tensor, Backends, Heap, Ids, is_null, first_from, buffer_of, last_backend,
  is_last, backend_id_from_cur,
}

module _ (be : Backends) (heap : Heap) where
  abbrev pub buft_of_id : Option ℕ → Option ℕ
  buft_of_id none = none
  buft_of_id (some b) = some (be.bufts b)

  -- The assignment of a tensor, else that of its view source.
  abbrev pub id_or_view : Ids → ℕ → Option ℕ
  id_or_view ids t = elim (ids t) [
    | some b ↦ some b
    | none ↦ if is_null (heap t).view_src then none else ids (heap t).view_src
  ]

  abbrev pub buft_in : Ids → ℕ → Option Buffer → Option ℕ
  buft_in ids t (some buf) = some buf.buft
  buft_in ids t none = buft_of_id (id_or_view ids t)

  -- `ggml_backend_sched_buffer_supported`.
  unfoldable pub buffer_supported : Ids → ℕ → ℕ → Bool
  unfolding buffer_of
  buffer_supported ids t b = elim (buft_in ids t (buffer_of heap t)) [
    | none ↦ false
    | some buft ↦ be.supports_buft b buft
  ]

  -- `ggml_backend_sched_set_if_supported`.
  pub set_if_supported : ℕ → ℕ → Ids → Ids
  unfolding update
  set_if_supported node b ids = if be.supports_op b node then update ids node (some b) else ids

  -- Pass 1, for leafs and for nodes alike.
  pub assign_located : List ℕ → Ids → Option Ids
  unfolding backend_id_from_cur update
  assign_located [] ids = some ids
  assign_located (t ∷ ts) ids = elim (ids t) [
    | some b ↦ assign_located ts ids
    | none ↦ elim (backend_id_from_cur be heap t) [
      | none ↦ none
      | some id ↦ assign_located ts (update ids t id)
    ]
  ]

  -- One round of an expansion of pass 2: the backend carried along, and the assignments. With
  -- `skip_cpu` the lowest priority backend is not carried.
  pub expand_step : Bool → ℕ → Option ℕ → Ids → Option ℕ × Ids
  unfolding is_view_op set_if_supported
  expand_step skip_cpu node cur ids =
      if is_view_op (heap node).op then (cur, ids) else elim (ids node) [
        | some b ↦ (if skip_cpu && b == last_backend be heap then none else some b, ids)
        | none ↦ elim cur [ none ↦ (none, ids) | some c ↦ (some c, set_if_supported node c ids) ]
      ]

  pub expand : Bool → List ℕ → Option ℕ → Ids → Ids
  unfolding expand_step
  expand skip_cpu [] cur ids = ids
  expand skip_cpu (node ∷ nodes) cur ids =
      let (cur', ids') = expand_step skip_cpu node cur ids in expand skip_cpu nodes cur' ids'

  pub expand_gpu_down : List ℕ → Ids → Ids
  unfolding expand
  expand_gpu_down nodes ids = expand true nodes none ids

  pub expand_gpu_up : List ℕ → Ids → Ids
  unfolding expand
  expand_gpu_up nodes ids = expand true (reverse nodes) none ids

  pub expand_rest_down : List ℕ → Ids → Ids
  unfolding expand
  expand_rest_down nodes ids = expand false nodes none ids

  pub expand_rest_up : List ℕ → Ids → Ids
  unfolding expand
  expand_rest_up nodes ids = expand false (reverse nodes) none ids

  -- How many inputs backend `b` can use.
  pub count_supported : Ids → ℕ → List ℕ → ℕ
  unfolding buffer_supported
  count_supported ids b [] = 0
  count_supported ids b (s ∷ rest) =
      (if not (is_null s)
          && ((is_some (ids s) || is_some (ids (heap s).view_src)) && buffer_supported ids s b)
        then 1
        else 0)
      + count_supported ids b rest

  -- Pass 3 at a node with no backend, over the `n` backends from `b` on; `best` is one more than
  -- `n_supported_best`.
  pub most_supported : ℕ → ℕ → ℕ → ℕ → Ids → Ids
  unfolding count_supported update
  most_supported zero b node best ids = ids
  most_supported (suc n) b node best ids =
      let found : ℕ = count_supported ids b (heap node).src in
      let hit : Bool = be.supports_op b node && ltb best (found + 1) in
      most_supported n (b + 1) node (if hit then found + 1 else best)
        (if hit then update ids node (some b) else ids)

  pub all_supported : Ids → ℕ → List ℕ → Bool
  unfolding buffer_supported
  all_supported ids b [] = true
  all_supported ids b (s ∷ rest) =
      (is_null s || buffer_supported ids s b) && all_supported ids b rest

  -- Pass 3 at a node with backend `home`: the first backend before it that can take its place.
  pub upgrade : ℕ → ℕ → Ids → Ids
  unfolding all_supported first_from update
  upgrade node home ids =
      elim (first_from home 0 (λ b.
        be.bufts b == be.bufts home
        && (be.supports_op b node && all_supported ids b (heap node).src))) [
          | none ↦ ids
          | some b ↦ update ids node (some b)
        ]

  pub choose_node : ℕ → Ids → Ids
  unfolding is_view_op most_supported upgrade
  choose_node node ids = if is_view_op (heap node).op then ids else elim (ids node) [
    | none ↦ most_supported be.n_backends 0 node 0 ids
    | some home ↦ upgrade node home ids
  ]

  pub choose : List ℕ → Ids → Ids
  unfolding choose_node
  choose [] ids = ids
  choose (node ∷ nodes) ids = choose nodes (choose_node node ids)

  -- Pass 4 at one source of `node`.
  pub fill_src : ℕ → ℕ → Ids → Ids
  unfolding update
  fill_src node s ids = if is_null s then ids else elim (ids s) [
    | some b ↦ ids
    | none ↦ update ids s (if is_null (heap s).view_src then ids node else ids (heap s).view_src)
  ]

  pub fill_srcs : ℕ → List ℕ → Ids → Ids
  unfolding fill_src
  fill_srcs node [] ids = ids
  fill_srcs node (s ∷ rest) ids = fill_srcs node rest (fill_src node s ids)

  -- A node that is a view takes the backend of its source.
  pub fill_view : ℕ → Ids → Ids
  unfolding update
  fill_view node ids =
      if not (is_null (heap node).view_src) && not (is_some (ids node))
      then update ids node (ids (heap node).view_src)
      else ids

  -- The first backend that supports a node with none yet.
  pub fill_first : ℕ → Ids → Ids
  unfolding first_from update
  fill_first node ids = elim (ids node) [
    | some b ↦ ids
    | none ↦ elim (first_from be.n_backends 0 (λ b. be.supports_op b node)) [
      | none ↦ ids
      | some b ↦ update ids node (some b)
    ]
  ]

  pub fill_node : ℕ → Ids → Option Ids
  unfolding fill_view fill_srcs fill_first
  fill_node node ids =
      let ids' : Ids = fill_first node (fill_srcs node (heap node).src (fill_view node ids)) in
      if is_some (ids' node) then some ids' else none

  pub fill : List ℕ → Ids → Option Ids
  unfolding fill_node
  fill [] ids = some ids
  fill (node ∷ nodes) ids = elim (fill_node node ids) [ none ↦ none | some ids' ↦ fill nodes ids' ]

  -- Passes 1 to 4.
  pub assign : List ℕ → List ℕ → Ids → Option Ids
  unfolding assign_located expand_gpu_down expand_gpu_up expand_rest_down expand_rest_up choose fill
  assign leafs nodes ids = elim (assign_located leafs ids) [
    | none ↦ none
    | some ids1 ↦ elim (assign_located nodes ids1) [
      | none ↦ none
      | some ids2 ↦ fill nodes (
          choose nodes (
            expand_rest_up nodes
              (expand_rest_down nodes (expand_gpu_up nodes (expand_gpu_down nodes ids2)))))
    ]
  ]
