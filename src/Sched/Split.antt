-- ===== src/Sched/Split.antt =====
-- Pass 5 of `ggml_backend_sched_split_graph` (code/source/ggml/src/ggml-backend.cpp): the graph is
-- cut into splits of one backend each, and inputs from other backends are replaced by copies.
-- `splits_capacity` and the `realloc` behind it are not modelled: the splits are a list. Nor are the
-- names of the copies.
pub mod Steady
pub mod Spans
mod Tests
use gfx906_mixed_cuda_rocm_r.Base.{
  ℕ, zero, suc, ◌+◌, ◌-◌, Bool, true, false, not, ◌&&◌, ◌||◌, Option, none, some, List, [], ◌∷◌,
  ◌++◌, ltb, ◌==◌, if◌then◌else◌, is_some, length, set,
}
use gfx906_mixed_cuda_rocm_r.Base.Maps.{update}
use gfx906_mixed_cuda_rocm_r.Sched.{
  Op, is_view_op, Buffer, Tensor, Backends, Heap, Ids, is_null, is_weights,
}
use gfx906_mixed_cuda_rocm_r.Sched.Assign.{buffer_supported}

abbrev pub max_split_inputs : ℕ
max_split_inputs = 30

-- `struct ggml_backend_sched_split`. The first keeps the backend that its slot last had if every
-- node is a view, hence the option.
pub record Split : Type 0 where
  pub backend_id : Option ℕ
  pub i_start : ℕ
  pub i_end : ℕ
  pub inputs : List ℕ

-- `tensor_id_copy(id, backend_id, c)`, the tensors, and the number for the next one.
pub record State : Type 0 where
  pub heap : Heap
  pub copy_of : ℕ → ℕ → ℕ → ℕ
  pub next_tensor : ℕ
  pub graph_inputs : List ℕ

-- What pass 5 only reads. `dup` is `ggml_dup_tensor_layout`, whose allocation is not part of the
-- scheduler: the new tensor's fields, from those of the old one.
pub record Config : Type 0 where
  pub backends : Backends
  pub ids : Ids
  pub n_copies : ℕ
  pub cur_copy : ℕ
  pub dup : Tensor → Tensor

abbrev pub same_id : Option ℕ → Option ℕ → Bool
same_id none none = true
same_id (some a) (some b) = a == b
same_id a b = false

abbrev pub set_copy : State → ℕ → ℕ → ℕ → ℕ → State
set_copy st id b c t = record st {
  copy_of = λ id' b' c'. if id' == id && (b' == b && c' == c) then t else st.copy_of id' b' c';
}

module _ (cfg : Config) where
  -- `ggml_backend_sched_buffer_supported` for a split's backend.
  abbrev pub usable : State → ℕ → Option ℕ → Bool
  usable st t none = false
  usable st t (some b) = buffer_supported cfg.backends st.heap cfg.ids t b

  abbrev pub has_copy : State → ℕ → Option ℕ → Bool
  has_copy st t none = false
  has_copy st t (some b) = not (is_null (st.copy_of t b 0))

  -- The two tests on a source that start a new split.
  pub breaks : State → Option ℕ → ℕ → ℕ → Bool
  breaks st cur n_inputs s =
      let foreign : Bool = not (same_id (cfg.ids s) cur) && not (usable st s cur) in
      is_weights cfg.backends st.heap (st.heap s).buffer && foreign
      || (n_inputs == max_split_inputs && (foreign && not (has_copy st s cur)))

  pub any_breaks : State → Option ℕ → ℕ → List ℕ → Bool
  unfolding breaks
  any_breaks st cur n_inputs [] = false
  any_breaks st cur n_inputs (s ∷ rest) =
      (not (is_null s) && breaks st cur n_inputs s) || any_breaks st cur n_inputs rest

  pub need_new_split : State → Split → ℕ → Bool
  unfolding any_breaks
  need_new_split st split node =
      same_id (cfg.ids node) split.backend_id
      && (ltb 0 (length split.inputs)
          && any_breaks st split.backend_id (length split.inputs) (st.heap node).src)

  abbrev flagged : Tensor → Tensor
  flagged t = record t { input = true; output = true }

  -- A duplicate of `s` as copy `c` on backend `b`.
  pub add_copy : Bool → ℕ → ℕ → ℕ → State → State
  unfolding update
  add_copy flag s b c st =
      let fresh : Tensor = cfg.dup (st.heap s) in
      set_copy
        (record st {
          heap = update st.heap st.next_tensor (if flag then flagged fresh else fresh);
          next_tensor = suc st.next_tensor;
        })
        s b c st.next_tensor

  -- The loops over the copies, `n` of them from `c` on: of a graph input, where the current copy is
  -- the tensor itself, and of a split input.
  pub input_copies : ℕ → ℕ → ℕ → ℕ → State → State
  unfolding add_copy update
  input_copies zero c s b st = st
  input_copies (suc n) c s b st = input_copies n (c + 1) s b (
      if c == cfg.cur_copy
      then set_copy (record st { heap = update st.heap s (flagged (st.heap s)) }) s b c s
      else add_copy true s b c st)

  pub split_copies : ℕ → ℕ → ℕ → ℕ → State → State
  unfolding add_copy
  split_copies zero c s b st = st
  split_copies (suc n) c s b st =
      split_copies n (c + 1) s b (add_copy (ltb 1 cfg.n_copies) s b c st)

  -- A source that is a graph input gets its copies on its own backend, once.
  pub register_input : ℕ → ℕ → State → Option State
  unfolding input_copies
  register_input s b st =
      if (st.heap s).input && (ltb 1 cfg.n_copies && is_null (st.copy_of s b 0))
      then if ltb (length st.graph_inputs) max_split_inputs
        then some (record (input_copies cfg.n_copies 0 s b st) {
          graph_inputs = st.graph_inputs ++ s ∷ [];
        })
        else none
      else some st

  -- The copies of a source on the split's backend, made once, and counted as an input of the split.
  pub copy_input : ℕ → ℕ → Split → State → Option (Split × State)
  unfolding split_copies
  copy_input s cur split st =
      if is_null (st.copy_of s cur 0)
      then if ltb (length split.inputs) max_split_inputs
        then some
            (record split { inputs = split.inputs ++ s ∷ [] }, split_copies cfg.n_copies 0 s cur st)
        else none
      else some (split, st)

  -- `node->src[j] = t`.
  pub set_src : ℕ → ℕ → ℕ → State → State
  unfolding update
  set_src node j t st = record st {
    heap = update st.heap node (record (st.heap node) { src = set (st.heap node).src j t });
  }

  -- Source `j` of `node`, in a split whose backend is `cur`.
  pub visit_src : ℕ → ℕ → ℕ → ℕ → Split → State → Option (Split × State)
  unfolding register_input copy_input set_src
  visit_src node j s cur split st = if is_null s then some (split, st) else elim (cfg.ids s) [
    | none ↦ none
    | some b ↦ elim (register_input s b st) [
      | none ↦ none
      | some st1 ↦
          if not (b == cur) && not (usable st1 s (some cur))
          then elim (copy_input s cur split st1) [
            | none ↦ none
            | some (split', st2) ↦
                some (split', set_src node j (st2.copy_of s cur cfg.cur_copy) st2)
          ]
          else some (split, st1)
    ]
  ]

  pub visit_srcs : ℕ → ℕ → List ℕ → ℕ → Split → State → Option (Split × State)
  unfolding visit_src
  visit_srcs node j [] cur split st = some (split, st)
  visit_srcs node j (s ∷ rest) cur split st = elim (visit_src node j s cur split st) [
    | none ↦ none
    | some (split', st') ↦ visit_srcs node (suc j) rest cur split' st'
  ]

  abbrev pub open_split : ℕ → ℕ → Split
  open_split b i = record { backend_id = some b; i_start = i; i_end = 0; inputs = [] }

  -- The loop over the nodes from number `i` on, with the open split. The result is the rest of the
  -- splits, the open one first.
  pub split_nodes : List ℕ → ℕ → Split → State → Option (List Split × State)
  unfolding is_view_op need_new_split visit_srcs
  split_nodes [] i split st = some (record split { i_end = i } ∷ [], st)
  split_nodes (node ∷ nodes) i split st = elim (is_view_op (st.heap node).op) [
    | true ↦ split_nodes nodes (suc i) split st
    | false ↦ elim (cfg.ids node) [
      | none ↦ none
      | some b ↦ elim (not (same_id (some b) split.backend_id) || need_new_split st split node) [
        | true ↦ elim (visit_srcs node 0 (st.heap node).src b (open_split b i) st) [
          | none ↦ none
          | some (split', st') ↦ elim (split_nodes nodes (suc i) split' st') [
            | none ↦ none
            | some (rest, st'') ↦ some (record split { i_end = i } ∷ rest, st'')
          ]
        ]
        | false ↦ elim (visit_srcs node 0 (st.heap node).src b split st) [
          | none ↦ none
          | some (split', st') ↦ split_nodes nodes (suc i) split' st'
        ]
      ]
    ]
  ]

  -- The backend of the first node that is no view; `old` is what the slot of the first split had.
  pub first_backend : List ℕ → Heap → Option ℕ → Option ℕ
  unfolding is_view_op
  first_backend [] heap old = old
  first_backend (node ∷ nodes) heap old =
      let later = first_backend nodes heap old in
      if is_view_op (heap node).op then later else cfg.ids node

  -- The loop skips the views before the first other node; passing over them here does nothing.
  pub split_graph : List ℕ → Option ℕ → State → Option (List Split × State)
  unfolding first_backend split_nodes
  split_graph nodes old st =
      split_nodes nodes 0
        (record {
          backend_id = first_backend nodes st.heap old;
          i_start = 0;
          i_end = 0;
          inputs = [];
        })
        st
