-- ===== src/Sched/Copies.antt =====
-- The rotation of the input copies, `ggml_backend_sched_advance_copy` and
-- `ggml_backend_sched_copy_graph_inputs` (code/source/ggml/src/ggml-backend.cpp). The graph view of a
-- split is its own list of nodes: the views of the splits do not overlap. Synchronising with a
-- backend, waiting for an event and copying a tensor are entries of a log.
pub mod Rotate
pub mod Refs
mod Tests
use gfx906_mixed_cuda_rocm_r.Base.{
  ℕ, zero, suc, ◌+◌, ◌%◌, Bool, true, false, not, ◌&&◌, ◌||◌, Option, none, some, List, [], ◌∷◌,
  ◌++◌, map, ltb, leb, ◌==◌, if◌then◌else◌, length,
}
use gfx906_mixed_cuda_rocm_r.Base.Maps.{update}
use gfx906_mixed_cuda_rocm_r.Sched.{Tensor, Heap, Ids, is_null}

pub data Action : Type 0 where
  synchronize : ℕ → Action
  wait_event : ℕ → ℕ → Action
  copy_tensor : ℕ → ℕ → Action

-- A split: its backend, its inputs, and the nodes of its graph view, which has no leafs.
pub record SplitGraph : Type 0 where
  pub backend_id : ℕ
  pub inputs : List ℕ
  pub nodes : List ℕ

pub record Sched : Type 0 where
  pub is_alloc : Bool
  pub n_backends : ℕ
  pub n_copies : ℕ
  pub cur_copy : ℕ
  pub next_copy : ℕ
  pub splits : List SplitGraph
  pub nodes : List ℕ
  pub leafs : List ℕ
  pub graph_inputs : List ℕ
  pub heap : Heap
  pub copy_of : ℕ → ℕ → ℕ → ℕ
  pub ids : Ids
  pub has_event : ℕ → ℕ → Bool
  pub log : List Action

-- The loop over `i`, with `n` rounds left.
pub nonzero_from : ℕ → ℕ → ℕ → ℕ → ℕ
nonzero_from zero i n_copies copy_id = copy_id
nonzero_from (suc n) i n_copies copy_id =
    let rest = nonzero_from n (i + 1) n_copies copy_id in
    if not ((copy_id + i) % n_copies == 0) then (copy_id + i) % n_copies else rest

pub next_nonzero_copy : ℕ → ℕ → ℕ
unfolding nonzero_from
next_nonzero_copy n_copies copy_id =
    if leb n_copies 1 then 0 else nonzero_from n_copies 0 n_copies copy_id

module _ (old_tensor new_tensor : ℕ) where
  abbrev pub renamed : ℕ → ℕ
  renamed t = if t == old_tensor then new_tensor else t

  abbrev pub hits : ℕ → ℕ
  hits t = if t == old_tensor then 1 else 0

  abbrev pub count_hits : List ℕ → ℕ
  count_hits [] = 0
  count_hits (t ∷ ts) = hits t + count_hits ts

  -- The references that a node holds.
  pub rename_node : Tensor → Tensor
  rename_node t = record t { view_src = renamed t.view_src; src = map renamed t.src }

  pub node_hits : Tensor → ℕ
  node_hits t = hits t.view_src + count_hits t.src

  -- The loop over the nodes: the new nodes, the tensors, and the number of replacements.
  pub replace_nodes : List ℕ → Heap → List ℕ × Heap × ℕ
  unfolding rename_node node_hits update
  replace_nodes [] heap = ([], heap, 0)
  replace_nodes (node ∷ nodes) heap =
      let heap' : Heap =
        if node == old_tensor || is_null node
        then heap
        else update heap node (rename_node (heap node)) in
      let here : ℕ =
        if node == old_tensor then 1 else if is_null node then 0 else node_hits (heap node) in
      let (nodes', heap'', n) = replace_nodes nodes heap' in
      (renamed node ∷ nodes', heap'', here + n)

  -- `ggml_backend_sched_replace_tensor_refs` on a graph with these nodes and leafs.
  pub replace_tensor_refs : List ℕ → List ℕ → Heap → List ℕ × List ℕ × Heap × ℕ
  unfolding replace_nodes
  replace_tensor_refs nodes leafs heap =
      let (nodes', heap', n) = replace_nodes nodes heap in
      (nodes', map renamed leafs, heap', n + count_hits leafs)

-- What the loops of `advance_copy` carry: the sched's graph, the tensors and `n_replaced`.
pub record Progress : Type 0 where
  pub nodes : List ℕ
  pub leafs : List ℕ
  pub heap : Heap
  pub n_replaced : ℕ

module _ (copy_of : ℕ → ℕ → ℕ → ℕ) (old_copy new_copy : ℕ) where
  -- One input of a split with nodes `view`.
  pub advance_input : ℕ → ℕ → List ℕ → Progress → List ℕ × Progress
  unfolding replace_tensor_refs
  advance_input b input view p =
      let old_tensor : ℕ = copy_of input b old_copy in
      let new_tensor : ℕ = copy_of input b new_copy in
      let (view', _, heap', n) = replace_tensor_refs old_tensor new_tensor view [] p.heap in
      let (nodes', leafs', heap'', m) =
        replace_tensor_refs old_tensor new_tensor p.nodes p.leafs heap' in
      if is_null old_tensor || (is_null new_tensor || old_tensor == new_tensor)
      then (view, p)
      else (
        view',
        record { nodes = nodes'; leafs = leafs'; heap = heap''; n_replaced = p.n_replaced + n + m },
      )

  pub advance_inputs : ℕ → List ℕ → List ℕ → Progress → List ℕ × Progress
  unfolding advance_input
  advance_inputs b [] view p = (view, p)
  advance_inputs b (input ∷ inputs) view p =
      let (view', p') = advance_input b input view p in advance_inputs b inputs view' p'

  pub advance_splits : List SplitGraph → Progress → List SplitGraph × Progress
  unfolding advance_inputs
  advance_splits [] p = ([], p)
  advance_splits (split ∷ splits) p =
      let (view', p') = advance_inputs split.backend_id split.inputs split.nodes p in
      let (splits', p'') = advance_splits splits p' in
      (record split { nodes = view' } ∷ splits', p'')

-- Synchronising with the backends from `i` on.
abbrev pub sync_from : ℕ → ℕ → List Action
sync_from zero i = []
sync_from (suc n) i = synchronize i ∷ sync_from n (i + 1)

-- The state that the loops leave, before the test of `n_replaced`.
pub replaced : Sched → ℕ → Sched × ℕ
unfolding advance_splits
replaced s new_copy =
    let (splits', p) =
      advance_splits s.copy_of s.cur_copy new_copy s.splits
        (record { nodes = s.nodes; leafs = s.leafs; heap = s.heap; n_replaced = 0 }) in
    (
      record s {
        splits = splits';
        nodes = p.nodes;
        leafs = p.leafs;
        heap = p.heap;
        log = s.log ++ (if s.cur_copy == 0 then sync_from s.n_backends 0 else []);
      },
      p.n_replaced,
    )

pub advance_copy : Sched → Bool × Sched
unfolding next_nonzero_copy replaced
advance_copy s =
    let new_copy : ℕ = next_nonzero_copy s.n_copies s.next_copy in
    let (s', n_replaced) = replaced s new_copy in
    if not s.is_alloc || (leb s.n_copies 1 || length s.splits == 0)
    then (false, s)
    else if s.cur_copy == new_copy
    then (false, s)
    else if n_replaced == 0
    then (false, s')
    else (
      true,
      record s' { cur_copy = new_copy; next_copy = next_nonzero_copy s.n_copies (new_copy + 1) },
    )

-- The loop of `copy_graph_inputs`: the result, and what was done up to there.
pub copy_inputs : Sched → List ℕ → Bool × List Action
copy_inputs s [] = (true, [])
copy_inputs s (input ∷ inputs) =
    let (ok, log) = copy_inputs s inputs in
    elim (s.ids input) [
      | none ↦ (false, [])
      | some b ↦
          let cpy : ℕ = s.copy_of input b s.cur_copy in
          if is_null cpy then (false, []) else if cpy == input then (ok, log) else (
            ok,
            (if s.has_event b s.cur_copy then wait_event b s.cur_copy else synchronize b)
                ∷ copy_tensor input cpy
                ∷ log,
          )
    ]

pub copy_graph_inputs : Sched → Bool × Sched
unfolding copy_inputs
copy_graph_inputs s =
    let (ok, log) = copy_inputs s s.graph_inputs in
    if not s.is_alloc || leb s.n_copies 1 then (true, s) else (ok, record s { log = s.log ++ log })
