-- ===== src/Sched/Split/Tests.antt =====
-- A run of pass 5, and its theorem at it.
use gfx906_mixed_cuda_rocm_r.Base.{
  ℕ, ◌≡◌, refl, true, false, Option, none, some, List, [], ◌∷◌, arith, ◌==◌, if◌then◌else◌, All,
}
use mathlib.Core.Option
use gfx906_mixed_cuda_rocm_r.Sched.{other, Tensor, Backends}
use gfx906_mixed_cuda_rocm_r.Sched.Assign.{buffer_supported}
use gfx906_mixed_cuda_rocm_r.Sched.Split.{Split, State, Config, split_graph}
use gfx906_mixed_cuda_rocm_r.Sched.Split.Spans.{Chain, IsSplit, split_graph_lem}

abbrev two : Backends
two = record {
  n_backends = 2;
  supports_op = λ b t. true;
  supports_buft = λ b buft. b == buft;
  offload_op = λ b t. false;
  is_host = λ buft. buft == 1;
  bufts = λ b. b;
  op_offload = false;
}

abbrev plain : List ℕ → Tensor
plain src = record {
  op = other 0;
  view_src = 0;
  buffer = none;
  src = src;
  input = false;
  output = false;
}

-- A chain 1, 2, 3, 4 of tensors, the first two on backend 0 and the others on backend 1.
abbrev start : State
start = record {
  heap = λ t. if t == 2 then plain (1 ∷ []) else if t == 3 then plain (2 ∷ []) else plain [];
  copy_of = λ id b c. 0;
  next_tensor = 10;
  graph_inputs = [];
}

abbrev config : Config
config = record {
  backends = two;
  ids = λ t. if t == 1 then some 0 else if t == 2 then some 0 else some 1;
  n_copies = 1;
  cur_copy = 0;
  dup = λ t. record t { src = [] };
}

abbrev both : List Split
both =
    record { backend_id = some 0; i_start = 0; i_end = 2; inputs = [] }
    ∷ record { backend_id = some 1; i_start = 2; i_end = 4; inputs = 2 ∷ [] }
    ∷ []

abbrev graph : List ℕ
graph = 1 ∷ 2 ∷ 3 ∷ 4 ∷ []

abbrev result : Option (List Split × State)
result = split_graph config graph none start

splits_run : Option.map (λ r. r.0) (split_graph config graph none start) ≡ some both
unfolding split_graph buffer_supported
splits_run = refl

abbrev final : Option (List Split × State) → State
final none = start
final (some r) = r.1

-- Tensor 3 now reads a copy of tensor 2, the new tensor 10.
source_replaced : ((final (split_graph config graph none start)).heap 3).src ≡ 10 ∷ []
unfolding split_graph buffer_supported
source_replaced = refl

split_graph_lem_example : Chain 0 4 both × All (λ s. IsSplit config graph start s s.i_end) both
unfolding split_graph buffer_supported
split_graph_lem_example =
    split_graph_lem config graph none start (final result) both
      (omega arith, (omega arith, (omega arith, (omega arith, tt)))) refl
