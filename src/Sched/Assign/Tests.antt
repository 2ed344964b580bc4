-- ===== src/Sched/Assign/Tests.antt =====
-- Runs of passes 1 to 4 on a small graph, and their theorems at it.
use gfx906_mixed_cuda_rocm_r.Base.{
  ℕ, ◌≡◌, ◌≢◌, refl, true, false, ◌&&◌, Option, none, some, List, [], ◌∷◌, arith, ◌==◌,
  if◌then◌else◌, All,
}
use gfx906_mixed_cuda_rocm_r.Sched.{other, Tensor, Backends, Heap, Ids, is_view_op, last_backend}
use gfx906_mixed_cuda_rocm_r.Sched.Assign.{assign, expand_gpu_down, expand_gpu_up, fill}
use gfx906_mixed_cuda_rocm_r.Sched.Assign.Raise.{Raised, assign-Raises}
use gfx906_mixed_cuda_rocm_r.Sched.Assign.Fixed.{Stays}
use gfx906_mixed_cuda_rocm_r.Sched.Assign.Expand.{expand_gpu_lem}
use gfx906_mixed_cuda_rocm_r.Sched.Assign.Total.{Has, fill_total}

-- Two GPUs, 0 and 1, and the CPU, 2. GPU 1 cannot run tensor 5. All use their own buffers, type 0,
-- 1 and 2.
abbrev three : Backends
three = record {
  n_backends = 3;
  supports_op = λ b t. if b == 1 && t == 5 then false else true;
  supports_buft = λ b buft. b == buft;
  offload_op = λ b t. false;
  is_host = λ buft. buft == 2;
  bufts = λ b. b;
  op_offload = false;
}

abbrev plain : ℕ → List ℕ → Tensor
plain n src = record {
  op = other n;
  view_src = 0;
  buffer = none;
  src = src;
  input = false;
  output = false;
}

-- 1 and 2 are weights on GPU 1 and GPU 0; 3 is a graph input; 4 multiplies 3 by 1, 5 and 6 work on
-- its result, and 7 multiplies by 2.
abbrev tensors : Heap
tensors t =
    if t == 1
    then record (plain 0 []) { buffer = some (record { buft = 1; weights = true }) }
    else if t == 2
    then record (plain 0 []) { buffer = some (record { buft = 0; weights = true }) }
    else if t == 3
    then record (plain 0 []) { input = true }
    else if t == 4
    then plain 1 (1 ∷ 3 ∷ [])
    else if t == 5
    then plain 2 (4 ∷ [])
    else if t == 6
    then plain 2 (5 ∷ [])
    else if t == 7
    then plain 1 (2 ∷ 6 ∷ [])
    else plain 3 []

abbrev nodes : List ℕ
nodes = 4 ∷ 5 ∷ 6 ∷ 7 ∷ []

abbrev leafs : List ℕ
leafs = 1 ∷ 2 ∷ 3 ∷ []

abbrev no_ids : Ids
no_ids t = none

-- The user puts 6 on the CPU.
abbrev user_ids : Ids
user_ids t = if t == 6 then some 2 else none

abbrev ids_of : Option Ids → List ℕ → List (Option ℕ)
ids_of o [] = []
ids_of none (t ∷ ts) = none ∷ ids_of none ts
ids_of (some ids) (t ∷ ts) = ids t ∷ ids_of (some ids) ts

-- Without the user, 5 goes with GPU 0, since GPU 1 does not support it.
assign_runs :
    ids_of (assign three tensors leafs nodes no_ids) nodes ≡ some 1 ∷ some 0 ∷ some 1 ∷ some 0 ∷ []
unfolding assign
assign_runs = refl

abbrev run_with_user : Option Ids
run_with_user = assign three tensors [] (6 ∷ []) user_ids

abbrev or_none : Option Ids → Ids
or_none none t = none
or_none (some ids) t = ids t

with_user :
    ids_of (assign three tensors leafs nodes user_ids) nodes
    ≡ some 1 ∷ some 2 ∷ some 2 ∷ some 0 ∷ []
unfolding assign
with_user = refl

assign-Raises_example : (b' : ℕ) × (or_none run_with_user 6 ≡ some b') × Raised three tensors 6 2 b'
unfolding assign
assign-Raises_example =
    assign-Raises three tensors [] (6 ∷ []) user_ids (or_none run_with_user) refl 6 2 refl

abbrev located : Ids
located t = if t == 4 then some 1 else none

expand_gpu_lem_example :
    (is_view_op (tensors 6).op ≡ false)
    × (three.supports_op 1 6 ≡ true)
    × (1 ≢ last_backend three tensors)
unfolding expand_gpu_up expand_gpu_down
expand_gpu_lem_example = expand_gpu_lem three tensors nodes located 6 1 refl refl

abbrev on_cpu : Ids
on_cpu t = if t == 4 then some 2 else none

fill_total_example :
    (ids' : Ids) × (fill three tensors nodes located ≡ some ids')
    × All (Has three tensors ids') nodes
    × Stays located ids'
fill_total_example = fill_total three tensors nodes located (
  (0, omega arith, refl),
  ((0, omega arith, refl), ((0, omega arith, refl), ((0, omega arith, refl), tt))),
)
