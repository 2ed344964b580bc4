-- ===== src/Sched/Copies/Tests.antt =====
-- Runs of the rotation of copies, and its theorems at them.
use gfx906_mixed_cuda_rocm_r.Base.{
  ℕ, ◌<◌, ◌≡◌, ◌≢◌, refl, ◌⊎◌, true, false, none, some, List, [], ◌∷◌, arith, ◌==◌, if◌then◌else◌,
  All,
}
use gfx906_mixed_cuda_rocm_r.Sched.{other, Tensor}
use gfx906_mixed_cuda_rocm_r.Sched.Copies.{
  Sched, synchronize, copy_tensor, next_nonzero_copy, advance_copy, replace_tensor_refs,
  copy_graph_inputs, sync_from,
}
use gfx906_mixed_cuda_rocm_r.Sched.Copies.Rotate.{next_nonzero_copy_lem, advance_copy_lem}
use gfx906_mixed_cuda_rocm_r.Sched.Copies.Refs.{Clean, replace_tensor_refs_lem}

abbrev plain : List ℕ → Tensor
plain src = record {
  op = other 0;
  view_src = 0;
  buffer = none;
  src = src;
  input = false;
  output = false;
}

-- Input 1 has copies 1, 11 and 12 on backend 0; node 2 reads it.
abbrev rotating : Sched
rotating = record {
  is_alloc = true;
  n_backends = 2;
  n_copies = 3;
  cur_copy = 0;
  next_copy = 0;
  splits = record { backend_id = 0; inputs = 1 ∷ []; nodes = 2 ∷ [] } ∷ [];
  nodes = 2 ∷ [];
  leafs = 1 ∷ 11 ∷ [];
  graph_inputs = 1 ∷ [];
  heap = λ t. if t == 2 then plain (1 ∷ []) else plain [];
  copy_of = λ id b c. if c == 0 then 1 else if c == 1 then 11 else 12;
  ids = λ t. some 0;
  has_event = λ b c. false;
  log = [];
}

rotates :
    ((advance_copy rotating).0 ≡ true)
    × ((advance_copy rotating).1.cur_copy ≡ 1)
    × ((advance_copy rotating).1.next_copy ≡ 2)
    × ((advance_copy rotating).1.log ≡ synchronize 0 ∷ synchronize 1 ∷ [])
    × (((advance_copy rotating).1.heap 2).src ≡ 11 ∷ [])
unfolding advance_copy
rotates = (refl, refl, refl, refl, refl)

copies_inputs :
    (copy_graph_inputs (record rotating { cur_copy = 1 })).1.log
    ≡ synchronize 0 ∷ copy_tensor 1 11 ∷ []
unfolding copy_graph_inputs
copies_inputs = refl

next_nonzero_copy_lem_example :
    (next_nonzero_copy 3 3 ≡ 1) × (next_nonzero_copy 3 3 < 3) × (next_nonzero_copy 3 3 ≢ 0)
next_nonzero_copy_lem_example = next_nonzero_copy_lem 3 3 (omega arith)

advance_copy_lem_example :
    (((advance_copy rotating).0 ≡ false)
      × ((advance_copy rotating).1.cur_copy ≡ 0)
      × ((advance_copy rotating).1.next_copy ≡ 0))
    ⊎ (((advance_copy rotating).0 ≡ true)
        × ((advance_copy rotating).1.cur_copy ≢ 0)
        × ((advance_copy rotating).1.cur_copy < 3)
        × ((advance_copy rotating).1.cur_copy ≢ 0)
        × ((advance_copy rotating).1.next_copy < 3)
        × ((advance_copy rotating).1.next_copy ≢ 0)
        × ((advance_copy rotating).1.log ≡ sync_from 2 0))
advance_copy_lem_example = advance_copy_lem rotating

replace_tensor_refs_lem_example :
    let (nodes', leafs', heap', n) = replace_tensor_refs 1 11 (2 ∷ []) (1 ∷ []) rotating.heap in
    All (λ x. x ≢ 1) nodes'
    × All (λ x. x ≢ 1) leafs'
    × All (λ x. (x ≡ 0) ⊎ ((x ≡ 1) ⊎ Clean 1 11 (λ e. absurd (omega arith)) (heap' x))) (2 ∷ [])
replace_tensor_refs_lem_example =
    replace_tensor_refs_lem 1 11 (λ e. absurd (omega arith)) (2 ∷ []) (1 ∷ []) rotating.heap
