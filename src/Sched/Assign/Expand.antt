-- ===== src/Sched/Assign/Expand.antt =====
-- The expansions of pass 2 of `ggml_backend_sched_split_graph`
-- (code/source/ggml/src/ggml-backend.cpp): which backend a node can get from them.
use gfx906_mixed_cuda_rocm_r.Base.{
  ℕ, ◌≡◌, ◌≢◌, refl, ◌⊎◌, inl, inr, Bool, true, false, ◌&&◌, Option, none, some, List, [], ◌∷◌,
  arith, ◌==◌, Bool-cases, Option-cases,
}
use mathlib.Core.List.{reverse}
use gfx906_mixed_cuda_rocm_r.Base.Maps.{update}
use gfx906_mixed_cuda_rocm_r.Sched.{is_view_op, Backends, Heap, Ids, last_backend}
use gfx906_mixed_cuda_rocm_r.Sched.Assign.{
  set_if_supported, expand_step, expand, expand_gpu_down, expand_gpu_up, expand_rest_down,
  expand_rest_up,
}

module _ (be : Backends) (heap : Heap) where
  -- The backend carried along is not one to be skipped.
  abbrev Carried : Bool → Option ℕ → Type 0
  Carried skip none = Unit {0}
  Carried skip (some b) = skip ≡ true → b ≢ last_backend be heap

  -- A new assignment: a node that is no view, and a backend that supports it; with `skip` not the
  -- backend of lowest priority.
  record Given (skip : Bool) (x b : ℕ) : Type 0 where
    no_view : is_view_op (heap x).op ≡ false
    supported : be.supports_op b x ≡ true
    no_cpu : skip ≡ true → b ≢ last_backend be heap

  abbrev Gives : Bool → Ids → Ids → Type 0
  Gives skip ids ids' = (x b : ℕ) → ids' x ≡ some b → (ids x ≡ some b) ⊎ Given skip x b

  step-Carried :
      (skip : Bool) (node : ℕ) (cur : Option ℕ) (ids : Ids)
      → Carried skip cur
      → Carried skip (expand_step be heap skip node cur ids).0
  unfolding expand_step
  step-Carried skip node cur ids h = elim (Bool-cases (is_view_op (heap node).op)) [
    | inl t ↦ rw (t, expand_step) h
    | inr f ↦ elim (Option-cases (ids node)) [
      | inl q ↦ rw (f, q, expand_step) (from_cur cur h)
      | inr (b, q) ↦ elim (Bool-cases (skip && b == last_backend be heap)) [
        | inl t ↦ rw (f, q, expand_step, t) tt
        | inr g ↦ rw (f, q, expand_step, g) (λ on same. ground arith)
      ]
    ]
  ]
    where
      from_cur :
          (cur : Option ℕ)
          → Carried skip cur
          → Carried skip (
              let r : Option ℕ × Ids = elim cur [
                | none ↦ (none, ids)
                | some c ↦ (some c, set_if_supported be heap node c ids)
              ] in
              r.0)
      from_cur none h = tt
      from_cur (some c) h = h

  step-Gives :
      (skip : Bool) (node : ℕ) (cur : Option ℕ) (ids : Ids)
      → Carried skip cur
      → Gives skip ids (expand_step be heap skip node cur ids).1
  unfolding expand_step set_if_supported update
  step-Gives skip node none ids h x b e = inl (ground arith)
  step-Gives skip node (some c) ids h x b e = elim (Bool-cases (is_view_op (heap node).op)) [
    | inl t ↦ inl (rw (t, expand_step) at e)
    | inr f ↦ elim (Option-cases (ids node)) [
      | inr (d, q) ↦ inl (rw (f, q, expand_step) at e)
      | inl q ↦ elim (Bool-cases (be.supports_op c node)) [
        | inr n ↦ inl (rw (f, q, expand_step, n) at e)
        | inl u ↦ elim (Bool-cases (x == node)) [
          | inr n ↦ inl (ground arith)
          | inl t ↦
              let same : x ≡ node = ground arith in
              let b_c : c ≡ b = ground arith in
              inr (record {
                no_view = rw same f;
                supported = rw (same, ← b_c) u;
                no_cpu = rw (← b_c) h;
              })
        ]
      ]
    ]
  ]

  expand-Gives :
      (skip : Bool) (nodes : List ℕ) (cur : Option ℕ) (ids : Ids)
      → Carried skip cur
      → Gives skip ids (expand be heap skip nodes cur ids)
  unfolding expand
  expand-Gives skip [] cur ids h x b e = inl e
  expand-Gives skip (node ∷ nodes) cur ids h x b e =
      elim (expand-Gives skip nodes (expand_step be heap skip node cur ids).0
        (expand_step be heap skip node cur ids).1 (step-Carried skip node cur ids h) x b e) [
          | inl old ↦ step-Gives skip node cur ids h x b old
          | inr new ↦ inr new
        ]

  -- What a node has after the two expansions of the GPU backends, and had not before, is a backend
  -- that supports its operation and is not the one of lowest priority; and the node is no view.
  pub expand_gpu_lem :
      (nodes : List ℕ) (ids : Ids) (x b : ℕ)
      → ids x ≡ none
      → expand_gpu_up be heap nodes (expand_gpu_down be heap nodes ids) x ≡ some b
      → (is_view_op (heap x).op ≡ false) × (be.supports_op b x ≡ true) × (b ≢ last_backend be heap)
  unfolding expand_gpu_up expand_gpu_down
  expand_gpu_lem nodes ids x b h e = elim (expand-Gives true (reverse nodes) none _ tt x b e) [
    | inr g ↦ (g.no_view, g.supported, g.no_cpu refl)
    | inl old ↦ elim (expand-Gives true nodes none ids tt x b old) [
      | inr g ↦ (g.no_view, g.supported, g.no_cpu refl)
      | inl older ↦ cc
    ]
  ]

  -- The two expansions after those give only backends that support the operation, and none to a
  -- view.
  pub expand_rest_lem :
      (nodes : List ℕ) (ids : Ids) (x b : ℕ)
      → ids x ≡ none
      → expand_rest_up be heap nodes (expand_rest_down be heap nodes ids) x ≡ some b
      → (is_view_op (heap x).op ≡ false) × (be.supports_op b x ≡ true)
  unfolding expand_rest_up expand_rest_down
  expand_rest_lem nodes ids x b h e = elim (expand-Gives false (reverse nodes) none _ tt x b e) [
    | inr g ↦ (g.no_view, g.supported)
    | inl old ↦ elim (expand-Gives false nodes none ids tt x b old) [
      | inr g ↦ (g.no_view, g.supported)
      | inl older ↦ cc
    ]
  ]
