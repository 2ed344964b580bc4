-- ===== src/Sched/Assign/Total.antt =====
-- Pass 4 of `ggml_backend_sched_split_graph` (code/source/ggml/src/ggml-backend.cpp) leaves no node
-- without a backend.
use gfx906_mixed_cuda_rocm_r.Base.{
  ℕ, ◌<◌, ◌≡◌, refl, inl, inr, true, some, List, [], ◌∷◌, arith, Option-cases, All, ==-refl,
}
use gfx906_mixed_cuda_rocm_r.Base.Maps.{update}
use gfx906_mixed_cuda_rocm_r.Sched.{Backends, Heap, Ids, first_from}
use gfx906_mixed_cuda_rocm_r.Sched.Assign.{fill_srcs, fill_view, fill_first, fill_node, fill}
use gfx906_mixed_cuda_rocm_r.Sched.Assign.Fixed.{Stays, first_from-none, fill_node-Stays, filled}

module _ (be : Backends) (heap : Heap) where
  -- Some backend supports the node.
  abbrev pub Runs : ℕ → Type 0
  Runs node = (b : ℕ) × (b < be.n_backends) × (be.supports_op b node ≡ true)

  abbrev pub Has : Ids → ℕ → Type 0
  Has ids x = (b : ℕ) × (ids x ≡ some b)

  fill_first-Has : (node : ℕ) (ids : Ids) → Runs node → Has (fill_first be heap node ids) node
  unfolding fill_first update
  fill_first-Has node ids (b, l, s) = elim (Option-cases (ids node)) [
    | inr (c, q) ↦ (c, rw (q, fill_first) q)
    | inl q ↦ elim (Option-cases (first_from be.n_backends 0 (λ b. be.supports_op b node))) [
      | inr (c, r) ↦ (c, rw (q, r, fill_first) (rw (==-refl node)))
      | inl r ↦ cc (first_from-none be.n_backends 0 b _ r (omega arith) (omega arith))
    ]
  ]

  fill_node-Has :
      (node : ℕ) (ids : Ids)
      → Runs node
      → (ids' : Ids) × (fill_node be heap node ids ≡ some ids') × Has ids' node
  unfolding fill_node
  fill_node-Has node ids r =
      let h =
        fill_first-Has node (fill_srcs be heap node (heap node).src (fill_view be heap node ids))
          r in
      (filled be heap node ids, rw (h.1, fill_node), h)

  -- If every node is supported by some backend, pass 4 does not abort, every node has a backend
  -- after it, and no assignment from before is changed.
  pub fill_total :
      (nodes : List ℕ) (ids : Ids)
      → All Runs nodes
      → (ids' : Ids) × (fill be heap nodes ids ≡ some ids') × All (Has ids') nodes × Stays ids ids'
  unfolding fill
  fill_total [] ids r = (ids, refl, tt, λ x b e. e)
  fill_total (node ∷ nodes) ids r =
      let (mid, e, h) = fill_node-Has node ids r.0 in
      let (ids', e', hs, st) = fill_total nodes mid r.1 in
      (
        ids',
        rw (e, fill) e',
        ((h.0, st node h.0 h.1), hs),
        λ x b q. st x b (fill_node-Stays be heap node ids mid e x b q),
      )
