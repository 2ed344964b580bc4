-- ===== src/Sched/Assign/Raise.antt =====
-- Pass 3 of `ggml_backend_sched_split_graph` (code/source/ggml/src/ggml-backend.cpp), and what
-- passes 1 to 4 together leave of an assignment that was there before.
use gfx906_mixed_cuda_rocm_r.Base.{
  ℕ, zero, suc, ◌+◌, ◌<◌, ◌≡◌, ◌≢◌, refl, ap, ◌∙◌, ◌⊎◌, inl, inr, true, ◌&&◌, Option, some, List,
  [], ◌∷◌, arith, ◌==◌, Bool-cases, Option-cases,
}
use gfx906_mixed_cuda_rocm_r.Base.Maps.{update}
use gfx906_mixed_cuda_rocm_r.Sched.{is_view_op, Backends, Heap, Ids, first_from}
use gfx906_mixed_cuda_rocm_r.Sched.Assign.{
  assign_located, most_supported, upgrade, choose_node, choose, all_supported, assign,
}
use gfx906_mixed_cuda_rocm_r.Sched.Assign.Fixed.{
  first_from-some, assign_located-Stays, expansions-Stays, fill-Stays,
}

module _ (be : Backends) (heap : Heap) where
  -- Backend `b'` is `b`, or comes before it, shares its buffer type and supports the tensor's
  -- operation.
  abbrev pub Raised : ℕ → ℕ → ℕ → Type 0
  Raised x b b' = (b' ≡ b) ⊎ ((b' < b) × (be.bufts b' ≡ be.bufts b) × (be.supports_op b' x ≡ true))

  Raised-trans : (x a b c : ℕ) → Raised x a b → Raised x b c → Raised x a c
  Raised-trans x a b c p (inl q) = rw q p
  Raised-trans x a b c (inl p) (inr q) = inr (rw (← p) q)
  Raised-trans x a b c (inr p) (inr q) = inr (omega arith, q.1 ∙ p.1, q.2)

  abbrev Raises : Ids → Ids → Type 0
  Raises ids ids' = (x b : ℕ) → ids x ≡ some b → (b' : ℕ) × (ids' x ≡ some b') × Raised x b b'

  upgrade-Raises :
      (node home : ℕ) (ids : Ids)
      → ids node ≡ some home
      → Raises ids (upgrade be heap node home ids)
  unfolding upgrade update
  upgrade-Raises node home ids h x b e = elim (Option-cases found) [
    | inl q ↦ (b, rw (q, upgrade) e, inl refl)
    | inr (b', q) ↦ elim (Bool-cases (x == node)) [
      | inl t ↦
          let p = first_from-some home 0 b' _ q in
          let same : x ≡ node = ground arith in
          let here : home ≡ b = ground (arith, ap ids same) in
          (
            b',
            rw (q, upgrade, t),
            inr (omega arith, rw (← here) (ground (arith, p.2)), rw same (ground (arith, p.2))),
          )
      | inr f ↦ (b, rw (q, upgrade, f) e, inl refl)
    ]
  ]
    where
      found : Option ℕ
      found = first_from home 0 λ b.
          be.bufts b == be.bufts home
          && (be.supports_op b node && all_supported be heap ids b (heap node).src)

  most_supported-ne :
      (n b node best : ℕ) (ids : Ids) (x : ℕ)
      → x ≢ node
      → most_supported be heap n b node best ids x ≡ ids x
  unfolding most_supported update
  most_supported-ne zero b node best ids x h = refl
  most_supported-ne (suc n) b node best ids x h =
      most_supported-ne n (b + 1) node _ _ x h ∙ ground arith

  choose_node-Raises : (node : ℕ) (ids : Ids) → Raises ids (choose_node be heap node ids)
  unfolding choose_node
  choose_node-Raises node ids x b e = elim (Bool-cases (is_view_op (heap node).op)) [
    | inl t ↦ (b, rw (t, choose_node) e, inl refl)
    | inr f ↦ elim (Option-cases (ids node)) [
      | inl q ↦ (
        b,
        rw (f, q, choose_node)
            (most_supported-ne be.n_backends 0 node 0 ids x (λ s. cc (ap ids s)) ∙ e),
        inl refl,
      )
      | inr (home, q) ↦
          let r = upgrade-Raises node home ids q x b e in (r.0, rw (f, q, choose_node) r.1, r.2)
    ]
  ]

  choose-Raises : (nodes : List ℕ) (ids : Ids) → Raises ids (choose be heap nodes ids)
  unfolding choose
  choose-Raises [] ids x b e = (b, e, inl refl)
  choose-Raises (node ∷ nodes) ids x b e =
      let p = choose_node-Raises node ids x b e in
      let q = choose-Raises nodes (choose_node be heap node ids) x p.0 p.1 in
      (q.0, q.1, Raised-trans x b p.0 q.0 p.2 q.2)

  -- When passes 1 to 4 end without an abort, a tensor that had a backend before, such as one that
  -- the user chose, has that backend, or one of higher priority with the same buffer type that
  -- supports its operation.
  pub assign-Raises :
      (leafs nodes : List ℕ) (ids ids' : Ids)
      → assign be heap leafs nodes ids ≡ some ids'
      → (x b : ℕ) → ids x ≡ some b
      → (b' : ℕ) × (ids' x ≡ some b') × Raised x b b'
  unfolding assign
  assign-Raises leafs nodes ids ids' h x b e =
      elim (Option-cases (assign_located be heap leafs ids)) [
        | inl q ↦ cc (rw (q, assign) at h)
        | inr (ids1, q) ↦ elim (Option-cases (assign_located be heap nodes ids1)) [
          | inl r ↦ cc (rw (q, r, assign) at h)
          | inr (ids2, r) ↦
              let located =
                assign_located-Stays be heap nodes ids1 ids2 r x b
                  (assign_located-Stays be heap leafs ids ids1 q x b e) in
              let chosen =
                choose-Raises nodes _ x b (expansions-Stays be heap nodes ids2 x b located) in
              (
                chosen.0,
                fill-Stays be heap nodes _ ids' (rw (q, r, assign) at h) x chosen.0 chosen.1,
                chosen.2,
              )
        ]
      ]
