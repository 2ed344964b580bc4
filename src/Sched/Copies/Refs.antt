-- ===== src/Sched/Copies/Refs.antt =====
-- `ggml_backend_sched_replace_tensor_refs` (code/source/ggml/src/ggml-backend.cpp) leaves no reference
-- to the old tensor in the graph.
use gfx906_mixed_cuda_rocm_r.Base.{
  ℕ, ◌≡◌, ◌≢◌, ◌⊎◌, inl, inr, ◌||◌, List, [], ◌∷◌, map, arith, ◌==◌, if◌then◌else◌, Bool-cases, All,
  ==-refl,
}
use gfx906_mixed_cuda_rocm_r.Base.Maps.{update}
use gfx906_mixed_cuda_rocm_r.Sched.{Tensor, Heap, is_null}
use gfx906_mixed_cuda_rocm_r.Sched.Copies.{renamed, rename_node, replace_nodes, replace_tensor_refs}

module _ (old_tensor new_tensor : ℕ) (differ : old_tensor ≢ new_tensor) where
  -- The tensor holds no reference to the old one.
  abbrev pub Clean : Tensor → Type 0
  Clean t = (t.view_src ≢ old_tensor) × All (λ s. s ≢ old_tensor) t.src

  map-renamed : (l : List ℕ) → All (λ s. s ≢ old_tensor) (map (renamed old_tensor new_tensor) l)
  map-renamed [] = tt
  map-renamed (x ∷ l) = (λ e. ground arith, map-renamed l)

  rename_node-Clean : (t : Tensor) → Clean (rename_node old_tensor new_tensor t)
  unfolding rename_node
  rename_node-Clean t = (λ e. ground arith, map-renamed t.src)

  -- A tensor that is clean stays so.
  keeps-Clean :
      (nodes : List ℕ) (heap : Heap) (x : ℕ)
      → Clean (heap x)
      → Clean ((replace_nodes old_tensor new_tensor nodes heap).1 x)
  unfolding replace_nodes update
  keeps-Clean [] heap x h = h
  keeps-Clean (node ∷ nodes) heap x h =
      keeps-Clean nodes _ x (elim (Bool-cases (node == old_tensor || is_null node)) [
        | inl t ↦ rw t h
        | inr f ↦ elim (Bool-cases (x == node)) [
          | inl e ↦ rw (f, e) (rename_node-Clean (heap node))
          | inr e ↦ rw (f, e) h
        ]
      ])

  -- The nodes afterwards: none is the old tensor, and each is NULL, in the place of the old tensor, or
  -- refers to the old tensor no more.
  replace_nodes-Clean :
      (nodes : List ℕ) (heap : Heap)
      → All (λ x. x ≢ old_tensor) (replace_nodes old_tensor new_tensor nodes heap).0
        × All
            (λ x.
              (x ≡ 0)
              ⊎ ((x ≡ old_tensor) ⊎ Clean ((replace_nodes old_tensor new_tensor nodes heap).1 x)))
            nodes
  unfolding replace_nodes update
  replace_nodes-Clean [] heap = (tt, tt)
  replace_nodes-Clean (node ∷ nodes) heap =
      let heap' : Heap =
        if node == old_tensor || is_null node
        then heap
        else update heap node (rename_node old_tensor new_tensor (heap node)) in
      let later = replace_nodes-Clean nodes heap' in
      (
        (λ e. ground arith, later.0),
        (
          elim (Bool-cases (is_null node)) [
            | inl t ↦ inl (ground arith)
            | inr f ↦ elim (Bool-cases (node == old_tensor)) [
              | inl t ↦ inr (inl (ground arith))
              | inr g ↦ inr (
                  inr (
                    keeps-Clean nodes heap' node
                      (rw (f, g, ==-refl node) (rename_node-Clean (heap node)))))
            ]
          ],
          later.1,
        ),
      )

  -- Where the old and the new tensor differ: afterwards neither a node nor a leaf of the graph is the
  -- old tensor, and each former node that is neither NULL nor the old tensor itself refers to it no
  -- more, by its view source or a source.
  pub replace_tensor_refs_lem :
      (nodes leafs : List ℕ) (heap : Heap)
      → let (nodes', leafs', heap', n) =
          replace_tensor_refs old_tensor new_tensor nodes leafs heap in
        All (λ x. x ≢ old_tensor) nodes'
        × All (λ x. x ≢ old_tensor) leafs'
        × All (λ x. (x ≡ 0) ⊎ ((x ≡ old_tensor) ⊎ Clean (heap' x))) nodes
  unfolding replace_tensor_refs
  replace_tensor_refs_lem nodes leafs heap =
      let r = replace_nodes-Clean nodes heap in (r.0, map-renamed leafs, r.1)
