-- ===== src/Sched/Assign/Fixed.antt =====
-- What passes 1 to 4 of `ggml_backend_sched_split_graph` (code/source/ggml/src/ggml-backend.cpp) do
-- to a tensor that has a backend already.
use gfx906_mixed_cuda_rocm_r.Base.{
  ℕ, zero, suc, ◌+◌, ◌≤◌, ◌<◌, ◌≡◌, inl, inr, Bool, true, false, Option, none, some, List, [], ◌∷◌,
  arith, ◌==◌, is_some, Bool-cases, Option-cases,
}
use mathlib.Core.List.{reverse}
use mathlib.Core.Path.{subst}
use mathlib.Core.Option.{some-injective}
use gfx906_mixed_cuda_rocm_r.Base.Maps.{update}
use gfx906_mixed_cuda_rocm_r.Sched.{Backends, Heap, Ids, first_from, backend_id_from_cur}
use gfx906_mixed_cuda_rocm_r.Sched.Assign.{
  assign_located, expand_step, expand, expand_gpu_down, expand_gpu_up, expand_rest_down,
  expand_rest_up, set_if_supported, fill_src, fill_srcs, fill_view, fill_first, fill_node, fill,
}

-- What a search from `i` finds: the first number that passes.
pub first_from-some :
    (n i k : ℕ) (test : ℕ → Bool)
    → first_from n i test ≡ some k
    → (i ≤ k) × (k < i + n) × (test k ≡ true)
unfolding first_from
first_from-some zero i k test e = ground arith
first_from-some (suc n) i k test e = elim (Bool-cases (test i)) [
  | inl t ↦ let same : i ≡ k = ground arith in (omega arith, omega arith, rw (← same) t)
  | inr f ↦ ground (arith, first_from-some n (i + 1) k test)
]

pub first_from-none :
    (n i k : ℕ) (test : ℕ → Bool) → first_from n i test ≡ none → i ≤ k → k < i + n → test k ≡ false
unfolding first_from
first_from-none zero i k test e l u = absurd (omega arith)
first_from-none (suc n) i k test e l u = elim (Bool-cases (i == k)) [
  | inl t ↦ let same : i ≡ k = ground arith in rw (← same) (ground arith)
  | inr f ↦ first_from-none n (i + 1) k test (ground arith) (ground arith) (omega arith)
]

-- Every assignment is left as it is.
abbrev pub Stays : Ids → Ids → Type 0
Stays ids ids' = (x b : ℕ) → ids x ≡ some b → ids' x ≡ some b

pub update-Stays : (ids : Ids) (k : ℕ) (v : Option ℕ) → ids k ≡ none → Stays ids (update ids k v)
unfolding update
update-Stays ids k v e x b h = ground arith

Stays-trans : (a b c : Ids) → Stays a b → Stays b c → Stays a c
Stays-trans a b c h k x v e = k x v (h x v e)

module _ (be : Backends) (heap : Heap) where
  pub assign_located-Stays :
      (ts : List ℕ) (ids ids' : Ids) → assign_located be heap ts ids ≡ some ids' → Stays ids ids'
  unfolding assign_located
  assign_located-Stays [] ids ids' e =
      λ x b h. subst (λ (i : Ids). i x ≡ some b) (some-injective _ _ e) h
  assign_located-Stays (t ∷ ts) ids ids' e = elim (Option-cases (ids t)) [
    | inr (b, q) ↦ assign_located-Stays ts ids ids' (rw (q, assign_located) at e)
    | inl q ↦ elim (Option-cases (backend_id_from_cur be heap t)) [
      | inl r ↦ λ x b h. cc (rw (q, r, assign_located) at e)
      | inr (id, r) ↦
          Stays-trans ids (update ids t id) ids' (update-Stays ids t id q)
            (assign_located-Stays ts (update ids t id) ids' (rw (q, r, assign_located) at e))
    ]
  ]

  expand_step-Stays :
      (skip_cpu : Bool) (node : ℕ) (cur : Option ℕ) (ids : Ids)
      → Stays ids (expand_step be heap skip_cpu node cur ids).1
  unfolding expand_step set_if_supported update
  expand_step-Stays skip_cpu node cur ids x b h = ground arith

  expand-Stays :
      (skip_cpu : Bool) (nodes : List ℕ) (cur : Option ℕ) (ids : Ids)
      → Stays ids (expand be heap skip_cpu nodes cur ids)
  unfolding expand
  expand-Stays skip_cpu [] cur ids x b h = h
  expand-Stays skip_cpu (node ∷ nodes) cur ids x b h =
      expand-Stays skip_cpu nodes (expand_step be heap skip_cpu node cur ids).0
        (expand_step be heap skip_cpu node cur ids).1 x b
        (expand_step-Stays skip_cpu node cur ids x b h)

  -- The four expansions of pass 2 change no assignment.
  pub expansions-Stays :
      (nodes : List ℕ) (ids : Ids)
      → Stays ids (
          expand_rest_up be heap nodes (
            expand_rest_down be heap nodes
              (expand_gpu_up be heap nodes (expand_gpu_down be heap nodes ids))))
  unfolding expand_gpu_down expand_gpu_up expand_rest_down expand_rest_up
  expansions-Stays nodes ids x b h = expand-Stays false (reverse nodes) none _ x b (
      expand-Stays false nodes none _ x b
        (expand-Stays true (reverse nodes) none _ x b (expand-Stays true nodes none ids x b h)))

  fill_src-Stays : (node s : ℕ) (ids : Ids) → Stays ids (fill_src be heap node s ids)
  unfolding fill_src update
  fill_src-Stays node s ids x b h = ground arith

  fill_srcs-Stays : (node : ℕ) (l : List ℕ) (ids : Ids) → Stays ids (fill_srcs be heap node l ids)
  unfolding fill_srcs
  fill_srcs-Stays node [] ids x b h = h
  fill_srcs-Stays node (s ∷ l) ids x b h =
      fill_srcs-Stays node l (fill_src be heap node s ids) x b (fill_src-Stays node s ids x b h)

  fill_view-Stays : (node : ℕ) (ids : Ids) → Stays ids (fill_view be heap node ids)
  unfolding fill_view update
  fill_view-Stays node ids x b h = ground arith

  fill_first-Stays : (node : ℕ) (ids : Ids) → Stays ids (fill_first be heap node ids)
  unfolding fill_first update
  fill_first-Stays node ids x b h = ground arith

  -- The assignments of pass 4 at a node before its assertion.
  abbrev pub filled : ℕ → Ids → Ids
  filled node ids =
      fill_first be heap node (fill_srcs be heap node (heap node).src (fill_view be heap node ids))

  pub filled-Stays : (node : ℕ) (ids : Ids) → Stays ids (filled node ids)
  filled-Stays node ids x b h =
      fill_first-Stays node _ x b
        (fill_srcs-Stays node (heap node).src _ x b (fill_view-Stays node ids x b h))

  -- The assertion holds, and what goes on is `filled`.
  pub fill_node-some :
      (node : ℕ) (ids ids' : Ids)
      → fill_node be heap node ids ≡ some ids'
      → (filled node ids ≡ ids') × (is_some (filled node ids node) ≡ true)
  unfolding fill_node
  fill_node-some node ids ids' e = elim (Bool-cases (is_some (filled node ids node))) [
    | inl t ↦ (some-injective _ _ (rw (t, fill_node) at e), t)
    | inr f ↦ cc (rw (f, fill_node) at e)
  ]

  pub fill_node-Stays :
      (node : ℕ) (ids ids' : Ids) → fill_node be heap node ids ≡ some ids' → Stays ids ids'
  fill_node-Stays node ids ids' e x b h =
      subst (λ (i : Ids). i x ≡ some b) (fill_node-some node ids ids' e).0
        (filled-Stays node ids x b h)

  pub fill-Stays :
      (nodes : List ℕ) (ids ids' : Ids) → fill be heap nodes ids ≡ some ids' → Stays ids ids'
  unfolding fill
  fill-Stays [] ids ids' e x b h = subst (λ (i : Ids). i x ≡ some b) (some-injective _ _ e) h
  fill-Stays (node ∷ nodes) ids ids' e x b h = elim (Option-cases (fill_node be heap node ids)) [
    | inl q ↦ cc (rw (q, fill) at e)
    | inr (mid, q) ↦
        fill-Stays nodes mid ids' (rw (q, fill) at e) x b (fill_node-Stays node ids mid q x b h)
  ]
