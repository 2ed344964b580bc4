-- ===== src/Sched/Split/Spans.antt =====
-- The splits that pass 5 of `ggml_backend_sched_split_graph`
-- (code/source/ggml/src/ggml-backend.cpp) makes of a graph.
use mathlib.Core.Path.{subst}
use mathlib.Core.Option.{some-injective}
use gfx906_mixed_cuda_rocm_r.Base.{
  ℕ, suc, ◌≤◌, ◌<◌, ◌≡◌, ◌≢◌, refl, sym, ap, ◌∙◌, inl, inr, true, false, not, ◌||◌, Option, none,
  some, List, [], ◌∷◌, ◌++◌, append_assoc, append-nil, arith, ◌==◌, Bool-cases, Option-cases, All,
  length, length-append, get_elem?, get_elem?-length,
}
use gfx906_mixed_cuda_rocm_r.Sched.{is_view_op}
use gfx906_mixed_cuda_rocm_r.Sched.Split.{
  Split, State, Config, visit_srcs, need_new_split, split_nodes, split_graph, max_split_inputs,
  same_id, open_split,
}
use gfx906_mixed_cuda_rocm_r.Sched.Split.Steady.{
  Steady, Steady-refl, Steady-trans, Visited, Foreign, visit_srcs-Visited,
}

-- The splits lie end to end from `a` to `n`.
abbrev pub Chain : ℕ → ℕ → List Split → Type 0
Chain a n [] = a ≡ n
Chain a n (s ∷ ss) = (s.i_start ≡ a) × (a ≤ s.i_end) × Chain s.i_end n ss

same_id-eq : (a b : Option ℕ) → same_id a b ≡ true → a ≡ b
same_id-eq none none h = refl
same_id-eq none (some b) h = cc
same_id-eq (some a) none h = cc
same_id-eq (some a) (some b) h = ground arith

module _ (cfg : Config) (b : ℕ) where
  abbrev Elsewhere : Option ℕ → ℕ → Type 0
  Elsewhere id t = (b' : ℕ) × (cfg.ids t ≡ some b') × (some b' ≢ id)

  to_foreign :
      (id : Option ℕ) (l : List ℕ) → id ≡ some b → All (Elsewhere id) l → All (Foreign cfg b) l
  to_foreign id [] e a = tt
  to_foreign id (t ∷ l) e ((b', q, ne), a) =
      ((b', q, λ same. ne (ap some same ∙ sym e)), to_foreign id l e a)

  from-Foreign :
      (id : Option ℕ) (l : List ℕ) → id ≡ some b → All (Foreign cfg b) l → All (Elsewhere id) l
  from-Foreign id [] e a = tt
  from-Foreign id (t ∷ l) e ((b', q, ne), a) =
      ((b', q, λ same. ne (some-injective _ _ (same ∙ e))), from-Foreign id l e a)

module _ (cfg : Config) (whole : List ℕ) (first : State) where
  -- A split of the nodes up to number `i`: at most 30 inputs, all from other backends, and every
  -- node in it that is no view has its backend.
  pub record IsSplit (s : Split) (i : ℕ) : Type 0 where
    pub start : s.i_start ≤ i
    pub room : length s.inputs ≤ max_split_inputs
    pub foreign : All (λ t. (b : ℕ) × (cfg.ids t ≡ some b) × (some b ≢ s.backend_id)) s.inputs
    pub runs :
        (j node : ℕ)
        → s.i_start ≤ j
        → j < i
        → get_elem? whole j ≡ some node
        → is_view_op (first.heap node).op ≡ false
        → cfg.ids node ≡ s.backend_id

  -- The rest of the loop.
  record Loop (nodes : List ℕ) (i : ℕ) (split : Split) (st : State) : Type 0 where
    suffix : (pre : List ℕ) × (whole ≡ pre ++ nodes) × (length pre ≡ i)
    opened : IsSplit split i
    steady : Steady first st

  abbrev Result : ℕ → List Split → Type 0
  Result a out = Chain a (length whole) out × All (λ s. IsSplit s s.i_end) out

  closed : (s : Split) (i : ℕ) → IsSplit s i → IsSplit (record s { i_end = i }) i
  closed s i h = record { start = h.start; room = h.room; foreign = h.foreign; runs = h.runs }

  -- The next node's number and name.
  at_node :
      (node i : ℕ) (nodes : List ℕ)
      → ((pre : List ℕ) × (whole ≡ pre ++ node ∷ nodes) × (length pre ≡ i))
      → (get_elem? whole i ≡ some node)
        × ((pre : List ℕ) × (whole ≡ pre ++ nodes) × (length pre ≡ suc i))
  at_node node i nodes (pre, e, l) = (
    rw (e, ← l) (get_elem?-length pre nodes node),
    (
      pre ++ node ∷ [],
      rw e (sym (append_assoc pre (node ∷ []) nodes)),
      omega (arith, length-append pre (node ∷ [])),
    ),
  )

  grow_view :
      (node i : ℕ) (s : Split)
      → get_elem? whole i ≡ some node
      → is_view_op (first.heap node).op ≡ true
      → IsSplit s i
      → IsSplit s (suc i)
  grow_view node i s g v h = record {
    start = omega (arith, h.start);
    room = h.room;
    foreign = h.foreign;
    runs = λ j node' l u e w. elim (Bool-cases (j == i)) [
      | inl t ↦ let same : j ≡ i = ground arith in cc (ap (get_elem? whole) same)
      | inr f ↦ h.runs j node' l (ground arith) e w
    ];
  }

  grow_node :
      (node i b : ℕ) (s s' : Split) (st st' : State)
      → get_elem? whole i ≡ some node
      → cfg.ids node ≡ some b
      → s.backend_id ≡ some b
      → Visited cfg b s s' st st'
      → IsSplit s i
      → IsSplit s' (suc i)
  grow_node node i b s s' st st' g e same v h = record {
    start = omega (arith, h.start, v.start);
    room = v.room h.room;
    foreign =
        from-Foreign cfg b s'.backend_id s'.inputs (v.backend ∙ same)
          (v.foreign (to_foreign cfg b s.backend_id s.inputs same h.foreign));
    runs = λ j node' l u q w. elim (Bool-cases (j == i)) [
      | inl t ↦ let here : j ≡ i = ground arith in cc (ap (get_elem? whole) here, v.backend)
      | inr f ↦ h.runs j node' (omega (arith, v.start)) (ground arith) q w ∙ sym v.backend
    ];
  }

  opened_at : (b i : ℕ) → IsSplit (open_split cfg b i) i
  opened_at b i = record {
    start = omega arith;
    room = omega arith;
    foreign = tt;
    runs = λ j node l u e w. absurd (omega arith);
  }

  -- The loop, from node `i` on.
  split_nodes-Result :
      (nodes : List ℕ) (i : ℕ) (split : Split) (st st' : State) (out : List Split)
      → All (λ t. t < first.next_tensor) nodes
      → ((pre : List ℕ) × (whole ≡ pre ++ nodes) × (length pre ≡ i))
      → IsSplit split i
      → Steady first st
      → split_nodes cfg nodes i split st ≡ some (out, st')
      → Result split.i_start out
  unfolding split_nodes
  split_nodes-Result [] i split st st' out below (pre, w, l) sp steady e =
      let same : record split { i_end = i } ∷ [] ≡ out =
        ap (λ (r : List Split × State). r.0) (some-injective _ _ e) in
      let at_end : i ≡ length whole = omega (arith, ap length w, ap length (append-nil pre)) in
      subst (Result split.i_start) same ((refl, sp.start, at_end), (closed split i sp, tt))
  split_nodes-Result (node ∷ nodes) i split st st' out below suf sp steady e =
      elim (Bool-cases (is_view_op (st.heap node).op)) [
        | inl t ↦
            split_nodes-Result nodes (suc i) split st st' out below.1 (here.1)
              (grow_view node i split here.0 (rw same_op at t) sp) steady (rw (t, split_nodes) at e)
        | inr f ↦ elim (Option-cases (cfg.ids node)) [
          | inl q ↦ cc (rw (f, q, split_nodes) at e)
          | inr (b, q) ↦
              elim (Bool-cases
                (not (same_id (some b) split.backend_id) || need_new_split cfg st split node)) [
                  | inl new ↦
                      elim (Option-cases
                        (visit_srcs cfg node 0 (st.heap node).src b (open_split cfg b i) st)) [
                          | inl r ↦ cc (rw (f, q, split_nodes, new, r) at e)
                          | inr ((mid, st1), r) ↦
                              elim (Option-cases (split_nodes cfg nodes (suc i) mid st1)) [
                                | inl r' ↦ cc (rw (f, q, split_nodes, new, r, r') at e)
                                | inr ((rest, st2), r') ↦
                                    let seen =
                                      visit_srcs-Visited cfg node 0 (st.heap node).src b
                                        (open_split cfg b i) mid st st1 r in
                                    let later =
                                      split_nodes-Result nodes (suc i) mid st1 st2 rest below.1
                                        here.1
                                        (grow_node node i b (open_split cfg b i) mid st st1 here.0 q
                                          refl seen (opened_at b i))
                                        (Steady-trans first st st1 steady seen.steady) r' in
                                    let same : record split { i_end = i } ∷ rest ≡ out =
                                      ap (λ (z : List Split × State). z.0)
                                        (some-injective _ _
                                          (rw (f, q, split_nodes, new, r, r') at e)) in
                                    subst (Result split.i_start) same (
                                      (refl, sp.start, rw seen.start at later.0),
                                      (closed split i sp, later.1),
                                    )
                              ]
                        ]
                  | inr old ↦
                      elim (Option-cases (visit_srcs cfg node 0 (st.heap node).src b split st)) [
                        | inl r ↦ cc (rw (f, q, split_nodes, old, r) at e)
                        | inr ((mid, st1), r) ↦
                            let seen =
                              visit_srcs-Visited cfg node 0 (st.heap node).src b split mid st st1
                                r in
                            let backend : split.backend_id ≡ some b =
                              sym (same_id-eq (some b) split.backend_id (ground arith)) in
                            rw (seen.start) at (
                              split_nodes-Result nodes (suc i) mid st1 st' out below.1 here.1
                                (grow_node node i b split mid st st1 here.0 q backend seen sp)
                                (Steady-trans first st st1 steady seen.steady)
                                (rw (f, q, split_nodes, old, r) at e))
                      ]
                ]
        ]
      ]
    where
      here :
          (get_elem? whole i ≡ some node)
          × ((pre : List ℕ) × (whole ≡ pre ++ nodes) × (length pre ≡ suc i))
      here = at_node node i nodes suf

      same_op : (st.heap node).op ≡ (first.heap node).op
      same_op = steady.ops node below.0

-- When pass 5 ends without an abort, its splits lie end to end over all nodes of the graph, from
-- number 0 to the last. Every node of a split that is no view has the backend of the split. A split
-- has at most 30 inputs, and each is assigned to another backend. The nodes are tensors that existed
-- before.
pub split_graph_lem :
    (cfg : Config) (nodes : List ℕ) (last : Option ℕ) (st st' : State) (splits : List Split)
    → All (λ t. t < st.next_tensor) nodes
    → split_graph cfg nodes last st ≡ some (splits, st')
    → Chain 0 (length nodes) splits × All (λ s. IsSplit cfg nodes st s s.i_end) splits
unfolding split_graph
split_graph_lem cfg nodes last st st' splits below e =
    split_nodes-Result cfg nodes st nodes 0 _ st st' splits below ([], refl, refl)
      (record {
        start = omega arith;
        room = omega arith;
        foreign = tt;
        runs = λ j node l u g w. absurd (omega arith);
      })
      (Steady-refl st) e
