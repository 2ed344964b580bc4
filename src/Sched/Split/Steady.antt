-- ===== src/Sched/Split/Steady.antt =====
-- What the visits of pass 5 of `ggml_backend_sched_split_graph`
-- (code/source/ggml/src/ggml-backend.cpp) leave alone: the operations of the tensors that exist, and
-- all of the open split but its inputs.
use gfx906_mixed_cuda_rocm_r.Base.{
  ℕ, zero, suc, ◌+◌, ◌≤◌, ◌<◌, ◌≡◌, ◌≢◌, refl, ◌∙◌, inl, inr, Bool, true, not, ◌&&◌, some, List, [],
  ◌∷◌, arith, ltb, ◌==◌, if◌then◌else◌, Bool-cases, Option-cases, All, All-append, length,
  length-append,
}
use mathlib.Core.Path.{subst}
use mathlib.Core.Option.{some-injective}
use gfx906_mixed_cuda_rocm_r.Base.Maps.{update}
use gfx906_mixed_cuda_rocm_r.Sched.{is_null}
use gfx906_mixed_cuda_rocm_r.Sched.Split.{
  Split, State, Config, add_copy, input_copies, split_copies, register_input, copy_input, set_src,
  visit_src, visit_srcs, max_split_inputs, usable, set_copy,
}

-- Tensors are only added, and the operation of none changes.
pub record Steady (st st' : State) : Type 0 where
  pub grows : st.next_tensor ≤ st'.next_tensor
  pub ops : (t : ℕ) → t < st.next_tensor → (st'.heap t).op ≡ (st.heap t).op

pub Steady-refl : (st : State) → Steady st st
Steady-refl st = record { grows = omega arith; ops = λ t h. refl }

pub Steady-trans : (a b c : State) → Steady a b → Steady b c → Steady a c
Steady-trans a b c p q = record {
  grows = omega (arith, p.grows, q.grows);
  ops = λ t h. q.ops t (omega (arith, p.grows)) ∙ p.ops t h;
}

module _ (cfg : Config) where
  add_copy-Steady : (flag : Bool) (s b c : ℕ) (st : State) → Steady st (add_copy cfg flag s b c st)
  unfolding add_copy update
  add_copy-Steady flag s b c st = record { grows = omega arith; ops = λ t h. ground arith }

  input_step :
      (c s b : ℕ) (st : State)
      → Steady st (
          if c == cfg.cur_copy
          then set_copy
              (record st {
                heap = update st.heap s (record (st.heap s) { input = true; output = true });
              })
              s
              b
              c
              s
          else add_copy cfg true s b c st)
  unfolding update
  input_step c s b st = elim (Bool-cases (c == cfg.cur_copy)) [
    | inl t ↦ rw t (record { grows = omega arith; ops = λ x h. ground arith })
    | inr f ↦ rw f (add_copy-Steady true s b c st)
  ]

  input_copies-Steady : (n c s b : ℕ) (st : State) → Steady st (input_copies cfg n c s b st)
  unfolding input_copies update
  input_copies-Steady zero c s b st = Steady-refl st
  input_copies-Steady (suc n) c s b st =
      Steady-trans st _ _ (input_step c s b st) (input_copies-Steady n (c + 1) s b _)

  split_copies-Steady : (n c s b : ℕ) (st : State) → Steady st (split_copies cfg n c s b st)
  unfolding split_copies
  split_copies-Steady zero c s b st = Steady-refl st
  split_copies-Steady (suc n) c s b st =
      Steady-trans st _ _ (add_copy-Steady (ltb 1 cfg.n_copies) s b c st)
        (split_copies-Steady n (c + 1) s b _)

  set_src-Steady : (node j t : ℕ) (st : State) → Steady st (set_src cfg node j t st)
  unfolding set_src update
  set_src-Steady node j t st = record { grows = omega arith; ops = λ x h. ground arith }

  register_input-Steady :
      (s b : ℕ) (st st' : State) → register_input cfg s b st ≡ some st' → Steady st st'
  unfolding register_input
  register_input-Steady s b st st' e = elim (Bool-cases wanted) [
    | inr f ↦ subst (Steady st) (some-injective _ _ (rw (f, register_input) at e)) (Steady-refl st)
    | inl t ↦ elim (Bool-cases (ltb (length st.graph_inputs) max_split_inputs)) [
      | inr f ↦ cc (rw (t, f, register_input) at e)
      | inl l ↦
          let made = input_copies-Steady cfg.n_copies 0 s b st in
          subst (Steady st) (some-injective _ _ (rw (t, l, register_input) at e))
            (record { grows = made.grows; ops = made.ops })
    ]
  ]
    where
      wanted : Bool
      wanted = (st.heap s).input && (ltb 1 cfg.n_copies && is_null (st.copy_of s b 0))

  -- An input that comes from another backend.
  abbrev pub Foreign : ℕ → ℕ → Type 0
  Foreign cur t = (b : ℕ) × (cfg.ids t ≡ some b) × (b ≢ cur)

  -- An open split of backend `cur` before and after a visit.
  pub record Visited (cur : ℕ) (split split' : Split) (st st' : State) : Type 0 where
    pub backend : split'.backend_id ≡ split.backend_id
    pub start : split'.i_start ≡ split.i_start
    pub room : length split.inputs ≤ max_split_inputs → length split'.inputs ≤ max_split_inputs
    pub foreign : All (Foreign cur) split.inputs → All (Foreign cur) split'.inputs
    pub steady : Steady st st'

  Visited-trans :
      (cur : ℕ) (x y z : Split) (a b c : State)
      → Visited cur x y a b
      → Visited cur y z b c
      → Visited cur x z a c
  Visited-trans cur x y z a b c p q = record {
    backend = q.backend ∙ p.backend;
    start = q.start ∙ p.start;
    room = λ h. q.room (p.room h);
    foreign = λ h. q.foreign (p.foreign h);
    steady = Steady-trans a b c p.steady q.steady;
  }

  copy_input-Visited :
      (s cur b : ℕ) (split split' : Split) (st st' : State)
      → cfg.ids s ≡ some b
      → b ≢ cur
      → copy_input cfg s cur split st ≡ some (split', st')
      → Visited cur split split' st st'
  unfolding copy_input
  copy_input-Visited s cur b split split' st st' i ne e =
      elim (Bool-cases (is_null (st.copy_of s cur 0))) [
        | inr f ↦
            let same = some-injective _ _ (rw (f, copy_input) at e) in
            subst (λ (r : Split × State). Visited cur split r.0 st r.1) same
              (record {
                backend = refl;
                start = refl;
                room = λ h. h;
                foreign = λ h. h;
                steady = Steady-refl st;
              })
        | inl t ↦ elim (Bool-cases (ltb (length split.inputs) max_split_inputs)) [
          | inr f ↦ cc (rw (t, f, copy_input) at e)
          | inl l ↦
              let same = some-injective _ _ (rw (t, l, copy_input) at e) in
              subst (λ (r : Split × State). Visited cur split r.0 st r.1) same
                (record {
                  backend = refl;
                  start = refl;
                  room = λ h. ground (arith, length-append split.inputs (s ∷ []));
                  foreign = λ h. All-append (Foreign cur) split.inputs (s ∷ []) h ((b, i, ne), tt);
                  steady = split_copies-Steady cfg.n_copies 0 s cur st;
                })
        ]
      ]

  unchanged :
      (cur : ℕ) (split : Split) (st st' : State) → Steady st st' → Visited cur split split st st'
  unchanged cur split st st' h = record {
    backend = refl;
    start = refl;
    room = λ r. r;
    foreign = λ r. r;
    steady = h;
  }

  visit_src-Visited :
      (node j s cur : ℕ) (split split' : Split) (st st' : State)
      → visit_src cfg node j s cur split st ≡ some (split', st')
      → Visited cur split split' st st'
  unfolding visit_src
  visit_src-Visited node j s cur split split' st st' e = elim (Bool-cases (is_null s)) [
    | inl t ↦
        subst goal (some-injective _ _ (rw (t, visit_src) at e))
          (unchanged cur split st st (Steady-refl st))
    | inr f ↦ elim (Option-cases (cfg.ids s)) [
      | inl q ↦ cc (rw (f, q, visit_src) at e)
      | inr (b, q) ↦ elim (Option-cases (register_input cfg s b st)) [
        | inl r ↦ cc (rw (f, q, r, visit_src) at e)
        | inr (st1, r) ↦
            let first = register_input-Steady s b st st1 r in
            elim (Bool-cases (not (b == cur) && not (usable cfg st1 s (some cur)))) [
              | inr g ↦
                  subst goal (some-injective _ _ (rw (f, q, r, visit_src, g) at e))
                    (unchanged cur split st st1 first)
              | inl t ↦ elim (Option-cases (copy_input cfg s cur split st1)) [
                | inl c ↦ cc (rw (f, q, r, visit_src, t, c) at e)
                | inr ((mid, st2), c) ↦
                    subst goal (some-injective _ _ (rw (f, q, r, visit_src, t, c) at e)) (
                      Visited-trans cur split split mid st st1 _ (unchanged cur split st st1 first)
                        (Visited-trans cur split mid mid st1 st2 _
                          (copy_input-Visited s cur b split mid st1 st2 q (λ x. ground arith) c)
                          (unchanged cur mid st2 _ (set_src-Steady node j _ st2))))
              ]
            ]
      ]
    ]
  ]
    where
      goal : Split × State → Type 0
      goal r = Visited cur split r.0 st r.1

  pub visit_srcs-Visited :
      (node j : ℕ) (l : List ℕ) (cur : ℕ) (split split' : Split) (st st' : State)
      → visit_srcs cfg node j l cur split st ≡ some (split', st')
      → Visited cur split split' st st'
  unfolding visit_srcs
  visit_srcs-Visited node j [] cur split split' st st' e =
      subst (λ (r : Split × State). Visited cur split r.0 st r.1) (some-injective _ _ e)
        (unchanged cur split st st (Steady-refl st))
  visit_srcs-Visited node j (s ∷ l) cur split split' st st' e =
      elim (Option-cases (visit_src cfg node j s cur split st)) [
        | inl q ↦ cc (rw (q, visit_srcs) at e)
        | inr ((mid, st1), q) ↦
            Visited-trans cur split mid split' st st1 st'
              (visit_src-Visited node j s cur split mid st st1 q)
              (visit_srcs-Visited node (suc j) l cur mid split' st1 st' (rw (q, visit_srcs) at e))
      ]
