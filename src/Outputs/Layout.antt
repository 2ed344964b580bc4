-- ===== src/Outputs/Layout.antt =====
-- `llama_context::output_reserve` (code/source/src/llama-context.cpp): the views of the buffer.
use gfx906_mixed_cuda_rocm_r.Base.{
  ℕ, ◌+◌, ◌*◌, ◌^◌, ◌<◌, if◌then◌else◌, ◌≤◌, ◌≡◌, max, inl, inr, refl, sym, ap, Bool, true, false,
  Option, none, some, List, [], ◌∷◌, ltb, Bool-cases, Option-cases, length, length-replicate,
  replicate, arith,
}
use gfx906_mixed_cuda_rocm_r.Outputs.{
  wrap32, when, wrap64, logits_size, Config, View, Buffers, view_at, n_outputs_max, has_embd,
  init_ids, embd_size, pre_norm_size, float_count, token_count, new_size, reserve_buffer, lay_out,
  output_reserve,
}
use mathlib.Core.Option.{some-injective}
use mathlib.Core.Path.{subst}

-- The views follow each other from a place on, and end before another.
abbrev pub Chained : ℕ → List (Option View) → ℕ → Type 0
Chained from [] top = from ≤ top
Chained from (none ∷ vs) top = Chained from vs top
Chained from (some v ∷ vs) top = (from ≤ v.start) × Chained (v.start + v.size * 4) vs top

abbrev pub views : Buffers → List (Option View)
views b =
    b.logits ∷ b.embd ∷ b.embd_pre_norm ∷ b.sampling_logits ∷ b.sampling_probs ∷ b.sampling_sampled
    ∷ b.sampling_candidates ∷ []

Chained-mono :
    (vs : List (Option View)) (from from' top : ℕ)
    → from' ≤ from
    → Chained from vs top
    → Chained from' vs top
Chained-mono [] from from' top h c = omega arith
Chained-mono (none ∷ vs) from from' top h c = Chained-mono vs from from' top h c
Chained-mono (some v ∷ vs) from from' top h c = (omega (arith, c.0), c.1)

Chained-view_at :
    (has : Bool) (from start size top : ℕ) (vs : List (Option View))
    → from ≤ start
    → Chained (start + size * 4) vs top
    → Chained from (view_at has start size ∷ vs) top
unfolding view_at
Chained-view_at true from start size top vs h c = (h, c)
Chained-view_at false from start size top vs h c =
    Chained-mono vs (start + size * 4) from top (omega arith) c

-- The size of the buffer, as a number that does not wrap.
abbrev pub exact_size : Config → ℕ → ℕ
exact_size cfg m =
    cfg.n_vocab * m * 4
    + when cfg (has_embd cfg) (cfg.n_embd_out * m) * 4
    + when cfg cfg.embeddings_pre_norm
        (cfg.n_embd * (if cfg.embeddings_pre_norm_masked then m else cfg.n_batch))
      * 4
    + when cfg cfg.has_samplers
        (cfg.n_vocab * m * 4 + cfg.n_vocab * m * 4 + m * 4 + cfg.n_vocab * m * 4)

wrap64_id : (n : ℕ) → n < 2 ^ 64 → wrap64 n ≡ n
wrap64_id n h = omega (arith, h)

when-wrap64 :
    (cfg : Config) (b : Bool) (n : ℕ) → when cfg b n < 2 ^ 64 → when cfg b (wrap64 n) ≡ when cfg b n
when-wrap64 cfg true n h = wrap64_id n h
when-wrap64 cfg false n h = refl

double_mul : (a m : ℕ) → 2 * a * m ≡ a * m + a * m
double_mul a m = omega arith

succ_mul : (a m : ℕ) → (1 + a) * m ≡ m + a * m
succ_mul a m = omega arith

float_count-Exact :
    (cfg : Config) (m : ℕ)
    → cfg.n_vocab + 1 < 2 ^ 31
    → exact_size cfg m < 2 ^ 64
    → float_count cfg m ≡ when cfg cfg.has_samplers (cfg.n_vocab * m + cfg.n_vocab * m)
unfolding float_count
float_count-Exact cfg m few fits = elim (Bool-cases cfg.has_samplers) [
  | inl t ↦
      let room = rw t at fits in
      let low : wrap32 (2 * cfg.n_vocab) ≡ 2 * cfg.n_vocab = omega (arith, few) in
      rw (t, low, double_mul cfg.n_vocab m) (omega (arith, room))
  | inr f ↦ rw f refl
]

token_count-Exact :
    (cfg : Config) (m : ℕ)
    → cfg.n_vocab + 1 < 2 ^ 31
    → exact_size cfg m < 2 ^ 64
    → token_count cfg m ≡ when cfg cfg.has_samplers (m + cfg.n_vocab * m)
unfolding token_count
token_count-Exact cfg m few fits = elim (Bool-cases cfg.has_samplers) [
  | inl t ↦
      let room = rw t at fits in
      let low : wrap32 (1 + cfg.n_vocab) ≡ 1 + cfg.n_vocab = omega (arith, few) in
      rw (t, low, succ_mul cfg.n_vocab m) (omega (arith, room))
  | inr f ↦ rw f refl
]

-- What the views take together.
abbrev taken : Config → ℕ → ℕ → ℕ → ℕ → ℕ
taken cfg m v e p =
    v * 4 + e * 4 + p * 4 + when cfg cfg.has_samplers (v * 4 + v * 4 + m * 4 + v * 4)

sum_lem :
    (cfg : Config) (m v e p : ℕ)
    → taken cfg m v e p < 2 ^ 64
    → wrap64 (
        wrap64 (v + e + p + when cfg cfg.has_samplers (v + v)) * 4
        + when cfg cfg.has_samplers (m + v) * 4)
      ≡ taken cfg m v e p
sum_lem cfg m v e p h = elim (Bool-cases cfg.has_samplers) [
  | inl t ↦ let h' = rw t at h in rw t (omega (arith, h'))
  | inr f ↦ let h' = rw f at h in rw f (omega (arith, h'))
]

new_size_parts :
    (cfg : Config) (m : ℕ)
    → new_size cfg m
      ≡ wrap64 (
          wrap64 (logits_size cfg m + embd_size cfg m + pre_norm_size cfg m + float_count cfg m) * 4
          + token_count cfg m * 4)
unfolding new_size
new_size_parts cfg m = refl

-- The views take the size that is asked for, which does not wrap.
sizes_lem :
    (cfg : Config) (m : ℕ)
    → cfg.n_vocab + 1 < 2 ^ 31
    → exact_size cfg m < 2 ^ 64
    → (taken cfg m (logits_size cfg m) (embd_size cfg m) (pre_norm_size cfg m) ≡ new_size cfg m)
      × (new_size cfg m ≡ exact_size cfg m)
      × (logits_size cfg m ≡ cfg.n_vocab * m)
unfolding logits_size embd_size pre_norm_size
sizes_lem cfg m few fits =
    let entries = cfg.n_embd * (if cfg.embeddings_pre_norm_masked then m else cfg.n_batch) in
    let logits_is : logits_size cfg m ≡ cfg.n_vocab * m =
      wrap64_id (cfg.n_vocab * m) (omega (arith, fits)) in
    let embd_is : embd_size cfg m ≡ when cfg (has_embd cfg) (cfg.n_embd_out * m) =
      when-wrap64 cfg (has_embd cfg) (cfg.n_embd_out * m) (omega (arith, fits)) in
    let pre_norm_is : pre_norm_size cfg m ≡ when cfg cfg.embeddings_pre_norm entries =
      when-wrap64 cfg cfg.embeddings_pre_norm entries (omega (arith, fits)) in
    let float_is = float_count-Exact cfg m few fits in
    let token_is = token_count-Exact cfg m few fits in
    let total : new_size cfg m ≡ exact_size cfg m =
      rw (new_size_parts cfg m, logits_is, embd_is, pre_norm_is, float_is, token_is)
        (sum_lem cfg m (cfg.n_vocab * m) (when cfg (has_embd cfg) (cfg.n_embd_out * m))
          (when cfg cfg.embeddings_pre_norm entries) fits) in
    (rw (total, logits_is, embd_is, pre_norm_is) refl, total, logits_is)

lay_out-Chained :
    (cfg : Config) (m size : ℕ) (ids : List (Option ℕ))
    → taken cfg m (logits_size cfg m) (embd_size cfg m) (pre_norm_size cfg m) ≤ size
    → taken cfg m (logits_size cfg m) (embd_size cfg m) (pre_norm_size cfg m) < 2 ^ 64
    → Chained 0 (views (lay_out cfg m size ids)) size
unfolding lay_out
lay_out-Chained cfg m size ids h fits =
    let v = logits_size cfg m in
    let e = embd_size cfg m in
    let p = pre_norm_size cfg m in
    let o1 = wrap64 (v * 4) in
    let o2 = wrap64 (o1 + e * 4) in
    let o3 = wrap64 (o2 + p * 4) in
    let o4 = wrap64 (o3 + v * 4) in
    let o5 = wrap64 (o4 + v * 4) in
    let o6 = wrap64 (o5 + m * 4) in
    let is1 : o1 ≡ v * 4 = omega (arith, fits) in
    let is2 : o2 ≡ v * 4 + e * 4 = omega (arith, fits, is1) in
    let is3 : o3 ≡ v * 4 + e * 4 + p * 4 = omega (arith, fits, is2) in
    let l6 = view_at cfg.has_samplers o6 v ∷ [] in
    let l5 = view_at cfg.has_samplers o5 m ∷ l6 in
    let l4 = view_at cfg.has_samplers o4 v ∷ l5 in
    let l3 = view_at cfg.has_samplers o3 v ∷ l4 in
    let l2 = view_at cfg.embeddings_pre_norm o2 p ∷ l3 in
    let samplers : Chained (o2 + p * 4) l3 size = elim (Bool-cases cfg.has_samplers) [
      | inl t ↦
          let room = rw t at h in
          let small = rw t at fits in
          let is4 : o4 ≡ o3 + v * 4 = omega (arith, small, is3) in
          let is5 : o5 ≡ o4 + v * 4 = omega (arith, small, is3, is4) in
          let is6 : o6 ≡ o5 + m * 4 = omega (arith, small, is3, is4, is5) in
          Chained-view_at cfg.has_samplers (o2 + p * 4) o3 v size l4 (omega (arith, is2, is3)) (
            Chained-view_at cfg.has_samplers (o3 + v * 4) o4 v size l5 (omega (arith, is4)) (
              Chained-view_at cfg.has_samplers (o4 + v * 4) o5 m size l6 (omega (arith, is5)) (
                Chained-view_at cfg.has_samplers (o5 + m * 4) o6 v size [] (omega (arith, is6))
                  (omega (arith, room, is3, is4, is5, is6)))))
      | inr f ↦ let room = rw f at h in rw (view_at, f) (omega (arith, room, is2))
    ] in
    let l1 = view_at (has_embd cfg) o1 e ∷ l2 in
    Chained-view_at true 0 0 v size l1 (omega arith) (
      Chained-view_at (has_embd cfg) (0 + v * 4) o1 e size l2 (omega (arith, is1)) (
        Chained-view_at cfg.embeddings_pre_norm (o1 + e * 4) o2 p size l3 (omega (arith, is1, is2))
          samplers))

-- What a reservation gives.
record Reserved (cfg : Config) (n_outputs : ℕ) (r : ℕ × Buffers) : Type 0 where
  size : ℕ
  buf_size : r.1.buf_size ≡ some size
  enough : exact_size cfg r.0 ≤ size
  chained : Chained 0 (views r.1) size
  cleared : r.1.output_ids ≡ replicate (length r.1.output_ids) none
  no_outputs : r.1.n_outputs ≡ 0
  rows : r.0 ≡ max n_outputs cfg.n_seq_max
  logits : r.1.logits ≡ some (record { start = 0; size = cfg.n_vocab * r.0 })

reserve_buffer_lem :
    (cfg : Config) (size : ℕ) (old : Option ℕ) (got : ℕ)
    → ((s t : ℕ) → cfg.alloc s ≡ some t → s ≤ t)
    → reserve_buffer cfg size old ≡ some got
    → size ≤ got
unfolding reserve_buffer
reserve_buffer_lem cfg size none got large h = large size got h
reserve_buffer_lem cfg size (some prev) got large h = elim (Bool-cases (ltb prev size)) [
  | inl t ↦ large size got (rw t at h)
  | inr f ↦ let e : prev ≡ got = some-injective _ _ (rw f at h) in rw (← e) (ground (arith, f))
]

-- When the vocabulary has fewer than 2 ^ 31 - 1 tokens, the exact size of all the views together is
-- below 2 ^ 64, and a buffer is at least as large as was asked for, then after a reservation the views
-- that are present stand one behind the other inside the buffer, whose size is at least the exact one,
-- the logits have an entry for each token of the vocabulary in each row, no output row is valid, and
-- the number of rows is the larger one of the outputs asked for and the sequences.
pub output_reserve_lem :
    (cfg : Config) (n_outputs m : ℕ) (b b' : Buffers)
    → cfg.n_vocab + 1 < 2 ^ 31
    → exact_size cfg (max n_outputs cfg.n_seq_max) < 2 ^ 64
    → ((s t : ℕ) → cfg.alloc s ≡ some t → s ≤ t)
    → output_reserve cfg n_outputs b ≡ some (m, b')
    → (size : ℕ) × (b'.buf_size ≡ some size)
      × (exact_size cfg m ≤ size)
      × Chained 0 (views b') size
      × (b'.logits ≡ some (record { start = 0; size = cfg.n_vocab * m }))
      × (b'.output_ids ≡ replicate (length b'.output_ids) none)
      × (b'.n_outputs ≡ 0)
      × (m ≡ max n_outputs cfg.n_seq_max)
unfolding output_reserve n_outputs_max lay_out
output_reserve_lem cfg n_outputs m b b' few fits large h =
    elim (Option-cases
      (reserve_buffer cfg (new_size cfg (n_outputs_max cfg n_outputs)) b.buf_size)) [
        | inl q ↦ cc (rw (output_reserve, q) at h)
        | inr (size, q) ↦
            let rows = n_outputs_max cfg n_outputs in
            let large_enough = reserve_buffer_lem cfg (new_size cfg rows) b.buf_size size large q in
            let sizes = sizes_lem cfg rows few fits in
            let r : Reserved cfg n_outputs (m, b') =
              subst (Reserved cfg n_outputs) (some-injective _ _ (rw (output_reserve, q) at h))
                (record {
                  size = size;
                  buf_size = refl;
                  enough = rw (← sizes.1) large_enough;
                  chained =
                      lay_out-Chained cfg rows size (init_ids cfg b.output_ids)
                        (rw sizes.0 large_enough) (rw (sizes.0, sizes.1) fits);
                  logits = ap (λ k. some (record { start = 0; size = k })) sizes.2;
                  cleared = ap (λ k. replicate k none) (sym (length-replicate _ _));
                  no_outputs = refl;
                  rows = refl;
                }) in
            (r.size, r.buf_size, r.enough, r.chained, r.logits, r.cleared, r.no_outputs, r.rows)
      ]
