-- ===== src/Kv/Batch/Parts.antt =====
-- The parts of a successful `llama_kv_cache::prepare` (code/source/src/llama-kv-cache.cpp).
use gfx906_mixed_cuda_rocm_r.Base.{
  ◌≡◌, ◌∙◌, ap, inl, inr, Bool, true, not, ◌||◌, some, List, [], if◌then◌else◌, Bool-cases,
  Option-cases,
}
use gfx906_mixed_cuda_rocm_r.Base.Int.{ℤ}
use gfx906_mixed_cuda_rocm_r.Kv.{CellOps, Cache}
use gfx906_mixed_cuda_rocm_r.Kv.Slot.{Ubatch, SlotInfo}
use gfx906_mixed_cuda_rocm_r.Kv.Batch.{
  Trial, is_empty_list, restore, try_ubatches, prepare, first_trial,
}
use mathlib.Core.Option.{some-injective}

pub record PrepareParts {C E : Type 0} (ops : CellOps C E) (masked : ℤ → ℤ → Bool)
    (ubs : List Ubatch) (c : Cache C) (r : Cache C × List SlotInfo) : Type 0 where
  pub trial : Trial C
  pub tried : try_ubatches ops masked ubs (first_trial c) ≡ some trial
  pub asserted : (not (is_empty_list trial.states) || not trial.success) ≡ true
  pub restored : restore ops trial.states trial.cache ≡ some r.0
  pub slots : (if trial.success then trial.res else []) ≡ r.1

pub prepare-parts :
    {C E : Type 0} (ops : CellOps C E) (masked : ℤ → ℤ → Bool) (ubs : List Ubatch) (c : Cache C)
    (r : Cache C × List SlotInfo)
    → prepare ops masked ubs c ≡ some r
    → PrepareParts ops masked ubs c r
unfolding prepare
prepare-parts ops masked ubs c r e =
    elim (Option-cases (try_ubatches ops masked ubs (first_trial c))) [
      | inl q ↦ cc (rw (prepare, q) at e)
      | inr q ↦ elim (Bool-cases (not (is_empty_list q.0.states) || not q.0.success)) [
        | inr u ↦ cc (rw (prepare, q.1, u) at e)
        | inl u ↦ elim (Option-cases (restore ops q.0.states q.0.cache)) [
          | inl p ↦ cc (rw (prepare, q.1, u, p) at e)
          | inr p ↦ record {
            trial = q.0;
            tried = q.1;
            asserted = u;
            restored =
                p.1 ∙ ap (λ x. some x.0) (some-injective _ _ (rw (prepare, q.1, u, p.1) at e));
            slots = ap (λ x. x.1) (some-injective _ _ (rw (prepare, q.1, u, p.1) at e));
          }
        ]
      ]
    ]
