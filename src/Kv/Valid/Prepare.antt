-- ===== src/Kv/Valid/Prepare.antt =====
-- `llama_kv_cache::prepare` (code/source/src/llama-kv-cache.cpp), which places batches and takes them
-- back, keeps a cache valid.
use gfx906_mixed_cuda_rocm_r.Base.{
  ℕ, ◌+◌, ◌≤◌, ◌<◌, ◌≡◌, ◌∙◌, inl, inr, Bool, true, false, some, List, [], ◌∷◌, if◌then◌else◌,
  get_elem?, All, All-get_elem?, All-append, Bool-cases, Option-cases,
}
use gfx906_mixed_cuda_rocm_r.Base.Int.{ℤ}
use gfx906_mixed_cuda_rocm_r.Kv.{CellOps, Cache}
use gfx906_mixed_cuda_rocm_r.Kv.Slot.{Ubatch, SlotInfo, find_slot}
use gfx906_mixed_cuda_rocm_r.Kv.Batch.{
  Saved, Trial, is_empty_list, apply_ubatch, save_cells, restore_streams, restore, try_ubatch,
  try_ubatches, prepare, first_trial,
}
use gfx906_mixed_cuda_rocm_r.Kv.Batch.Parts.{PrepareParts, prepare-parts}
use gfx906_mixed_cuda_rocm_r.Kv.Valid.{KeepsSize, IsValid, set_stream-IsValid}
use gfx906_mixed_cuda_rocm_r.Kv.Valid.Batch.{apply_ubatch-IsValid, Within}
use gfx906_mixed_cuda_rocm_r.Kv.Valid.Slots.{find_slot-Within}
use mathlib.Core.Option.{some-injective}
use mathlib.Core.Path.{subst}

module _ {C E : Type 0} (ops : CellOps C E) (laws : KeepsSize ops) (n ns : ℕ) where
  open ops use {size, set_cells}
  open laws use {set_cells_size}

  -- The old heads on the stack are within the cells.
  pub OldHeads : List (Saved C) → Type 0
  OldHeads es = All (λ e. All (λ h. h ≤ n) e.v_heads_old) es

  restore_streams-IsValid :
      (s : ℕ) (old strm : List ℕ) (ls : List (List ℕ)) (saved : List C) (c c' : Cache C)
      → IsValid ops n ns c
      → All (λ h. h ≤ n) old
      → restore_streams ops s old strm ls saved c ≡ some c'
      → IsValid ops n ns c'
  unfolding restore_streams
  restore_streams-IsValid s old [] ls saved c c' v a e =
      subst (IsValid ops n ns) (some-injective _ _ e) v
  restore_streams-IsValid s old (st ∷ strm) [] saved c c' v a e = cc
  restore_streams-IsValid s old (st ∷ strm) (l ∷ ls) [] c c' v a e = cc
  restore_streams-IsValid s old (st ∷ strm) (l ∷ ls) (k ∷ saved) c c' v a e =
      elim (Option-cases (get_elem? c.v_cells st)) [
        | inl q ↦ cc (rw (restore_streams, q) at e)
        | inr q ↦ elim (Option-cases (get_elem? old s)) [
          | inl p ↦ cc (rw (restore_streams, q.1, p) at e)
          | inr p ↦
              restore_streams-IsValid (s + 1) old strm ls saved _ c'
                (set_stream-IsValid ops n ns c st (set_cells q.0 l k) p.0 v
                  (set_cells_size q.0 l k
                    ∙ All-get_elem? (λ x. size x ≡ n) c.v_cells st q.0 v.sizes q.1)
                  (All-get_elem? (λ h. h ≤ n) old s p.0 a p.1))
                a (rw (restore_streams, q.1, p.1) at e)
        ]
      ]

  restore-IsValid :
      (es : List (Saved C)) (c c' : Cache C)
      → IsValid ops n ns c
      → OldHeads es
      → restore ops es c ≡ some c'
      → IsValid ops n ns c'
  unfolding restore OldHeads
  restore-IsValid [] c c' v a e = subst (IsValid ops n ns) (some-injective _ _ e) v
  restore-IsValid (x ∷ es) c c' v a e =
      elim (Option-cases
        (restore_streams ops 0 x.v_heads_old x.slot.strm x.slot.idxs x.cells_old c)) [
          | inl q ↦ cc (rw (restore, q) at e)
          | inr q ↦
              restore-IsValid es q.0 c'
                (restore_streams-IsValid 0 x.v_heads_old x.slot.strm x.slot.idxs x.cells_old c q.0 v
                  a.0 q.1)
                a.1 (rw (restore, q.1) at e)
        ]

  if-All :
      (t : Bool) (l : List SlotInfo)
      → All (λ s. Within n s.idxs) l
      → All (λ s. Within n s.idxs) (if t then l else [])
  if-All true l a = a
  if-All false l a = tt

  module _ (z : n < 1073741824) (masked : ℤ → ℤ → Bool) where
    pub TrialIsValid : Trial C → Type 0
    TrialIsValid t = IsValid ops n ns t.cache × OldHeads t.states × All (λ s. Within n s.idxs) t.res

    pub try_ubatch-IsValid :
        (ub : Ubatch) (t t' : Trial C)
        → TrialIsValid t
        → try_ubatch ops masked ub t ≡ some t'
        → TrialIsValid t'
    unfolding try_ubatch TrialIsValid OldHeads
    try_ubatch-IsValid ub t t' v e = elim (Option-cases (find_slot ops masked t.cache ub false)) [
      | inl q ↦ cc (rw (try_ubatch, q) at e)
      | inr q ↦ elim (Bool-cases (is_empty_list q.0.idxs)) [
        | inl u ↦ subst TrialIsValid (some-injective _ _ (rw (try_ubatch, q.1, u) at e)) v
        | inr u ↦ elim (Option-cases (save_cells ops t.cache q.0.strm q.0.idxs)) [
          | inl p ↦ cc (rw (try_ubatch, q.1, u, p) at e)
          | inr p ↦ elim (Option-cases (apply_ubatch ops q.0 ub t.cache)) [
            | inl r ↦ cc (rw (try_ubatch, q.1, u, p.1, r) at e)
            | inr r ↦
                subst TrialIsValid (some-injective _ _ (rw (try_ubatch, q.1, u, p.1, r.1) at e)) (
                  apply_ubatch-IsValid ops laws n ns q.0 ub t.cache r.0 v.0
                      (find_slot-Within ops masked n ns z t.cache v.0 ub false q.0 q.1) r.1,
                  (v.0.heads, v.1),
                  All-append (λ s. Within n s.idxs) t.res (q.0 ∷ []) v.2
                      (find_slot-Within ops masked n ns z t.cache v.0 ub false q.0 q.1, tt),
                )
          ]
        ]
      ]
    ]

    try_ubatches-IsValid :
        (ubs : List Ubatch) (t t' : Trial C)
        → TrialIsValid t
        → try_ubatches ops masked ubs t ≡ some t'
        → TrialIsValid t'
    unfolding try_ubatches
    try_ubatches-IsValid [] t t' v e = subst TrialIsValid (some-injective _ _ e) v
    try_ubatches-IsValid (ub ∷ ubs) t t' v e = elim (Option-cases (try_ubatch ops masked ub t)) [
      | inl q ↦ cc (rw (try_ubatches, q) at e)
      | inr q ↦ elim (Bool-cases q.0.success) [
        | inl u ↦
            try_ubatches-IsValid ubs q.0 t' (try_ubatch-IsValid ub t q.0 v q.1)
              (rw (try_ubatches, q.1, u) at e)
        | inr u ↦
            subst TrialIsValid (some-injective _ _ (rw (try_ubatches, q.1, u) at e))
              (try_ubatch-IsValid ub t q.0 v q.1)
      ]
    ]

    -- A trial of batches on a valid cache leaves a valid one.
    pub prepare-IsValid :
        (ubs : List Ubatch) (c : Cache C) (r : Cache C × List SlotInfo)
        → IsValid ops n ns c
        → prepare ops masked ubs c ≡ some r
        → IsValid ops n ns r.0
    unfolding prepare TrialIsValid OldHeads
    prepare-IsValid ubs c r v e =
        let p : PrepareParts ops masked ubs c r = prepare-parts ops masked ubs c r e in
        let t : TrialIsValid p.trial =
          try_ubatches-IsValid ubs (first_trial c) p.trial (v, tt, tt) p.tried in
        restore-IsValid p.trial.states p.trial.cache r.0 t.0 t.1 p.restored

    -- The slots that a trial on a valid cache with fewer than 2 ^ 30 cells in a stream gives lie within
    -- the cells, if only `resize` changes how many cells there are.
    pub prepare-Within :
        (ubs : List Ubatch) (c : Cache C) (r : Cache C × List SlotInfo)
        → IsValid ops n ns c
        → prepare ops masked ubs c ≡ some r
        → All (λ s. Within n s.idxs) r.1
    unfolding TrialIsValid OldHeads
    prepare-Within ubs c r v e =
        let p : PrepareParts ops masked ubs c r = prepare-parts ops masked ubs c r e in
        let t : TrialIsValid p.trial =
          try_ubatches-IsValid ubs (first_trial c) p.trial (v, tt, tt) p.tried in
        subst (All (λ s. Within n s.idxs)) p.slots (if-All p.trial.success p.trial.res t.2)
