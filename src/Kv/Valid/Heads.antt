-- ===== src/Kv/Valid/Heads.antt =====
-- `llama_kv_cache::prepare` (code/source/src/llama-kv-cache.cpp) on a cache with one stream: it takes the
-- moves of the head back.
use gfx906_mixed_cuda_rocm_r.Base.{
  ℕ, ◌<◌, ◌≡◌, refl, ◌⊎◌, ap, sym, ◌∙◌, inl, inr, Bool, true, false, ◌||◌, some, List, [], ◌∷◌,
  length, get_elem?, get_or, set, take, All-get_elem?, Bool-cases, Option-cases, arith, leb, le→leb,
}
use gfx906_mixed_cuda_rocm_r.Base.Int.{ℤ}
use gfx906_mixed_cuda_rocm_r.Kv.{CellOps, Cache}
use gfx906_mixed_cuda_rocm_r.Kv.Slot.{
  Ubatch, SlotInfo, find_slot, find_streams, find_in_stream, one_sequence, empty_info,
}
use gfx906_mixed_cuda_rocm_r.Kv.Batch.{
  Saved, Trial, is_empty_list, apply_ubatch, save_cells, restore_streams, restore, try_ubatch,
  try_ubatches, prepare, first_trial,
}
use gfx906_mixed_cuda_rocm_r.Kv.Batch.Parts.{PrepareParts, prepare-parts}
use gfx906_mixed_cuda_rocm_r.Kv.Valid.{KeepsSize, IsValid}
use gfx906_mixed_cuda_rocm_r.Kv.Valid.Batch.{apply_ubatch-IsValid}
use gfx906_mixed_cuda_rocm_r.Kv.Valid.Slots.{find_slot-Within, Outcome-cases}
use mathlib.Core.Option.{some-injective}
use mathlib.Core.Path.{subst}

-- The stack leads back to the heads `h`; the last argument is the present heads.
Undoes : {C : Type 0} → List ℕ → List (Saved C) → List ℕ → Type 0
Undoes h [] heads = heads ≡ h
Undoes h (e ∷ es) heads =
    (e.slot.strm ≡ 0 ∷ []) × (length e.v_heads_old ≡ 1) × Undoes h es e.v_heads_old

set_one :
    (heads old : List ℕ) (x : ℕ)
    → length heads ≡ 1
    → length old ≡ 1
    → get_elem? old 0 ≡ some x
    → set heads 0 x ≡ old
set_one [] old x p q e = absurd (omega arith)
set_one (h ∷ y ∷ hs) old x p q e = absurd (omega arith)
set_one (h ∷ []) [] x p q e = cc
set_one (h ∷ []) (o ∷ y ∷ os) x p q e = absurd (omega arith)
set_one (h ∷ []) (o ∷ []) x p q e = ap (λ k. k ∷ []) (sym (some-injective _ _ e))

module _ {C E : Type 0} (ops : CellOps C E) where
  restore_one :
      (old strm : List ℕ) (ls : List (List ℕ)) (saved : List C) (c c' : Cache C)
      → length c.v_heads ≡ 1
      → length old ≡ 1
      → strm ≡ 0 ∷ []
      → restore_streams ops 0 old strm ls saved c ≡ some c'
      → c'.v_heads ≡ old
  unfolding restore_streams
  restore_one old strm ls saved c c' p q u e = go ls saved (rw (u) at e)
    where
      go :
          (ls : List (List ℕ)) (saved : List C)
          → restore_streams ops 0 old (0 ∷ []) ls saved c ≡ some c'
          → c'.v_heads ≡ old
      go [] saved e = cc
      go (l ∷ ls) [] e = cc
      go (l ∷ ls) (k ∷ saved) e = elim (Option-cases (get_elem? c.v_cells 0)) [
        | inl r ↦ cc (rw (restore_streams, r) at e)
        | inr r ↦ elim (Option-cases (get_elem? old 0)) [
          | inl s ↦ cc (rw (restore_streams, r.1, s) at e)
          | inr s ↦
              ap (λ x. x.v_heads) (sym (some-injective _ _ (rw (restore_streams, r.1, s.1) at e)))
              ∙ set_one c.v_heads old s.0 p q s.1
        ]
      ]

  restore-Undoes :
      (h : List ℕ) (es : List (Saved C)) (c c' : Cache C)
      → length c.v_heads ≡ 1
      → Undoes h es c.v_heads
      → restore ops es c ≡ some c'
      → c'.v_heads ≡ h
  unfolding restore Undoes
  restore-Undoes h [] c c' p u e = ap (λ x. x.v_heads) (sym (some-injective _ _ e)) ∙ u
  restore-Undoes h (x ∷ es) c c' p u e =
      elim (Option-cases
        (restore_streams ops 0 x.v_heads_old x.slot.strm x.slot.idxs x.cells_old c)) [
          | inl q ↦ cc (rw (restore, q) at e)
          | inr q ↦
              let r : q.0.v_heads ≡ x.v_heads_old =
                restore_one x.v_heads_old x.slot.strm x.slot.idxs x.cells_old c q.0 p u.1 u.0 q.1 in
              restore-Undoes h es q.0 c' (ap length r ∙ u.1) (subst (Undoes h es) (sym r) u.2)
                (rw (restore, q.1) at e)
        ]

-- A slot of a cache with one stream is in that stream, or there is none.
OneStream : SlotInfo → Type 0
OneStream slot = (is_empty_list slot.idxs ≡ true) ⊎ (slot.strm ≡ 0 ∷ [])

module _ {C E : Type 0} (ops : CellOps C E) (laws : KeepsSize ops) (masked : ℤ → ℤ → Bool) (n : ℕ)
    (z : n < 1073741824) where
  find_streams-OneStream :
      (c : Cache C) (ub : Ubatch) (m : ℕ) (cont : Bool) (seqs : List ℕ) (slot : SlotInfo)
      → IsValid ops n 1 c
      → find_streams ops masked c ub m cont 0 (take 1 seqs) (empty_info ops masked) ≡ some slot
      → OneStream slot
  unfolding find_streams OneStream
  find_streams-OneStream c ub m cont [] slot v e =
      inl (ap (λ x. is_empty_list x.idxs) (sym (some-injective _ _ e)))
  find_streams-OneStream c ub m cont (q ∷ seqs) slot v e =
      elim (Bool-cases (leb (length c.v_cells) 1 || one_sequence ops masked ub m 0 q)) [
        | inr t ↦ cc (rw (find_streams, t) at e)
        | inl t ↦ elim (Option-cases (get_elem? c.seq_to_stream q)) [
          | inl a ↦ cc (rw (find_streams, t, a) at e)
          | inr a ↦ elim (Option-cases (get_elem? c.v_cells a.0)) [
            | inl b ↦ cc (rw (find_streams, t, a.1, b) at e)
            | inr b ↦
                elim (Outcome-cases
                  (find_in_stream ops masked m cont b.0 (get_or c.v_heads a.0 0))) [
                    | inl r ↦ inl (
                        ap (λ x. is_empty_list x.idxs)
                          (sym (some-injective _ _ (rw (find_streams, t, a.1, b.1, r) at e))))
                    | inr (inl r) ↦ cc (rw (find_streams, t, a.1, b.1, r) at e)
                    | inr (inr r) ↦ inr (
                        ap (λ x. x.strm)
                          (sym (some-injective _ _ (rw (find_streams, t, a.1, b.1, r.1) at e)))
                        ∙ ap (λ s. s ∷ [])
                            (omega (
                              arith,
                              All-get_elem? (λ s. s < length c.v_cells) c.seq_to_stream q a.0
                                  v.streams a.1,
                              v.n_streams,
                            )))
                  ]
          ]
        ]
      ]

  find_slot-OneStream :
      (c : Cache C) (ub : Ubatch) (slot : SlotInfo)
      → IsValid ops n 1 c
      → find_slot ops masked c ub false ≡ some slot
      → OneStream slot
  unfolding find_slot
  find_slot-OneStream c ub slot v e =
      find_streams-OneStream c ub ub.n_tokens false ub.seq_id_unq slot v
        (rw (find_slot, le→leb (length c.v_cells) 1 (omega (arith, v.n_streams))) at e)

  Undoing : List ℕ → Trial C → Type 0
  Undoing h t = IsValid ops n 1 t.cache × Undoes h t.states t.cache.v_heads

  try_ubatch-Undoing :
      (h : List ℕ) (ub : Ubatch) (t t' : Trial C)
      → Undoing h t
      → try_ubatch ops masked ub t ≡ some t'
      → Undoing h t'
  unfolding try_ubatch Undoing Undoes OneStream
  try_ubatch-Undoing h ub t t' v e = elim (Option-cases (find_slot ops masked t.cache ub false)) [
    | inl q ↦ cc (rw (try_ubatch, q) at e)
    | inr q ↦ elim (Bool-cases (is_empty_list q.0.idxs)) [
      | inl u ↦ subst (Undoing h) (some-injective _ _ (rw (try_ubatch, q.1, u) at e)) v
      | inr u ↦ elim (Option-cases (save_cells ops t.cache q.0.strm q.0.idxs)) [
        | inl p ↦ cc (rw (try_ubatch, q.1, u, p) at e)
        | inr p ↦ elim (Option-cases (apply_ubatch ops q.0 ub t.cache)) [
          | inl r ↦ cc (rw (try_ubatch, q.1, u, p.1, r) at e)
          | inr r ↦
              subst (Undoing h) (some-injective _ _ (rw (try_ubatch, q.1, u, p.1, r.1) at e)) (
                apply_ubatch-IsValid ops laws n 1 q.0 ub t.cache r.0 v.0
                    (find_slot-Within ops masked n 1 z t.cache v.0 ub false q.0 q.1) r.1,
                (
                  in_one q.0 u (find_slot-OneStream t.cache ub q.0 v.0 q.1),
                  v.0.lengths ∙ v.0.n_streams,
                  v.1,
                ),
              )
        ]
      ]
    ]
  ]
    where
      in_one :
          (slot : SlotInfo) → is_empty_list slot.idxs ≡ false → OneStream slot → slot.strm ≡ 0 ∷ []
      in_one slot u (inl a) = cc
      in_one slot u (inr a) = a

  try_ubatches-Undoing :
      (h : List ℕ) (ubs : List Ubatch) (t t' : Trial C)
      → Undoing h t
      → try_ubatches ops masked ubs t ≡ some t'
      → Undoing h t'
  unfolding try_ubatches
  try_ubatches-Undoing h [] t t' v e = subst (Undoing h) (some-injective _ _ e) v
  try_ubatches-Undoing h (ub ∷ ubs) t t' v e = elim (Option-cases (try_ubatch ops masked ub t)) [
    | inl q ↦ cc (rw (try_ubatches, q) at e)
    | inr q ↦ elim (Bool-cases q.0.success) [
      | inl u ↦
          try_ubatches-Undoing h ubs q.0 t' (try_ubatch-Undoing h ub t q.0 v q.1)
            (rw (try_ubatches, q.1, u) at e)
      | inr u ↦
          subst (Undoing h) (some-injective _ _ (rw (try_ubatches, q.1, u) at e))
            (try_ubatch-Undoing h ub t q.0 v q.1)
    ]
  ]

  -- A trial of batches on a valid cache with one stream of fewer than 2 ^ 30 cells, when it does not
  -- abort, leaves the head where it was, whether slots are found or not, if only `resize` changes how
  -- many cells there are.
  pub prepare-v_heads :
      (ubs : List Ubatch) (c : Cache C) (r : Cache C × List SlotInfo)
      → IsValid ops n 1 c
      → prepare ops masked ubs c ≡ some r
      → r.0.v_heads ≡ c.v_heads
  unfolding Undoing Undoes
  prepare-v_heads ubs c r v e =
      let p : PrepareParts ops masked ubs c r = prepare-parts ops masked ubs c r e in
      let t : Undoing c.v_heads p.trial =
        try_ubatches-Undoing c.v_heads ubs (first_trial c) p.trial (v, refl) p.tried in
      restore-Undoes ops c.v_heads p.trial.states p.trial.cache r.0 (t.0.lengths ∙ t.0.n_streams)
        t.1 p.restored
