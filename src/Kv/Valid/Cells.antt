-- ===== src/Kv/Valid/Cells.antt =====
-- `llama_kv_cache::apply_ubatch` (code/source/src/llama-kv-cache.cpp): the placement of tokens in cells
-- that can be overwritten passes its assertion.
use gfx906_mixed_cuda_rocm_r.Base.{
  ℕ, zero, suc, ◌+◌, ◌*◌, ◌≤◌, ◌≡◌, ◌≢◌, Bool, true, ◌||◌, ◌==◌, refl, ◌∙◌, inl, inr, some, List,
  [], ◌∷◌, length, get_or, length-set, All, Bool-cases, Option-cases, arith,
}
use gfx906_mixed_cuda_rocm_r.Base.Int.{ℤ, pos}
use gfx906_mixed_cuda_rocm_r.Kv.{CellOps}
use gfx906_mixed_cuda_rocm_r.Kv.Slot.{Ubatch}
use gfx906_mixed_cuda_rocm_r.Kv.Batch.{add_seqs, overwrite, place_token, place_cells}
use gfx906_mixed_cuda_rocm_r.Kv.Slot.Ring.{Distinct}
use mathlib.Core.Option.{some-injective}
use mathlib.Core.Path.{subst}

-- A method on cell `j` that is another than `i` finds the same.
abbrev pub SameCell : {C E : Type 0} → CellOps C E → C → C → ℕ → Type 0
SameCell ops k k' j =
    (ops.is_empty k' j ≡ ops.is_empty k j) × (ops.seq_count k' j ≡ ops.seq_count k j)

-- A write to one cell keeps the sequences of the others.
pub record KeepsOthers {C E : Type 0} (ops : CellOps C E) : Type 0 where
  pub rm_others : (k : C) (i j : ℕ) → i ≢ j → SameCell ops k (ops.rm k i) j
  pub seq_add_others : (k : C) (i s j : ℕ) → i ≢ j → SameCell ops k (ops.seq_add k i s) j
  pub pos_set_others :
      (k : C) (i : ℕ) (p : ℤ) (j : ℕ) → i ≢ j → SameCell ops k (ops.pos_set k i p) j
  pub ext_set_others :
      (k : C) (i : ℕ) (e : E) (j : ℕ) → i ≢ j → SameCell ops k (ops.ext_set k i e) j

module _ {C E : Type 0} (ops : CellOps C E) where
  open ops use {seq_pos_min, is_empty, seq_count, seq_get, seq_add, pos_set, ext_set, make_ext}

  -- Cell `idx` can be overwritten: it is empty, or of one sequence.
  abbrev pub can_place : C → ℕ → Bool
  can_place k idx = is_empty k idx || seq_count k idx == 1

  can_place-SameCell :
      (k k' : C) (j : ℕ) → SameCell ops k k' j → can_place k j ≡ true → can_place k' j ≡ true
  can_place-SameCell k k' j s e = rw (s.0, s.1) e

  SameCell-trans :
      (k k' k'' : C) (j : ℕ) → SameCell ops k k' j → SameCell ops k' k'' j → SameCell ops k k'' j
  SameCell-trans k k' k'' j a b = (b.0 ∙ a.0, b.1 ∙ a.1)

  overwrite_total :
      (k : C) (idx : ℕ) (maxs : List ℤ)
      → can_place k idx ≡ true
      → (r : C × List ℤ) × (overwrite ops k idx maxs ≡ some r)
  unfolding overwrite
  overwrite_total k idx maxs e = elim (Option-cases (overwrite ops k idx maxs)) [
    | inr r ↦ r
    | inl q ↦ elim (Bool-cases (is_empty k idx)) [
      | inl t ↦ cc (rw (overwrite, t) at q)
      | inr t ↦ let u : (seq_count k idx == 1) ≡ true = rw t at e in cc (rw (overwrite, t, u) at q)
    ]
  ]

  length-overwrite :
      (k : C) (idx : ℕ) (maxs : List ℤ) (r : C × List ℤ)
      → overwrite ops k idx maxs ≡ some r
      → length r.1 ≡ length maxs
  unfolding overwrite
  length-overwrite k idx maxs r e = elim (Bool-cases (is_empty k idx)) [
    | inl t ↦
        subst (λ x. length x.1 ≡ length maxs) (some-injective _ _ (rw (overwrite, t) at e)) refl
    | inr t ↦ elim (Bool-cases (seq_count k idx == 1)) [
      | inl u ↦
          subst (λ x. length x.1 ≡ length maxs) (some-injective _ _ (rw (overwrite, t, u) at e))
            (length-set maxs (seq_get k idx) _)
      | inr u ↦ cc (rw (overwrite, t, u) at e)
    ]
  ]

  module _ (others : KeepsOthers ops) where
    open others use {rm_others, seq_add_others, pos_set_others, ext_set_others}

    overwrite-SameCell :
        (k : C) (idx : ℕ) (maxs : List ℤ) (r : C × List ℤ) (j : ℕ)
        → idx ≢ j
        → overwrite ops k idx maxs ≡ some r
        → SameCell ops k r.0 j
    unfolding overwrite
    overwrite-SameCell k idx maxs r j d e = elim (Bool-cases (is_empty k idx)) [
      | inl t ↦
          subst (λ x. SameCell ops k x.0 j) (some-injective _ _ (rw (overwrite, t) at e))
            (refl, refl)
      | inr t ↦ elim (Bool-cases (seq_count k idx == 1)) [
        | inl u ↦
            subst (λ x. SameCell ops k x.0 j) (some-injective _ _ (rw (overwrite, t, u) at e))
              (rm_others k idx j d)
        | inr u ↦ cc (rw (overwrite, t, u) at e)
      ]
    ]

    add_seqs-SameCell :
        (k : C) (idx : ℕ) (ss : List ℕ) (j : ℕ) → idx ≢ j → SameCell ops k (add_seqs ops k idx ss) j
    unfolding add_seqs
    add_seqs-SameCell k idx [] j d = (refl, refl)
    add_seqs-SameCell k idx (s ∷ ss) j d =
        SameCell-trans k _ _ j (seq_add_others k idx s j d)
          (add_seqs-SameCell (seq_add k idx s) idx ss j d)

    place_token-SameCell :
        (ub : Ubatch) (i idx : ℕ) (k : C) (j : ℕ)
        → idx ≢ j
        → SameCell ops k (place_token ops ub i idx k) j
    unfolding place_token
    place_token-SameCell ub i idx k j d =
        let p : ℤ = get_or ub.positions i (pos 0) in
        let e : E =
          make_ext (get_or ub.positions (i + ub.n_tokens * 2) (pos 0))
            (get_or ub.positions (i + ub.n_tokens) (pos 0)) in
        let ss : List ℕ = get_or ub.seq_id i [] in
        let set_pos : SameCell ops k (pos_set k idx p) j = pos_set_others k idx p j d in
        elim (Bool-cases ub.is_pos_2d) [
          | inl t ↦
              rw (place_token, t)
                (SameCell-trans k _ _ j
                  (SameCell-trans k _ _ j set_pos (ext_set_others (pos_set k idx p) idx e j d))
                  (add_seqs-SameCell (ext_set (pos_set k idx p) idx e) idx ss j d))
          | inr t ↦
              rw (place_token, t)
                (SameCell-trans k _ _ j set_pos (add_seqs-SameCell (pos_set k idx p) idx ss j d))
        ]

    can_place-others :
        (k k' : C) (idx : ℕ) (l : List ℕ)
        → ((j : ℕ) → idx ≢ j → SameCell ops k k' j)
        → All (λ j. idx ≢ j) l
        → All (λ j. can_place k j ≡ true) l
        → All (λ j. can_place k' j ≡ true) l
    can_place-others k k' idx [] same d a = tt
    can_place-others k k' idx (j ∷ l) same d a =
        (can_place-SameCell k k' j (same j d.0) a.0, can_place-others k k' idx l same d.1 a.1)

    pub place_cells_total :
        (ub : Ubatch) (m i : ℕ) (l : List ℕ) (k : C) (maxs : List ℤ)
        → m ≤ length l
        → Distinct l
        → All (λ j. can_place k j ≡ true) l
        → (r : C × List ℤ) × (place_cells ops ub m i l k maxs ≡ some r) × (length r.1 ≡ length maxs)
    unfolding place_cells Distinct
    place_cells_total ub zero i l k maxs h d a = ((k, maxs), refl, refl)
    place_cells_total ub (suc m) i [] k maxs h d a = absurd (omega arith)
    place_cells_total ub (suc m) i (idx ∷ l) k maxs h d a =
        let o : (r : C × List ℤ) × (overwrite ops k idx maxs ≡ some r) =
          overwrite_total k idx maxs a.0 in
        let k' : C = place_token ops ub i idx o.0.0 in
        let same : (j : ℕ) → idx ≢ j → SameCell ops k k' j = λ j n.
          SameCell-trans k _ _ j (overwrite-SameCell k idx maxs o.0 j n o.1)
            (place_token-SameCell ub i idx o.0.0 j n) in
        let rest : (r : C × List ℤ) × (place_cells ops ub m (i + 1) l k' o.0.1 ≡ some r)
            × (length r.1 ≡ length o.0.1) =
          place_cells_total ub m (i + 1) l k' o.0.1 (omega arith) d.1
            (can_place-others k k' idx l same d.0 a.1) in
        (rest.0, rw (place_cells, o.1) rest.1, rest.2 ∙ length-overwrite k idx maxs o.0 o.1)
