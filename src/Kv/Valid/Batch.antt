-- ===== src/Kv/Valid/Batch.antt =====
-- A slot that `llama_kv_cache::find_slot` gives lies within the cells, and `apply_ubatch`, which writes
-- to it, keeps the cache valid (code/source/src/llama-kv-cache.cpp).
use gfx906_mixed_cuda_rocm_r.Base.{
  ℕ, zero, suc, ◌+◌, ◌*◌, ◌≤◌, ◌<◌, ◌≡◌, refl, ap, sym, ◌∙◌, inl, inr, some, List, [], ◌∷◌, ◌==◌,
  length, get_elem?, get_or, set, length-set, All, All-get_elem?, All-set, Bool-cases, Option-cases,
  arith,
}
use gfx906_mixed_cuda_rocm_r.Base.Int.{ℤ, pos, ◌+ℤ◌, lt_int}
use gfx906_mixed_cuda_rocm_r.Kv.{CellOps, Cache}
use gfx906_mixed_cuda_rocm_r.Kv.Slot.{Ubatch, SlotInfo, add32}
use gfx906_mixed_cuda_rocm_r.Kv.Batch.{
  add_seqs, overwrite, place_token, place_cells, place_streams, purge_seq, purge, move_heads,
  apply_ubatch, back, slot_size, is_minus_one, no_maxs,
}
use gfx906_mixed_cuda_rocm_r.Kv.Valid.{KeepsSize, IsValid, if-size_cells}
use gfx906_mixed_cuda_rocm_r.Kv.Valid.Sequences.{cache_seq_rm-IsValid}
use mathlib.Core.Option.{some-injective}
use mathlib.Core.Path.{subst}

-- All indices of a slot are below the number of cells.
unfoldable pub Within : ℕ → List (List ℕ) → Type 0
Within n idxs = All (λ l. All (λ i. i < n) l) idxs

pub back-All : (P : ℕ → Type 0) (l : List ℕ) (x : ℕ) → All P l → back l ≡ some x → P x
back-All P [] x a e = cc
back-All P (y ∷ []) x a e = subst P (some-injective _ _ e) a.0
back-All P (y ∷ z ∷ l) x a e = back-All P (z ∷ l) x a.1 e

module _ {C E : Type 0} (ops : CellOps C E) (laws : KeepsSize ops) where
  open ops use {size, is_empty, seq_count, seq_get, rm, seq_add, seq_pos_min}
  open laws use {rm_size, seq_add_size, pos_set_size, ext_set_size}

  size-add_seqs : (k : C) (i : ℕ) (ss : List ℕ) → size (add_seqs ops k i ss) ≡ size k
  unfolding add_seqs
  size-add_seqs k i [] = refl
  size-add_seqs k i (s ∷ ss) = size-add_seqs (seq_add k i s) i ss ∙ seq_add_size k i s

  size-overwrite :
      (k : C) (i : ℕ) (maxs : List ℤ) (r : C × List ℤ)
      → overwrite ops k i maxs ≡ some r
      → size r.0 ≡ size k
  unfolding overwrite
  size-overwrite k i maxs r e = elim (Bool-cases (is_empty k i)) [
    | inl t ↦ subst (λ x. size x.0 ≡ size k) (some-injective _ _ (rw (overwrite, t) at e)) refl
    | inr t ↦ elim (Bool-cases (seq_count k i == 1)) [
      | inl u ↦
          subst (λ x. size x.0 ≡ size k) (some-injective _ _ (rw (overwrite, t, u) at e))
            (rm_size k i)
      | inr u ↦ cc (rw (overwrite, t, u) at e)
    ]
  ]

  size-place_token : (ub : Ubatch) (i idx : ℕ) (k : C) → size (place_token ops ub i idx k) ≡ size k
  unfolding place_token
  size-place_token ub i idx k =
      size-add_seqs _ idx (get_or ub.seq_id i [])
      ∙ if-size_cells ops ub.is_pos_2d _ _ (size k) (ext_set_size _ idx _ ∙ pos_set_size k idx _)
          (pos_set_size k idx _)

  size-place_cells :
      (ub : Ubatch) (m i : ℕ) (idxs : List ℕ) (k : C) (maxs : List ℤ) (r : C × List ℤ)
      → place_cells ops ub m i idxs k maxs ≡ some r
      → size r.0 ≡ size k
  unfolding place_cells
  size-place_cells ub zero i idxs k maxs r e = ap (λ x. size x.0) (sym (some-injective _ _ e))
  size-place_cells ub (suc m) i [] k maxs r e = cc
  size-place_cells ub (suc m) i (idx ∷ idxs) k maxs r e =
      elim (Option-cases (overwrite ops k idx maxs)) [
        | inl q ↦ cc (rw (place_cells, q) at e)
        | inr q ↦
            size-place_cells ub m (i + 1) idxs _ _ r (rw (place_cells, q.1) at e)
            ∙ size-place_token ub i idx q.0.0
            ∙ size-overwrite k idx maxs q.0 q.1
      ]

  module _ (n ns : ℕ) where
    pub set_cells-IsValid :
        (c : Cache C) (s : ℕ) (k : C)
        → IsValid ops n ns c
        → size k ≡ n
        → IsValid ops n ns (record c { v_cells = set c.v_cells s k })
    set_cells-IsValid c s k v e = record {
      streams =
          subst (λ m. All (λ i. i < m) c.seq_to_stream) (sym (length-set c.v_cells s k)) v.streams;
      n_streams = length-set c.v_cells s k ∙ v.n_streams;
      lengths = v.lengths ∙ sym (length-set c.v_cells s k);
      sizes = All-set (λ x. size x ≡ n) c.v_cells s k v.sizes e;
      heads = v.heads;
    }

    pub set_head-IsValid :
        (c : Cache C) (s h : ℕ)
        → IsValid ops n ns c
        → h ≤ n
        → IsValid ops n ns (record c { v_heads = set c.v_heads s h })
    set_head-IsValid c s h v b = record {
      streams = v.streams;
      n_streams = v.n_streams;
      lengths = length-set c.v_heads s h ∙ v.lengths;
      sizes = v.sizes;
      heads = All-set (λ x. x ≤ n) c.v_heads s h v.heads b;
    }

    place_streams-IsValid :
        (ub : Ubatch) (m s : ℕ) (strm : List ℕ) (ls : List (List ℕ)) (c : Cache C) (maxs : List ℤ)
        (r : Cache C × List ℤ)
        → IsValid ops n ns c
        → place_streams ops ub m s strm ls c maxs ≡ some r
        → IsValid ops n ns r.0
    unfolding place_streams
    place_streams-IsValid ub m s [] ls c maxs r v e =
        subst (λ x. IsValid ops n ns x.0) (some-injective _ _ e) v
    place_streams-IsValid ub m s (st ∷ strm) [] c maxs r v e = cc
    place_streams-IsValid ub m s (st ∷ strm) (l ∷ ls) c maxs r v e =
        elim (Option-cases (get_elem? c.v_cells st)) [
          | inl q ↦ cc (rw (place_streams, q) at e)
          | inr q ↦ elim (Option-cases (place_cells ops ub m (s * m) l q.0 maxs)) [
            | inl p ↦ cc (rw (place_streams, q.1, p) at e)
            | inr p ↦
                place_streams-IsValid ub m (s + 1) strm ls _ p.0.1 r
                  (set_cells-IsValid c st p.0.0 v (
                    size-place_cells ub m (s * m) l q.0 maxs p.0 p.1
                    ∙ All-get_elem? (λ k. size k ≡ n) c.v_cells st q.0 v.sizes q.1))
                  (rw (place_streams, q.1, p.1) at e)
          ]
        ]

    purge_seq-IsValid :
        (s : ℕ) (m : ℤ) (c c' : Cache C)
        → IsValid ops n ns c
        → purge_seq ops s m c ≡ some c'
        → IsValid ops n ns c'
    unfolding purge_seq
    purge_seq-IsValid s m c c' v e = elim (Option-cases (get_elem? c.seq_to_stream s)) [
      | inl q ↦ cc (rw (purge_seq, q) at e)
      | inr q ↦ elim (Option-cases (get_elem? c.v_cells q.0)) [
        | inl p ↦ cc (rw (purge_seq, q.1, p) at e)
        | inr p ↦ elim (Bool-cases (lt_int m (seq_pos_min p.0 s))) [
          | inl t ↦
              subst (IsValid ops n ns) (some-injective _ _ (rw (purge_seq, q.1, p.1, t) at e)) v
          | inr t ↦
              cache_seq_rm-IsValid ops laws n ns (pos s) (seq_pos_min p.0 s) (m +ℤ pos 1) c c' v
                (rw (purge_seq, q.1, p.1, t) at e)
        ]
      ]
    ]

    purge-IsValid :
        (s : ℕ) (ms : List ℤ) (c c' : Cache C)
        → IsValid ops n ns c
        → purge ops s ms c ≡ some c'
        → IsValid ops n ns c'
    unfolding purge
    purge-IsValid s [] c c' v e = subst (IsValid ops n ns) (some-injective _ _ e) v
    purge-IsValid s (m ∷ ms) c c' v e = elim (Bool-cases (is_minus_one m)) [
      | inl t ↦ purge-IsValid (s + 1) ms c c' v (rw (purge, t) at e)
      | inr t ↦ elim (Option-cases (purge_seq ops s m c)) [
        | inl q ↦ cc (rw (purge, t, q) at e)
        | inr q ↦
            purge-IsValid (s + 1) ms q.0 c' (purge_seq-IsValid s m c q.0 v q.1)
              (rw (purge, t, q.1) at e)
      ]
    ]

    move_heads-IsValid :
        (strm : List ℕ) (ls : List (List ℕ)) (c c' : Cache C)
        → IsValid ops n ns c
        → Within n ls
        → move_heads ops strm ls c ≡ some c'
        → IsValid ops n ns c'
    unfolding move_heads Within
    move_heads-IsValid [] ls c c' v w e = subst (IsValid ops n ns) (some-injective _ _ e) v
    move_heads-IsValid (st ∷ strm) [] c c' v w e = cc
    move_heads-IsValid (st ∷ strm) (l ∷ ls) c c' v w e = elim (Option-cases (back l)) [
      | inl q ↦ cc (rw (move_heads, q) at e)
      | inr q ↦
          move_heads-IsValid strm ls _ c'
            (set_head-IsValid c st (add32 q.0 1) v
              (omega (arith, back-All (λ i. i < n) l q.0 w.0 q.1)))
            w.1 (rw (move_heads, q.1) at e)
    ]

    -- The placement of a batch in a slot within the cells keeps a cache valid.
    pub apply_ubatch-IsValid :
        (slot : SlotInfo) (ub : Ubatch) (c c' : Cache C)
        → IsValid ops n ns c
        → Within n slot.idxs
        → apply_ubatch ops slot ub c ≡ some c'
        → IsValid ops n ns c'
    unfolding apply_ubatch
    apply_ubatch-IsValid slot ub c c' v w e =
        elim (Bool-cases (ub.n_tokens == length slot.strm * slot_size slot)) [
          | inr f ↦ cc (rw (apply_ubatch, f) at e)
          | inl t ↦
              elim (Option-cases
                (place_streams ops ub (slot_size slot) 0 slot.strm slot.idxs c (no_maxs ops))) [
                  | inl q ↦ cc (rw (apply_ubatch, t, q) at e)
                  | inr q ↦ elim (Option-cases (purge ops 0 q.0.1 q.0.0)) [
                    | inl p ↦ cc (rw (apply_ubatch, t, q.1, p) at e)
                    | inr p ↦
                        move_heads-IsValid slot.strm slot.idxs p.0 c'
                          (purge-IsValid 0 q.0.1 q.0.0 p.0
                            (place_streams-IsValid ub (slot_size slot) 0 slot.strm slot.idxs c
                              (no_maxs ops) q.0 v q.1)
                            p.1)
                          w (rw (apply_ubatch, t, q.1, p.1) at e)
                  ]
                ]
        ]
