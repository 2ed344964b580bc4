-- ===== src/Kv/Valid/Slots.antt =====
-- The slots that `llama_kv_cache::find_slot` (code/source/src/llama-kv-cache.cpp) finds in a valid cache
-- lie within the cells, in both ways of searching.
use gfx906_mixed_cuda_rocm_r.Base.{
  ℕ, zero, suc, ◌+◌, ◌*◌, ◌/◌, ◌%◌, ◌≤◌, ◌<◌, ◌≡◌, ◌⊎◌, refl, ap, sym, ◌∙◌, inl, inr, Bool, true,
  false, not, ◌||◌, some, List, [], ◌∷◌, length, get_elem?, get_or, take, All, All-get_elem?,
  All-append, Bool-cases, Option-cases, arith, ltb, leb, ◌==◌, ==_iff,
}
use gfx906_mixed_cuda_rocm_r.Base.Int.{ℤ}
use gfx906_mixed_cuda_rocm_r.Kv.{CellOps, Cache}
use gfx906_mixed_cuda_rocm_r.Kv.Slot.{
  Ubatch, SlotInfo, Outcome, found, nowhere, searching, add32, n_test, after_tests, test_cells,
  search_slot, start_head, find_in_stream, one_sequence, find_streams, find_slot, empty_info,
}
use gfx906_mixed_cuda_rocm_r.Kv.Slot.Ring.{range, range-All}
use gfx906_mixed_cuda_rocm_r.Kv.Slot.Found.{find_in_stream-GoodIdxs, found-injective, GoodIdxs}
use gfx906_mixed_cuda_rocm_r.Kv.Slot.Runs.{find_in_stream-IsRun, IsRun}
use gfx906_mixed_cuda_rocm_r.Kv.Valid.{IsValid, All-get_or}
use gfx906_mixed_cuda_rocm_r.Kv.Valid.Batch.{Within}
use mathlib.Core.Option.{some-injective}
use mathlib.Core.Path.{subst}

pub Outcome-cases :
    (o : Outcome) → (o ≡ nowhere) ⊎ ((o ≡ searching) ⊎ ((l : List ℕ) × (o ≡ found l)))
Outcome-cases nowhere = inl refl
Outcome-cases searching = inr (inl refl)
Outcome-cases (found l) = inr (inr (l, refl))

module _ {C E : Type 0} (ops : CellOps C E) (masked : ℤ → ℤ → Bool) where
  open ops use {size}

  after_tests-length :
      (again : ℕ → ℕ → List ℕ → Outcome) (n : ℕ) (cont : Bool) (m : ℕ) (r : ℕ × ℕ × List ℕ)
      (l : List ℕ)
      → ((h nt : ℕ) (idxs : List ℕ) → again h nt idxs ≡ found l → length l ≡ n)
      → after_tests again n cont m r ≡ found l
      → length l ≡ n
  unfolding after_tests
  after_tests-length again n cont m r l p e = elim (Bool-cases (length r.2 == n)) [
    | inl t ↦
        ap length (sym (found-injective r.2 l (rw (after_tests, t) at e)))
        ∙ (==_iff (length r.2) n).0 t
    | inr t ↦ elim (Bool-cases (leb m r.1)) [
      | inl u ↦ cc (rw (after_tests, t, u) at e)
      | inr u ↦ p r.0 r.1 _ (rw (after_tests, t, u) at e)
    ]
  ]

  -- A slot in a stream has as many indices as asked for.
  search_slot-length :
      (f n : ℕ) (cont : Bool) (k : C) (h nt : ℕ) (idxs l : List ℕ)
      → search_slot ops masked f n cont k h nt idxs ≡ found l
      → length l ≡ n
  unfolding search_slot
  search_slot-length zero n cont k h nt idxs l e = cc
  search_slot-length (suc f) n cont k h nt idxs l e =
      elim (Bool-cases (ltb (size k) (add32 h (n_test cont n)))) [
        | inl t ↦ search_slot-length f n cont k 0 _ idxs l (rw (search_slot, t) at e)
        | inr t ↦
            after_tests-length (λ h' nt' idxs'. search_slot ops masked f n cont k h' nt' idxs') n
              cont (size k) (test_cells ops masked (n_test cont n) cont k h nt idxs) l
              (λ h' nt' idxs' q. search_slot-length f n cont k h' nt' idxs' l q)
              (rw (search_slot, t) at e)
      ]

  pub find_in_stream-length :
      (n : ℕ) (cont : Bool) (k : C) (h : ℕ) (l : List ℕ)
      → find_in_stream ops masked n cont k h ≡ found l
      → length l ≡ n
  unfolding find_in_stream
  find_in_stream-length n cont k h l e = elim (Bool-cases (ltb (size k) n)) [
    | inl t ↦ cc (rw (find_in_stream, t) at e)
    | inr t ↦
        search_slot-length (2 * size k + 2) n cont k (start_head ops masked k n h) 0 [] l
          (rw (find_in_stream, t) at e)
  ]

  find_in_stream-All :
      (n : ℕ) (cont : Bool) (k : C) (h : ℕ) (l : List ℕ)
      → size k < 1073741824
      → h ≤ size k
      → find_in_stream ops masked n cont k h ≡ found l
      → All (λ i. i < size k) l
  unfolding GoodIdxs IsRun
  find_in_stream-All zero cont k h [] z b e = tt
  find_in_stream-All zero cont k h (x ∷ l) z b e =
      absurd (omega (arith, find_in_stream-length 0 cont k h (x ∷ l) e))
  find_in_stream-All (suc n) false k h l z b e =
      (find_in_stream-GoodIdxs ops masked (suc n) k h l (omega arith) b (omega arith) e).1
  find_in_stream-All (suc n) true k h l z b e =
      elim (find_in_stream-IsRun ops masked (suc n) k h z b (omega arith)) [
        | inl r ↦ cc
        | inr r ↦
            subst (All (λ i. i < size k)) (found-injective (range r.0 (suc n)) l (sym r.1 ∙ e))
              (range-All (λ i. i < size k) r.0 (suc n) (λ i p q. omega (arith, r.2)))
      ]

  module _ (n ns : ℕ) (z : n < 1073741824) (c : Cache C) (v : IsValid ops n ns c)
      (ub : Ubatch) where
    in_stream :
        (m : ℕ) (cont : Bool) (st : ℕ) (k : C) (l : List ℕ)
        → get_elem? c.v_cells st ≡ some k
        → find_in_stream ops masked m cont k (get_or c.v_heads st 0) ≡ found l
        → All (λ i. i < n) l
    in_stream m cont st k l q e =
        let y : size k ≡ n = All-get_elem? (λ x. size x ≡ n) c.v_cells st k v.sizes q in
        let b : get_or c.v_heads st 0 ≤ n =
          All-get_or (λ h. h ≤ n) c.v_heads st 0 v.heads (omega arith) in
        subst (λ x. All (λ i. i < x) l) y
          (find_in_stream-All m cont k (get_or c.v_heads st 0) l (omega (arith, y))
            (omega (arith, y, b)) e)

    find_streams-Within :
        (m : ℕ) (cont : Bool) (s : ℕ) (seqs : List ℕ) (slot slot' : SlotInfo)
        → Within n slot.idxs
        → find_streams ops masked c ub m cont s seqs slot ≡ some slot'
        → Within n slot'.idxs
    unfolding find_streams Within
    find_streams-Within m cont s [] slot slot' w e =
        subst (λ x. Within n x.idxs) (some-injective _ _ e) w
    find_streams-Within m cont s (q ∷ seqs) slot slot' w e =
        elim (Bool-cases (leb (length c.v_cells) 1 || one_sequence ops masked ub m s q)) [
          | inr t ↦ cc (rw (find_streams, t) at e)
          | inl t ↦ elim (Option-cases (get_elem? c.seq_to_stream q)) [
            | inl a ↦ cc (rw (find_streams, t, a) at e)
            | inr a ↦ elim (Option-cases (get_elem? c.v_cells a.0)) [
              | inl b ↦ cc (rw (find_streams, t, a.1, b) at e)
              | inr b ↦
                  elim (Outcome-cases
                    (find_in_stream ops masked m cont b.0 (get_or c.v_heads a.0 0))) [
                      | inl r ↦
                          subst (λ x. Within n x.idxs)
                            (some-injective _ _ (rw (find_streams, t, a.1, b.1, r) at e)) tt
                      | inr (inl r) ↦ cc (rw (find_streams, t, a.1, b.1, r) at e)
                      | inr (inr r) ↦
                          find_streams-Within m cont (s + 1) seqs _ slot'
                            (All-append (All (λ i. i < n)) slot.idxs (r.0 ∷ []) w
                              (in_stream m cont a.0 b.0 r.0 b.1 r.1, tt))
                            (rw (find_streams, t, a.1, b.1, r.1) at e)
                    ]
            ]
          ]
        ]

    -- The indices of a slot that is found in a valid cache are below the number of cells.
    pub find_slot-Within :
        (cont : Bool) (slot : SlotInfo)
        → find_slot ops masked c ub cont ≡ some slot
        → Within n slot.idxs
    unfolding find_slot Within
    find_slot-Within cont slot e = elim (Bool-cases (leb (length c.v_cells) 1)) [
      | inl t ↦
          find_streams-Within ub.n_tokens cont 0 (take 1 ub.seq_id_unq) (empty_info ops masked) slot
            tt (rw (find_slot, t) at e)
      | inr t ↦ elim (Bool-cases (not (ub.n_tokens % ub.n_seqs_unq == 0))) [
        | inl u ↦ cc (rw (find_slot, t, u) at e)
        | inr u ↦
            find_streams-Within (ub.n_tokens / ub.n_seqs_unq) cont 0
              (take ub.n_seqs_unq ub.seq_id_unq) (empty_info ops masked) slot tt
              (rw (find_slot, t, u) at e)
      ]
    ]
