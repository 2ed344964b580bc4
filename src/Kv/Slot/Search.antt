-- ===== src/Kv/Slot/Search.antt =====
-- The search of `llama_kv_cache::find_slot` (code/source/src/llama-kv-cache.cpp) that tests the cells
-- of a stream one by one (`cont` is false), against the usable cells in the order of the ring.
use gfx906_mixed_cuda_rocm_r.Base.{
  ℕ, zero, suc, ◌+◌, ◌-◌, ◌*◌, ◌≤◌, ◌<◌, ◌≡◌, ltb→lt, ap, sym, ◌∙◌, inl, inr, Bool, true, false,
  List, [], ◌∷◌, ◌++◌, append_assoc, length, length-append, ltb, le→leb, lt-leb, lt→ltb, ==-ne,
  Bool-cases, arith,
}
use gfx906_mixed_cuda_rocm_r.Base.Int.{ℤ}
use gfx906_mixed_cuda_rocm_r.Kv.{CellOps}
use gfx906_mixed_cuda_rocm_r.Kv.Slot.{
  Outcome, found, nowhere, can_use, test_cells, search_slot, start_head, find_in_stream,
  after_tests, add32,
}
use gfx906_mixed_cuda_rocm_r.Kv.Slot.Words.{
  first_cells, first_cells_full, first_cells_short, eqb, add32_small, no_wrap, wrap_tested,
  ==-cases, end,
}
use gfx906_mixed_cuda_rocm_r.Kv.Slot.Ring.{
  ring, keep, keep-true, keep-false, ring_next, ring_wrap, length-keep-ring,
}

module _ {C E : Type 0} (ops : CellOps C E) (masked : ℤ → ℤ → Bool) (n : ℕ) (cells : C) where
  open ops use {size}

  abbrev u : ℕ → Bool
  u = can_use ops masked cells

  -- A round at a cell that can be used, or cannot.
  test_usable :
      (h nt : ℕ) (idxs : List ℕ)
      → u h ≡ true
      → test_cells ops masked 1 false cells h nt idxs ≡ (add32 h 1, add32 nt 1, idxs ++ h ∷ [])
  unfolding test_cells
  test_usable h nt idxs t = rw (test_cells, t)

  test_taken :
      (h nt : ℕ) (idxs : List ℕ)
      → u h ≡ false
      → test_cells ops masked 1 false cells h nt idxs ≡ (add32 h 1, add32 nt 1, idxs)
  unfolding test_cells
  test_taken h nt idxs t = rw (test_cells, t)

  abbrev search : ℕ → ℕ → ℕ → List ℕ → Outcome
  search f h nt idxs = search_slot ops masked f n false cells h nt idxs

  round_wrap :
      (f nt : ℕ) (idxs : List ℕ)
      → nt ≤ size cells
      → size cells < 2147483648
      → search (suc f) (size cells) nt idxs ≡ search f 0 nt idxs
  unfolding search_slot
  round_wrap f nt idxs b z = rw (
    search_slot,
    lt→ltb (size cells) (add32 (size cells) 1) (omega arith),
    wrap_tested nt (size cells) (omega arith) (omega arith),
  )

  module _ (f h nt h' nt' : ℕ) (idxs idxs' : List ℕ) (b : h < size cells)
      (z : size cells < 2147483648)
      (e : test_cells ops masked 1 false cells h nt idxs ≡ (h', nt', idxs')) where
    round_found : length idxs' ≡ n → search (suc f) h nt idxs ≡ found idxs'
    unfolding search_slot after_tests
    round_found q =
        rw (search_slot, no_wrap h (size cells) b z)
          (ap (after_tests (search f) n false (size cells)) e
            ∙ rw (after_tests, eqb (length idxs') n q))

    round_nowhere : length idxs' < n → size cells ≤ nt' → search (suc f) h nt idxs ≡ nowhere
    unfolding search_slot after_tests
    round_nowhere q p =
        rw (search_slot, no_wrap h (size cells) b z)
          (ap (after_tests (search f) n false (size cells)) e
            ∙ rw (after_tests, ==-ne (length idxs') n (omega arith), le→leb (size cells) nt' p))

    round_next :
        length idxs' < n → nt' < size cells → search (suc f) h nt idxs ≡ search f h' nt' idxs'
    unfolding search_slot after_tests
    round_next q p =
        rw (search_slot, no_wrap h (size cells) b z)
          (ap (after_tests (search f) n false (size cells)) e
            ∙ rw (after_tests, ==-ne (length idxs') n (omega arith), lt-leb (size cells) nt' p))

  -- The cells that remain to be tested, from `h` on.
  abbrev left : ℕ → ℕ → List ℕ
  left r h = keep u (ring (size cells) r h)

  Finds : ℕ → Type 0
  Finds r =
      (f h nt : ℕ) (idxs : List ℕ)
      → nt + r ≡ size cells
      → h ≤ size cells
      → length idxs < n
      → 2 * r ≤ f
      → search f h nt idxs ≡ first_cells n (idxs ++ left r h)

  module _ (z : size cells < 2147483648) where
    usable_next :
        (h nt : ℕ) (idxs : List ℕ)
        → h < size cells
        → nt < size cells
        → u h ≡ true
        → test_cells ops masked 1 false cells h nt idxs ≡ (h + 1, nt + 1, idxs ++ h ∷ [])
    usable_next h nt idxs b c t =
        test_usable h nt idxs t
        ∙ ap (λ i. (i, add32 nt 1, idxs ++ h ∷ [])) (add32_small h 1 (omega arith))
        ∙ ap (λ i. (h + 1, i, idxs ++ h ∷ [])) (add32_small nt 1 (omega arith))

    taken_next :
        (h nt : ℕ) (idxs : List ℕ)
        → h < size cells
        → nt < size cells
        → u h ≡ false
        → test_cells ops masked 1 false cells h nt idxs ≡ (h + 1, nt + 1, idxs)
    taken_next h nt idxs b c t =
        test_taken h nt idxs t
        ∙ ap (λ i. (i, add32 nt 1, idxs)) (add32_small h 1 (omega arith))
        ∙ ap (λ i. (h + 1, i, idxs)) (add32_small nt 1 (omega arith))

    -- The tests that follow a cell, with the indices so far.
    after_cell :
        (r f h nt : ℕ) (idxs idxs' : List ℕ)
        → (1 ≤ r → Finds r)
        → nt + suc r ≡ size cells
        → h < size cells
        → length idxs' ≤ n
        → 2 * r ≤ f
        → test_cells ops masked 1 false cells h nt idxs ≡ (h + 1, nt + 1, idxs')
        → search (suc f) h nt idxs ≡ first_cells n (idxs' ++ left r (h + 1))
    unfolding Finds search_slot keep ring
    after_cell r f h nt idxs idxs' next e b l g t = elim (==-cases (length idxs') n) [
      | inl q ↦
          round_found f h nt (h + 1) (nt + 1) idxs idxs' b z t q
          ∙ sym (first_cells_full n idxs' (left r (h + 1)) q)
      | inr q ↦ elim (==-cases r 0) [
        | inl o ↦
            round_nowhere f h nt (h + 1) (nt + 1) idxs idxs' b z t (omega arith) (omega arith)
            ∙ sym (
                first_cells_short n (idxs' ++ left r (h + 1)) (
                  omega (
                    arith,
                    length-append idxs' (left r (h + 1)),
                    ap (λ k. length (left k (h + 1))) o,
                  )))
        | inr o ↦
            round_next f h nt (h + 1) (nt + 1) idxs idxs' b z t (omega arith) (omega arith)
            ∙ next (omega arith) f (h + 1) (nt + 1) idxs' (omega arith) (omega arith) (omega arith)
                (omega arith)
      ]
    ]

    round_cell :
        (r f h nt : ℕ) (idxs : List ℕ)
        → (1 ≤ r → Finds r)
        → nt + suc r ≡ size cells
        → h < size cells
        → length idxs < n
        → 2 * r ≤ f
        → search (suc f) h nt idxs ≡ first_cells n (idxs ++ left (suc r) h)
    unfolding keep
    round_cell r f h nt idxs next e b l g = elim (Bool-cases (u h)) [
      | inl t ↦
          after_cell r f h nt idxs (idxs ++ h ∷ []) next e b
            (omega (arith, length-append idxs (h ∷ []))) g (usable_next h nt idxs b (omega arith) t)
          ∙ ap (first_cells n) (
              append_assoc idxs (h ∷ []) (left r (h + 1))
              ∙ ap (λ xs. idxs ++ xs)
                  (sym (
                    ap (keep u) (ring_next (size cells) r h b)
                    ∙ keep-true u h (ring (size cells) r (h + 1)) t)))
      | inr t ↦
          after_cell r f h nt idxs idxs next e b (omega arith) g
            (taken_next h nt idxs b (omega arith) t)
          ∙ ap (λ xs. first_cells n (idxs ++ xs))
              (sym (
                ap (keep u) (ring_next (size cells) r h b)
                ∙ keep-false u h (ring (size cells) r (h + 1)) t))
    ]

    round_any :
        (r f h nt : ℕ) (idxs : List ℕ)
        → (1 ≤ r → Finds r)
        → nt + suc r ≡ size cells
        → h ≤ size cells
        → length idxs < n
        → 2 * r ≤ f
        → search (suc (suc f)) h nt idxs ≡ first_cells n (idxs ++ left (suc r) h)
    round_any r f h nt idxs next e b l g = elim (Bool-cases (ltb h (size cells))) [
      | inl t ↦ round_cell r (suc f) h nt idxs next e (ltb→lt h (size cells) t) l (omega arith)
      | inr t ↦
          ap (λ i. search (suc (suc f)) i nt idxs) (end h (size cells) b t)
          ∙ round_wrap (suc f) nt idxs (omega arith) z
          ∙ round_cell r f 0 nt idxs next e (omega arith) l g
          ∙ ap (λ xs. first_cells n (idxs ++ keep u xs))
              (ring_next (size cells) r 0 (omega arith)
                ∙ sym (ring_wrap (size cells) r h (ground (arith, t))))
    ]

    search-Finds : (r : ℕ) → Finds (suc r)
    unfolding Finds
    search-Finds r zero h nt idxs e b l g = absurd (omega arith)
    search-Finds r (suc zero) h nt idxs e b l g = absurd (omega arith)
    search-Finds zero (suc (suc f)) h nt idxs e b l g =
        round_any 0 f h nt idxs (λ c. absurd (omega arith)) e b l (omega arith)
    search-Finds (suc r) (suc (suc f)) h nt idxs e b l g =
        round_any (suc r) f h nt idxs (λ c. search-Finds r) e b l (omega arith)

  abbrev start : ℕ → ℕ
  start head = start_head ops masked cells n head

  pub start-le : (head : ℕ) → head ≤ size cells → start_head ops masked cells n head ≤ size cells
  unfolding start_head
  start-le head b = ground arith

  search_start :
      (k h : ℕ)
      → size cells < 2147483648
      → h ≤ size cells
      → 1 ≤ n
      → suc k ≡ size cells
      → search (2 * size cells + 2) h 0 [] ≡ first_cells n (left (size cells) h)
  unfolding Finds
  search_start k h z b o e =
      search-Finds z k (2 * size cells + 2) h 0 [] (omega arith) b (omega arith) (omega arith)
      ∙ ap (λ r. first_cells n (left r h)) e

  -- In a stream with fewer than 2 ^ 31 cells whose head is not behind their end, the search for single
  -- cells for one or more tokens ends. It finds the first cells that can be used in the order of the ring
  -- from its start on, as many as tokens, and nothing when there are too few.
  pub find_in_stream-ring :
      (head : ℕ)
      → size cells < 2147483648
      → head ≤ size cells
      → 1 ≤ n
      → find_in_stream ops masked n false cells head
        ≡ first_cells n (
            keep
              (can_use ops masked cells)
              (ring (size cells) (size cells) (start_head ops masked cells n head)))
  unfolding find_in_stream
  find_in_stream-ring head z b o = elim (Bool-cases (ltb (size cells) n)) [
    | inl t ↦
        rw (find_in_stream, t)
          (sym (
            first_cells_short n (left (size cells) (start head))
              (ground (arith, t, length-keep-ring u (size cells) (size cells) (start head)))))
    | inr t ↦
        rw (find_in_stream, t)
          (search_start (size cells - 1) (start head) z (start-le head b) o (ground (arith, t)))
  ]
