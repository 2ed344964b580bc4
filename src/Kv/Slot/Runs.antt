-- ===== src/Kv/Slot/Runs.antt =====
-- The search of `llama_kv_cache::find_slot` (code/source/src/llama-kv-cache.cpp) for consecutive cells
-- (`cont` is true).
use gfx906_mixed_cuda_rocm_r.Base.{
  ℕ, zero, suc, ◌+◌, ◌-◌, ◌*◌, ◌≤◌, ◌<◌, ◌≡◌, refl, ◌⊎◌, ap, sym, ◌∙◌, inl, inr, Bool, true, false,
  List, [], ◌∷◌, ◌++◌, append-nil, append_assoc, length, length-append, ltb, leb, lt→ltb, ==-ne,
  leb→le, All, Bool-cases, arith,
}
use gfx906_mixed_cuda_rocm_r.Base.Int.{ℤ}
use gfx906_mixed_cuda_rocm_r.Kv.{CellOps}
use gfx906_mixed_cuda_rocm_r.Kv.Slot.{
  Outcome, found, nowhere, can_use, test_cells, search_slot, start_head, find_in_stream,
  after_tests, add32, sub32, u32_mod,
}
use gfx906_mixed_cuda_rocm_r.Kv.Slot.Ring.{range, length-range}
use gfx906_mixed_cuda_rocm_r.Kv.Slot.Words.{add32_small, eqb}
use gfx906_mixed_cuda_rocm_r.Kv.Slot.Search.{start-le}
use mathlib.Core.Path.{subst}

no_wrap_at : (a b m : ℕ) → a + b ≤ m → m < 1073741824 → ltb m (add32 a b) ≡ false
no_wrap_at a b m h z = ground (arith, add32_small a b (omega arith))

wrap_at : (nt h m : ℕ) → nt < m → h ≤ m → m < 1073741824 → add32 nt (sub32 m h) ≡ nt + (m - h)
wrap_at nt h m a b z = omega arith

module _ {C E : Type 0} (ops : CellOps C E) (masked : ℤ → ℤ → Bool) (n : ℕ) (cells : C) where
  open ops use {size}

  abbrev u : ℕ → Bool
  u = can_use ops masked cells

  -- A slot of consecutive cells that can be used, or none.
  unfoldable pub IsRun : Outcome → Type 0
  unfolding range
  IsRun o =
      (o ≡ nowhere)
      ⊎ ((h : ℕ) × (o ≡ found (range h n))
          × (h + n ≤ size cells)
          × All (λ i. can_use ops masked cells i ≡ true) (range h n))

  -- The end of a round over `k` cells from `h` on: all can be used, or it stopped behind one of them.
  Round : ℕ → ℕ → ℕ → List ℕ → ℕ × ℕ × List ℕ → Type 0
  unfolding range
  Round k h nt acc r =
      ((r.2 ≡ acc ++ range h k) × All (λ i. u i ≡ true) (range h k))
      ⊎ ((length r.2 < length acc + k)
          × (j : ℕ) × (1 ≤ j)
          × (j ≤ k)
          × (r.0 ≡ h + j)
          × (r.1 ≡ nt + j))

  Round-suc :
      (k h nt : ℕ) (acc : List ℕ) (r : ℕ × ℕ × List ℕ)
      → u h ≡ true
      → Round k (h + 1) (nt + 1) (acc ++ h ∷ []) r
      → Round (suc k) h nt acc r
  unfolding Round range
  Round-suc k h nt acc r t (inl a) =
      inl (a.0 ∙ append_assoc acc (h ∷ []) (range (h + 1) k), (t, a.1))
  Round-suc k h nt acc r t (inr a) = inr (
    omega (arith, a.0, length-append acc (h ∷ [])),
    a.1 + 1,
    omega arith,
    omega (arith, a.3),
    omega (arith, a.4),
    omega (arith, a.5),
  )

  test_next :
      (k h nt : ℕ) (acc : List ℕ)
      → h + 1 < u32_mod
      → nt + 1 < u32_mod
      → u h ≡ true
      → test_cells ops masked (suc k) true cells h nt acc
        ≡ test_cells ops masked k true cells (h + 1) (nt + 1) (acc ++ h ∷ [])
  unfolding test_cells
  test_next k h nt acc b c t =
      rw (test_cells, t, add32_small h 1 (omega arith), add32_small nt 1 (omega arith))

  test_stop :
      (k h nt : ℕ) (acc : List ℕ)
      → h + 1 < u32_mod
      → nt + 1 < u32_mod
      → u h ≡ false
      → test_cells ops masked (suc k) true cells h nt acc ≡ (h + 1, nt + 1, acc)
  unfolding test_cells
  test_stop k h nt acc b c t =
      rw (test_cells, t, add32_small h 1 (omega arith), add32_small nt 1 (omega arith))

  test-Round :
      (k h nt : ℕ) (acc : List ℕ)
      → h + k < u32_mod
      → nt + k < u32_mod
      → Round k h nt acc (test_cells ops masked k true cells h nt acc)
  unfolding Round test_cells range
  test-Round zero h nt acc b c = inl (sym (append-nil acc), tt)
  test-Round (suc k) h nt acc b c = elim (Bool-cases (u h)) [
    | inl t ↦
        subst (Round (suc k) h nt acc) (sym (test_next k h nt acc (omega arith) (omega arith) t)) (
          Round-suc k h nt acc (test_cells ops masked k true cells (h + 1) (nt + 1) (acc ++ h ∷ []))
            t (test-Round k (h + 1) (nt + 1) (acc ++ h ∷ []) (omega arith) (omega arith)))
    | inr t ↦
        subst (Round (suc k) h nt acc) (sym (test_stop k h nt acc (omega arith) (omega arith) t))
          (inr (omega arith, 1, omega arith, omega arith, refl, refl))
  ]

  abbrev search : ℕ → ℕ → ℕ → Outcome
  search f h nt = search_slot ops masked f n true cells h nt []

  module _ (z : size cells < 1073741824) where
    -- The tests behind a round over `n` cells.
    after-IsRun :
        (f h nt : ℕ) (r : ℕ × ℕ × List ℕ)
        → h + n ≤ size cells
        → ((h' nt' : ℕ) → nt < nt' → nt' < size cells → h' ≤ size cells → IsRun (search f h' nt'))
        → Round n h nt [] r
        → IsRun (
            after_tests
              (λ h' nt' idxs'. search_slot ops masked f n true cells h' nt' idxs')
              n
              true
              (size cells)
              r)
    unfolding IsRun Round after_tests
    after-IsRun f h nt r b next (inl a) = inr (
      h,
      rw (after_tests, eqb (length r.2) n (ap length a.0 ∙ length-range h n)) (ap found a.0),
      b,
      a.1,
    )
    after-IsRun f h nt r b next (inr a) = elim (Bool-cases (leb (size cells) r.1)) [
      | inl t ↦ inl (rw (after_tests, ==-ne (length r.2) n (omega (arith, a.0)), t))
      | inr t ↦
          subst IsRun (sym (rw (after_tests, ==-ne (length r.2) n (omega (arith, a.0)), t)))
            (next r.0 r.1 (ground (arith, a)) (ground (arith, t)) (ground (arith, a)))
    ]

    -- A round that fits, and one that wraps around first.
    fit-IsRun :
        (f h nt : ℕ)
        → h + n ≤ size cells
        → nt < 2147483648
        → ((h' nt' : ℕ) → nt < nt' → nt' < size cells → h' ≤ size cells → IsRun (search f h' nt'))
        → IsRun (search (suc f) h nt)
    unfolding search_slot
    fit-IsRun f h nt b c next =
        rw (search_slot, no_wrap_at h n (size cells) b z)
          (after-IsRun f h nt (test_cells ops masked n true cells h nt []) b next
            (test-Round n h nt [] (omega arith) (omega arith)))

    wrapped :
        (f h nt : ℕ)
        → size cells < h + n
        → h ≤ size cells
        → n ≤ size cells
        → nt < size cells
        → search (suc f) h nt ≡ search f 0 (nt + (size cells - h))
    unfolding search_slot
    wrapped f h nt b c d e = rw (
      search_slot,
      lt→ltb (size cells) (add32 h n) (omega arith),
      wrap_at nt h (size cells) e c z,
    )

    run :
        (m f h nt : ℕ)
        → size cells ≤ nt + m
        → nt < size cells
        → h ≤ size cells
        → n ≤ size cells
        → 2 * m ≤ f
        → IsRun (search f h nt)
    run zero f h nt a b c d g = absurd (omega arith)
    run (suc m) zero h nt a b c d g = absurd (omega arith)
    run (suc m) (suc zero) h nt a b c d g = absurd (omega arith)
    run (suc m) (suc (suc f)) h nt a b c d g = elim (Bool-cases (leb (h + n) (size cells))) [
      | inl t ↦
          fit-IsRun (suc f) h nt (leb→le (h + n) (size cells) t) (omega arith)
            (λ h' nt' p q s. run m (suc f) h' nt' (omega arith) q s d (omega arith))
      | inr t ↦ subst IsRun (sym (wrapped (suc f) h nt (ground (arith, t)) c d b)) (
          fit-IsRun f 0 (nt + (size cells - h)) (omega arith) (omega arith)
            (λ h' nt' p q s. run m f h' nt' (omega arith) q s d (omega arith)))
    ]

  -- In a stream with fewer than 2 ^ 30 cells whose head is not behind their end, a search for a slot of
  -- consecutive cells for one or more tokens ends. It finds none, or the cells from some index on, one for each token, which lie within
  -- the stream and can all be used.
  pub find_in_stream-IsRun :
      (head : ℕ)
      → size cells < 1073741824
      → head ≤ size cells
      → 1 ≤ n
      → IsRun (find_in_stream ops masked n true cells head)
  unfolding find_in_stream IsRun
  find_in_stream-IsRun head z b o = elim (Bool-cases (ltb (size cells) n)) [
    | inl t ↦ inl (rw (find_in_stream, t))
    | inr t ↦
        rw (find_in_stream, t)
          (run z (size cells) (2 * size cells + 2) (start_head ops masked cells n head) 0
            (omega arith) (ground (arith, t)) (start-le ops masked n cells head b)
            (ground (arith, t)) (omega arith))
  ]
