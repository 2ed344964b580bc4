-- ===== src/Kv/Slot/Found.antt =====
-- What a search of a stream for single cells (`cont` is false in `llama_kv_cache::find_slot`,
-- code/source/src/llama-kv-cache.cpp) gives, and when it gives one.
use gfx906_mixed_cuda_rocm_r.Base.{
  ℕ, zero, suc, ◌-◌, ◌≤◌, ◌<◌, ◌≡◌, ◌≢◌, ◌↔◌, refl, ap, sym, ◌∙◌, inl, inr, Bool, true, false, List,
  [], ◌∷◌, length, take, leb, leb→le, le→leb, All, Bool-cases, arith,
}
use gfx906_mixed_cuda_rocm_r.Base.Int.{ℤ}
use gfx906_mixed_cuda_rocm_r.Kv.{CellOps}
use gfx906_mixed_cuda_rocm_r.Kv.Slot.{found, can_use, start_head, find_in_stream}
use gfx906_mixed_cuda_rocm_r.Kv.Slot.Ring.{
  ring, range, keep, Distinct, keep-All, keep-tested, keep-Distinct, ring-Distinct, ring-All,
  length-ring, length-keep-ring,
}
use gfx906_mixed_cuda_rocm_r.Kv.Slot.Words.{first_cells}
use gfx906_mixed_cuda_rocm_r.Kv.Slot.Search.{find_in_stream-ring, start-le}
use mathlib.Core.Path.{subst}

-- The indices of a slot in a stream: as many as tokens, each of a cell that can be used, none twice.
unfoldable pub GoodIdxs : (ℕ → Bool) → ℕ → ℕ → List ℕ → Type 0
unfolding Distinct
GoodIdxs usable n size idxs =
    (length idxs ≡ n) × All (λ i. i < size) idxs × All (λ i. usable i ≡ true) idxs × Distinct idxs

take-All : (P : ℕ → Type 0) (n : ℕ) (xs : List ℕ) → All P xs → All P (take n xs)
take-All P zero xs a = tt
take-All P (suc n) [] a = tt
take-All P (suc n) (x ∷ xs) a = (a.0, take-All P n xs a.1)

take-Distinct : (n : ℕ) (xs : List ℕ) → Distinct xs → Distinct (take n xs)
unfolding Distinct
take-Distinct zero xs d = tt
take-Distinct (suc n) [] d = tt
take-Distinct (suc n) (x ∷ xs) d = (take-All (λ y. x ≢ y) n xs d.0, take-Distinct n xs d.1)

length-take : (n : ℕ) (xs : List ℕ) → n ≤ length xs → length (take n xs) ≡ n
length-take zero xs b = refl
length-take (suc n) [] b = absurd (omega arith)
length-take (suc n) (x ∷ xs) b = ap suc (length-take n xs (omega arith))

pub found-injective : (xs ys : List ℕ) → found xs ≡ found ys → xs ≡ ys
found-injective xs ys e = cc

first_cells-found :
    (n : ℕ) (l idxs : List ℕ) → first_cells n l ≡ found idxs → (n ≤ length l) × (idxs ≡ take n l)
unfolding first_cells
first_cells-found n l idxs e = elim (Bool-cases (leb n (length l))) [
  | inl t ↦ (leb→le n (length l) t, found-injective idxs (take n l) (sym e ∙ rw (first_cells, t)))
  | inr t ↦ cc (rw (first_cells, t) at e)
]

-- All cells, each once, in the order in which they are tested.
ring-Distinct_all : (size h : ℕ) → h ≤ size → Distinct (ring size size h)
ring-Distinct_all size h b =
    subst (λ r. Distinct (ring size r h)) (omega arith)
      (ring-Distinct size (size - h) h (omega arith))

length-ring_all :
    (t : ℕ → Bool) (size h : ℕ)
    → h ≤ size
    → length (keep t (ring size size h)) ≡ length (keep t (range 0 size))
length-ring_all t size h b =
    subst (λ r. length (keep t (ring size r h)) ≡ length (keep t (range 0 size))) (omega arith)
      (length-ring t size (size - h) h (omega arith))

module _ {C E : Type 0} (ops : CellOps C E) (masked : ℤ → ℤ → Bool) where
  open ops use {size}

  abbrev usable_ring : ℕ → C → ℕ → List ℕ
  usable_ring n cells head =
      keep (can_use ops masked cells)
        (ring (size cells) (size cells) (start_head ops masked cells n head))

  nonempty :
      (n : ℕ) (cells : C) (head : ℕ)
      → n ≤ length (usable_ring n cells head)
      → 1 ≤ n
      → 1 ≤ size cells
  nonempty n cells head b o = omega (
    arith,
    length-keep-ring (can_use ops masked cells) (size cells) (size cells)
        (start_head ops masked cells n head),
  )

  same_count :
      (n : ℕ) (cells : C) (head : ℕ)
      → head ≤ size cells
      → length (usable_ring n cells head)
        ≡ length (keep (can_use ops masked cells) (range 0 (size cells)))
  same_count n cells head b =
      length-ring_all (can_use ops masked cells) (size cells) (start_head ops masked cells n head)
        (start-le ops masked n cells head b)

  -- When a search for single cells, in a stream with fewer than 2 ^ 31 cells whose head is not behind
  -- their end, finds a slot for one or more tokens, the slot has one index for each token, all of cells
  -- of the stream that can be used, and no index twice.
  pub find_in_stream-GoodIdxs :
      (n : ℕ) (cells : C) (head : ℕ) (idxs : List ℕ)
      → size cells < 2147483648
      → head ≤ size cells
      → 1 ≤ n
      → find_in_stream ops masked n false cells head ≡ found idxs
      → GoodIdxs (can_use ops masked cells) n (size cells) idxs
  unfolding GoodIdxs
  find_in_stream-GoodIdxs n cells head idxs z b o e =
      let l : List ℕ = usable_ring n cells head in
      let f : (n ≤ length l) × (idxs ≡ take n l) =
        first_cells-found n l idxs (sym (find_in_stream-ring ops masked n cells head z b o) ∙ e) in
      let s : start_head ops masked cells n head ≤ size cells =
        start-le ops masked n cells head b in
      let r : List ℕ = ring (size cells) (size cells) (start_head ops masked cells n head) in
      let t : ℕ → Bool = can_use ops masked cells in
      subst (GoodIdxs t n (size cells)) (sym f.1) (
        length-take n l f.0,
        take-All (λ i. i < size cells) n l
            (keep-All (λ i. i < size cells) t r
              (ring-All (λ i. i < size cells) (size cells) (size cells)
                (start_head ops masked cells n head) s (nonempty n cells head f.0 o) (λ i p. p))),
        take-All (λ i. t i ≡ true) n l (keep-tested t r),
        take-Distinct n l (
            keep-Distinct t r
              (ring-Distinct_all (size cells) (start_head ops masked cells n head) s)),
      )

  -- A search for single cells, in a stream with fewer than 2 ^ 31 cells and for one or more tokens, finds
  -- a slot exactly when at least as many of all the cells can be used, wherever the head is up to the
  -- end of the cells.
  pub find_in_stream-finds :
      (n : ℕ) (cells : C) (head : ℕ)
      → size cells < 2147483648
      → head ≤ size cells
      → 1 ≤ n
      → ((idxs : List ℕ) × (find_in_stream ops masked n false cells head ≡ found idxs))
        ↔ (n ≤ length (keep (can_use ops masked cells) (range 0 (size cells))))
  unfolding first_cells
  find_in_stream-finds n cells head z b o = (
    λ x.
        subst (λ k. n ≤ k) (same_count n cells head b)
          (first_cells-found n (usable_ring n cells head) x.0
            (sym (find_in_stream-ring ops masked n cells head z b o) ∙ x.1)).0,
    λ p. (
      take n (usable_ring n cells head),
      find_in_stream-ring ops masked n cells head z b o
          ∙ rw (
            first_cells,
            le→leb n (length (usable_ring n cells head))
                (subst (λ k. n ≤ k) (sym (same_count n cells head b)) p),
          ),
    ),
  )
