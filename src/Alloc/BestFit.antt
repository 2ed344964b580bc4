-- ===== src/Alloc/BestFit.antt =====
-- Which inner block `ggml_dyn_tallocr_alloc` picks (code/source/ggml/src/ggml-alloc.c).
use gfx906_mixed_cuda_rocm_r.Base.{
  ℕ, suc, ◌≤◌, ◌<◌, ◌≡◌, refl, sym, ◌∙◌, ◌⊎◌, inl, inr, ◌&&◌, none, some, List, [], ◌∷◌, ◌++◌,
  append_assoc, arith, leb, if◌then◌else◌, get_elem?, length, get_elem?-length, length-append, Bool,
  true, false, All, drop,
}
use gfx906_mixed_cuda_rocm_r.Alloc.{Block, Chunk, Slot, fit_blocks, fit_chunks, size_max}

-- All blocks but the last.
abbrev pub inner : List Block → List Block
inner [] = []
inner (b ∷ []) = []
inner (b ∷ b' ∷ bs) = b ∷ inner (b' ∷ bs)

-- Every inner block is too small.
abbrev pub NoFit : ℕ → List Block → Type 0
NoFit size bs = All (λ b. b.size < size) (inner bs)

-- Block `b` is not larger than any inner block that is large enough.
abbrev pub Least : ℕ → Block → List Block → Type 0
Least size b bs = All (λ b'. (b'.size < size) ⊎ (b.size ≤ b'.size)) (inner bs)

abbrev pub Bounded : List Block → Type 0
Bounded = All (λ b. b.size ≤ size_max)

-- What the loop over a chunk's blocks returns, against what it began with.
data Pick (size c best : ℕ) (pre bs : List Block) (acc r : Slot) : Type 0 where
  kept :
      r ≡ acc
      → All (λ b. (b.size < size) ⊎ (best < b.size)) (inner bs)
      → Pick size c best pre bs acc r
  found :
      (i : ℕ) (b : Block)
      → r ≡ some (c, i)
      → get_elem? (pre ++ bs) i ≡ some b
      → size ≤ b.size
      → b.size ≤ best
      → Least size b bs
      → Pick size c best pre bs acc r

Pick-step :
    (size c best : ℕ) (pre bs : List Block) (b b' : Block) (acc r : Slot)
    → (hit : Bool) → (leb size b.size && leb b.size best) ≡ hit
    → Pick size c
        (if hit then b.size else best)
        (pre ++ b ∷ [])
        (b' ∷ bs)
        (if hit then some (c, length pre) else acc)
        r
    → Pick size c best pre (b ∷ b' ∷ bs) acc r
Pick-step size c best pre bs b b' acc r true t (kept e a) =
    found (length pre) b e (get_elem?-length pre (b' ∷ bs) b) (ground arith) (ground arith)
      (inr (omega arith), weaken (inner (b' ∷ bs)) a)
  where
    weaken :
        (l : List Block)
        → All (λ (x : Block). (x.size < size) ⊎ (b.size < x.size)) l
        → All (λ (x : Block). (x.size < size) ⊎ (b.size ≤ x.size)) l
    weaken [] a = tt
    weaken (x ∷ l) a = (omega (arith, a.0), weaken l a.1)
Pick-step size c best pre bs b b' acc r true t (found i m e g l u a) =
    found i m e (rw (← append_assoc pre (b ∷ []) (b' ∷ bs)) g) l (ground arith) (inr u, a)
Pick-step size c best pre bs b b' acc r false t (kept e a) = kept e (ground arith, a)
Pick-step size c best pre bs b b' acc r false t (found i m e g l u a) =
    found i m e (rw (← append_assoc pre (b ∷ []) (b' ∷ bs)) g) l u (ground arith, a)

fit_blocks-Pick :
    (size c : ℕ) (pre bs : List Block) (best : ℕ) (acc : Slot)
    → Pick size c best pre bs acc (fit_blocks size c (length pre) bs best acc)
unfolding fit_blocks
fit_blocks-Pick size c pre [] best acc = kept refl tt
fit_blocks-Pick size c pre (b ∷ []) best acc = kept refl tt
fit_blocks-Pick size c pre (b ∷ b' ∷ bs) best acc =
    Pick-step size c best pre bs b b' acc _ (leb size b.size && leb b.size best) refl
      (rw shift (fit_blocks-Pick size c (pre ++ b ∷ []) (b' ∷ bs) _ _))
  where
    shift : suc (length pre) ≡ length (pre ++ b ∷ [])
    shift = omega (arith, length-append pre (b ∷ []))

-- The block that a search over all chunks returns, and what the search leaves behind.
pub record Chosen (ks : List Chunk) (size c i : ℕ) : Type 0 where
  pub chunk : Chunk
  pub block : Block
  pub at_chunk : get_elem? ks c ≡ some chunk
  pub at_block : get_elem? chunk.free_blocks i ≡ some block
  pub fits : size ≤ block.size
  pub least : Least size block chunk.free_blocks
  pub later : All (λ k. NoFit size k.free_blocks) (drop (suc c) ks)

data Outcome (ks : List Chunk) (size : ℕ) (rest : List Chunk) (acc r : Slot) : Type 0 where
  kept : r ≡ acc → All (λ k. NoFit size k.free_blocks) rest → Outcome ks size rest acc r
  found : (c i : ℕ) → r ≡ some (c, i) → Chosen ks size c i → Outcome ks size rest acc r

drop-length : (pre rest : List Chunk) (k : Chunk) → drop (suc (length pre)) (pre ++ k ∷ rest) ≡ rest
drop-length [] rest k = refl
drop-length (p ∷ pre) rest k = drop-length pre rest k

small :
    (size : ℕ) (l bs : List Block)
    → All (λ (b : Block). b.size ≤ size_max) bs
    → l ≡ inner bs
    → All (λ (b : Block). (b.size < size) ⊎ (size_max < b.size)) l
    → All (λ (b : Block). b.size < size) l
small size [] bs h e a = tt
small size (b ∷ l) [] h e a = cc
small size (b ∷ l) (x ∷ []) h e a = cc
small size (b ∷ l) (x ∷ y ∷ bs) h e a =
    (ground (arith, h.0, a.0), small size l (y ∷ bs) h.1 (ground arith) a.1)

chunk_step :
    (ks : List Chunk) (size : ℕ) (pre rest : List Chunk) (k : Chunk) (acc mid r : Slot)
    → ks ≡ pre ++ k ∷ rest
    → Bounded k.free_blocks
    → Pick size (length pre) size_max [] k.free_blocks acc mid
    → Outcome ks size rest mid r
    → Outcome ks size (k ∷ rest) acc r
chunk_step ks size pre rest k acc mid r e h p (found c i q w) = found c i q w
chunk_step ks size pre rest k acc mid r e h (kept m a) (kept q w) =
    kept (q ∙ m) (small size _ k.free_blocks h refl a, w)
chunk_step ks size pre rest k acc mid r e h (found i b m g l u a) (kept q w) =
    found (length pre) i (q ∙ m) (record {
      chunk = k;
      block = b;
      at_chunk = rw e (get_elem?-length pre rest k);
      at_block = g;
      fits = l;
      least = a;
      later = rw (e, drop-length pre rest k) w;
    })

fit_chunks-Outcome :
    (ks : List Chunk) (size : ℕ) (pre rest : List Chunk) (acc : Slot)
    → ks ≡ pre ++ rest
    → All (λ k. Bounded k.free_blocks) rest
    → Outcome ks size rest acc (fit_chunks size (length pre) rest acc)
unfolding fit_chunks
fit_chunks-Outcome ks size pre [] acc e h = kept refl tt
fit_chunks-Outcome ks size pre (k ∷ rest) acc e h =
    chunk_step ks size pre rest k acc _ _ e h.0
      (fit_blocks-Pick size (length pre) [] k.free_blocks size_max acc)
      (rw shift (
        fit_chunks-Outcome ks size (pre ++ k ∷ []) rest _ (e ∙ sym (append_assoc pre (k ∷ []) rest))
          h.1))
  where
    shift : suc (length pre) ≡ length (pre ++ k ∷ [])
    shift = omega (arith, length-append pre (k ∷ []))

-- With block sizes that are `size_t` values, the first search either fails, and every block but the
-- last of each chunk is too small, or it returns a block that is large enough and no larger than
-- any large enough block but the last of its own chunk, and no block but the last of a later chunk
-- is large enough.
pub fit_chunks_lem :
    (ks : List Chunk) (size : ℕ)
    → All (λ k. Bounded k.free_blocks) ks
    → ((fit_chunks size 0 ks none ≡ none) × All (λ k. NoFit size k.free_blocks) ks)
      ⊎ ((c : ℕ) × (i : ℕ) × (fit_chunks size 0 ks none ≡ some (c, i)) × Chosen ks size c i)
fit_chunks_lem ks size h = result _ (fit_chunks-Outcome ks size [] ks none refl h)
  where
    result :
        (r : Slot)
        → Outcome ks size ks none r
        → ((r ≡ none) × All (λ k. NoFit size k.free_blocks) ks)
          ⊎ ((c : ℕ) × (i : ℕ) × (r ≡ some (c, i)) × Chosen ks size c i)
    result r (kept e a) = inl (e, a)
    result r (found c i e w) = inr (c, i, e, w)
