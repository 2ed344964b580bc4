-- ===== src/Alloc/Search.antt =====
-- The search of `ggml_dyn_tallocr_alloc` for a free block (code/source/ggml/src/ggml-alloc.c).
use gfx906_mixed_cuda_rocm_r.Base.{
  ℕ, suc, ◌≤◌, ◌≡◌, refl, sym, ◌∙◌, inl, inr, ◌&&◌, none, some, List, [], ◌∷◌, ◌++◌, append_assoc,
  arith, leb, if◌then◌else◌, get_elem?, length, Bool-cases, Option-cases, get_elem?-length,
  length-append,
}
use gfx906_mixed_cuda_rocm_r.Alloc.{
  Block, Chunk, Slot, fit_blocks, fit_chunks, last_block, last_blocks, better, reuse_factor,
  size_max,
}

-- What a search found is a free block of at least `size` bytes.
abbrev pub Holds : List Chunk → ℕ → Slot → Type 0
Holds ks size none = Unit {0}
Holds ks size (some (c, i)) =
    (k : Chunk) × (b : Block) × (get_elem? ks c ≡ some k)
    × (get_elem? k.free_blocks i ≡ some b)
    × (size ≤ b.size)

fit_blocks-Holds :
    (ks : List Chunk) (size c : ℕ) (k : Chunk) (pre bs : List Block) (best : ℕ) (acc : Slot)
    → get_elem? ks c ≡ some k
    → k.free_blocks ≡ pre ++ bs
    → Holds ks size acc
    → Holds ks size (fit_blocks size c (length pre) bs best acc)
unfolding fit_blocks
fit_blocks-Holds ks size c k pre [] best acc e f h = h
fit_blocks-Holds ks size c k pre (b ∷ []) best acc e f h = h
fit_blocks-Holds ks size c k pre (b ∷ b' ∷ bs) best acc e f h = rw (shift) (
    fit_blocks-Holds ks size c k (pre ++ b ∷ []) (b' ∷ bs) _ _ e
      (f ∙ sym (append_assoc pre (b ∷ []) (b' ∷ bs))) here)
  where
    shift : suc (length pre) ≡ length (pre ++ b ∷ [])
    shift = omega (arith, length-append pre (b ∷ []))

    here : Holds ks size (if leb size b.size && leb b.size best then some (c, length pre) else acc)
    here = elim (Bool-cases (leb size b.size && leb b.size best)) [
      | inl t ↦ rw t (k, b, e, rw f (get_elem?-length pre (b' ∷ bs) b), ground arith)
      | inr t ↦ rw t h
    ]

fits-Holds :
    (ks : List Chunk) (size : ℕ) (pre rest : List Chunk) (acc : Slot)
    → ks ≡ pre ++ rest
    → Holds ks size acc
    → Holds ks size (fit_chunks size (length pre) rest acc)
unfolding fit_chunks
fits-Holds ks size pre [] acc e h = h
fits-Holds ks size pre (k ∷ rest) acc e h = rw shift (
    fits-Holds ks size (pre ++ k ∷ []) rest _ (e ∙ sym (append_assoc pre (k ∷ []) rest)) (
      fit_blocks-Holds ks size (length pre) k [] k.free_blocks size_max acc
        (rw e (get_elem?-length pre rest k)) refl h))
  where
    shift : suc (length pre) ≡ length (pre ++ k ∷ [])
    shift = omega (arith, length-append pre (k ∷ []))

pub fit_chunks-Holds : (ks : List Chunk) (size : ℕ) → Holds ks size (fit_chunks size 0 ks none)
fit_chunks-Holds ks size = fits-Holds ks size [] ks none refl tt

last_block-get :
    (pre bs : List Block) (i : ℕ) (b : Block)
    → last_block (length pre) bs ≡ some (i, b)
    → get_elem? (pre ++ bs) i ≡ some b
last_block-get pre [] i b e = cc
last_block-get pre (c ∷ []) i b e =
    let j : length pre ≡ i = ground arith in
    let same : c ≡ b = ground arith in rw (← j, ← same) (get_elem?-length pre [] c)
last_block-get pre (c ∷ d ∷ bs) i b e =
    rw (← append_assoc pre (c ∷ []) (d ∷ bs))
      (last_block-get (pre ++ c ∷ []) (d ∷ bs) i b (rw shift e))
  where
    shift : length (pre ++ c ∷ []) ≡ suc (length pre)
    shift = omega (arith, length-append pre (c ∷ []))

lasts-Holds :
    (ks : List Chunk) (size : ℕ) (pre rest : List Chunk) (best : ℕ) (acc : Slot)
    → ks ≡ pre ++ rest
    → Holds ks size acc
    → Holds ks size (last_blocks size (length pre) rest best acc)
unfolding last_blocks
lasts-Holds ks size pre [] best acc e h = h
lasts-Holds ks size pre (k ∷ rest) best acc e h =
    let later = λ (best' : ℕ) (acc' : Slot) (h' : Holds ks size acc').
      lasts-Holds ks size (pre ++ k ∷ []) rest best' acc' (e ∙ sym (append_assoc pre (k ∷ []) rest))
        h' in
    elim (Option-cases (last_block 0 k.free_blocks)) [
      | inl q ↦ rw (q, last_blocks, shift) (later best acc h)
      | inr ((i, b), q) ↦
          rw (q, last_blocks, shift)
            (later _ _
              (elim (Bool-cases
                (leb size b.size && better best (reuse_factor k.max_size b.offset size))) [
                  | inl t ↦ rw t (
                    k,
                    b,
                    rw e (get_elem?-length pre rest k),
                    last_block-get [] k.free_blocks i b q,
                    ground arith,
                  )
                  | inr t ↦ rw t h
                ]))
    ]
  where
    shift : suc (length pre) ≡ length (pre ++ k ∷ [])
    shift = omega (arith, length-append pre (k ∷ []))

pub last_blocks-Holds : (ks : List Chunk) (size : ℕ) → Holds ks size (last_blocks size 0 ks 0 none)
last_blocks-Holds ks size = lasts-Holds ks size [] ks 0 none refl tt
