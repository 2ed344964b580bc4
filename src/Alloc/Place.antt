-- ===== src/Alloc/Place.antt =====
-- Where `ggml_dyn_tallocr_alloc` finds room (code/source/ggml/src/ggml-alloc.c), and when it cannot.
use gfx906_mixed_cuda_rocm_r.Base.{
  ℕ, ◌/◌, ◌≤◌, ◌<◌, ◌≡◌, refl, inl, inr, Option, none, some, [], ◌∷◌, ◌++◌, arith, leb, get_elem?,
  length, Bool-cases, Option-cases, All,
}
use mathlib.Core.Option
use gfx906_mixed_cuda_rocm_r.Alloc.{
  Block, Chunk, Tallocr, place, new_chunk, fresh_size, fit_chunks, last_blocks, size_max,
  max_chunks, new, reset,
}
use gfx906_mixed_cuda_rocm_r.Alloc.Blocks.{Sorted}
use gfx906_mixed_cuda_rocm_r.Alloc.Search.{Holds, fit_chunks-Holds, last_blocks-Holds}

-- Every free list is in order, and no chunk is asked to be larger than half the address space.
pub record IsValid (t : Tallocr) : Type 0 where
  pub sorted : All (λ k. Sorted 0 k.free_blocks) t.chunks
  pub small : t.max_chunk_size ≤ size_max / 2
  pub count : length t.chunks ≤ max_chunks

-- A fresh allocator is valid.
pub new-IsValid : (alignment max_buffer_size : ℕ) → IsValid (new alignment max_buffer_size)
unfolding new reset
new-IsValid alignment max_buffer_size = record {
  sorted = tt;
  small = omega arith;
  count = omega arith;
}

-- The one free block of a chunk that is added.
abbrev pub fresh : Tallocr → ℕ → Chunk
fresh t size = record {
  free_blocks = record { offset = 0; size = fresh_size t size } ∷ [];
  max_size = 0;
}

-- The chunks that the search has before it, with the one that is added if need be.
pub data Room (t : Tallocr) (size : ℕ) : Option (Tallocr × ℕ × ℕ) → Type 0 where
  old :
      (c i : ℕ) (k : Chunk) (b : Block)
      → get_elem? t.chunks c ≡ some k
      → get_elem? k.free_blocks i ≡ some b
      → size ≤ b.size
      → Room t size (some (t, c, i))
  added :
      (t' : Tallocr)
      → length t.chunks < max_chunks
      → t' ≡ record t { chunks = t.chunks ++ fresh t size ∷ [] }
      → size ≤ fresh_size t size
      → fresh_size t size ≤ size_max / 2
      → Room t size (some (t', length t.chunks, 0))
  full : length t.chunks ≡ max_chunks → Room t size none

fresh_size-le :
    (t : Tallocr) (size : ℕ)
    → IsValid t
    → size ≤ size_max / 2
    → (size ≤ fresh_size t size) × (fresh_size t size ≤ size_max / 2)
unfolding fresh_size
fresh_size-le t size v h = ground arith

new_chunk-Room :
    (t : Tallocr) (size : ℕ)
    → IsValid t
    → size ≤ size_max / 2
    → Room t size (Option.map (λ t'. (t', length t.chunks, 0)) (new_chunk t size))
unfolding new_chunk
new_chunk-Room t size v h = elim (Bool-cases (leb max_chunks (length t.chunks))) [
  | inl e ↦ rw e (full (ground (arith, v.count)))
  | inr e ↦
      rw e (added _ (ground arith) refl (fresh_size-le t size v h).0 (fresh_size-le t size v h).1)
]

Holds-Room :
    (t : Tallocr) (size c i : ℕ) → Holds t.chunks size (some (c, i)) → Room t size (some (t, c, i))
Holds-Room t size c i (k, b, e, g, h) = old c i k b e g h

-- The search ends at a block that is large enough, or in a new chunk, or, with all 16 chunks in
-- use, nowhere.
pub place-Room :
    (t : Tallocr) (size : ℕ) → IsValid t → size ≤ size_max / 2 → Room t size (place t size)
unfolding place
place-Room t size v h = elim (Option-cases (fit_chunks size 0 t.chunks none)) [
  | inr ((c, i), e) ↦
      rw (e, place) (Holds-Room t size c i (rw e at (fit_chunks-Holds t.chunks size)))
  | inl e ↦ elim (Option-cases (last_blocks size 0 t.chunks 0 none)) [
    | inr ((c, i), q) ↦
        rw (e, q, place) (Holds-Room t size c i (rw q at (last_blocks-Holds t.chunks size)))
    | inl q ↦ rw (e, q, place) (new_chunk-Room t size v h)
  ]
]
