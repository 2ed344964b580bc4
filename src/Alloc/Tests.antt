-- ===== src/Alloc/Tests.antt =====
-- Runs of the allocator, and its theorems at them.
use gfx906_mixed_cuda_rocm_r.Base.{
  ℕ, ◌+◌, ◌<◌, ◌≡◌, refl, ◌⊎◌, none, some, List, [], ◌∷◌, arith, length,
}
use mathlib.Core.Option
use gfx906_mixed_cuda_rocm_r.Alloc.{
  Block, Chunk, Tallocr, Address, new, alloc, alloc_bytes, free_bytes, fit_chunks, aligned_offset,
  free_blocks_bytes, better, max_chunks,
}
use gfx906_mixed_cuda_rocm_r.Alloc.Blocks.{Sorted, covers, inside}
use gfx906_mixed_cuda_rocm_r.Alloc.Release.{free_blocks_bytes_lem}
use gfx906_mixed_cuda_rocm_r.Alloc.BestFit.{fit_chunks_lem, NoFit, Chosen}
use gfx906_mixed_cuda_rocm_r.Alloc.Place.{IsValid}
use gfx906_mixed_cuda_rocm_r.Alloc.Carve.{Allocated, alloc_bytes_lem}
use gfx906_mixed_cuda_rocm_r.Alloc.Free.{Freed, free_bytes_lem, free_bytes-alloc, blocks_at}

-- One chunk of 1024 bytes with two holes, at 0 and at 256, and its free end from 512 on.
abbrev holes : List Block
holes =
    record { offset = 0; size = 128 }
    ∷ record { offset = 256; size = 64 }
    ∷ record { offset = 512; size = 512 }
    ∷ []

abbrev chunk : Chunk
chunk = record { free_blocks = holes; max_size = 512 }

abbrev busy : Tallocr
busy = record { alignment = 32; max_chunk_size = 1024; chunks = chunk ∷ [] }

abbrev next_block : Address
next_block = record { chunk = 0; offset = 256 }

busy-IsValid : IsValid busy
busy-IsValid = record { sorted = (omega arith, tt); small = omega arith; count = omega arith }

-- The smaller of the two holes serves a request of 50 bytes.
abbrev busy_after : Tallocr
busy_after = record busy {
  chunks =
      record chunk {
        free_blocks = record { offset = 0; size = 128 } ∷ record { offset = 512; size = 512 } ∷ [];
      }
      ∷ [];
}

alloc_runs : alloc busy 50 ≡ some (next_block, busy_after)
unfolding alloc better
alloc_runs = refl

free_runs : free_bytes busy_after next_block 50 ≡ some busy
unfolding free_bytes
free_runs = refl

-- A first request opens a chunk.
first_chunk :
    Option.map (λ r. r.0) (alloc (new 32 1024) 100) ≡ some (record { chunk = 0; offset = 0 })
unfolding alloc new
first_chunk = refl

fit_chunks_lem_example :
    ((fit_chunks 64 0 (chunk ∷ []) none ≡ none) × (NoFit 64 holes × Unit {0}))
    ⊎ ((c : ℕ) × (i : ℕ) × (fit_chunks 64 0 (chunk ∷ []) none ≡ some (c, i))
        × Chosen (chunk ∷ []) 64 c i)
fit_chunks_lem_example = fit_chunks_lem (chunk ∷ []) 64 (omega arith)

alloc_bytes_lem_example :
    ((alloc_bytes busy 64 ≡ none) × (length busy.chunks ≡ max_chunks))
    ⊎ ((a : Address) × (t' : Tallocr) × (alloc_bytes busy 64 ≡ some (a, t'))
        × Allocated busy t' 64 a)
alloc_bytes_lem_example = alloc_bytes_lem busy 64 busy-IsValid (omega arith) (omega arith)

free_blocks_bytes_lem_example :
    (bs : List Block) × (free_blocks_bytes holes 128 128 ≡ some bs)
    × Sorted 0 bs
    × ((x : ℕ) → covers x bs ≡ inside 128 128 x + covers x holes)
free_blocks_bytes_lem_example =
    free_blocks_bytes_lem holes 128 128 (omega arith) (omega arith) (omega arith) (omega arith)
      (omega arith)

free_bytes_lem_example :
    (t' : Tallocr) × (free_bytes busy (record { chunk = 0; offset = 128 }) 128 ≡ some t')
    × Freed busy t' (aligned_offset 128 32) (record { chunk = 0; offset = 128 })
unfolding aligned_offset
free_bytes_lem_example =
    free_bytes_lem busy (record { chunk = 0; offset = 128 }) 128 chunk busy-IsValid refl
      (omega arith) (omega arith) (omega arith) (omega arith)

free_bytes-alloc_example :
    (t'' : Tallocr) × (free_bytes busy_after next_block 50 ≡ some t'')
    × IsValid t''
    × ((c : ℕ) → c < 1 → blocks_at t'' c ≡ blocks_at busy c)
unfolding aligned_offset
free_bytes-alloc_example =
    free_bytes-alloc busy busy_after 50 next_block busy-IsValid (omega arith) (omega arith)
      alloc_runs (omega arith)
