-- ===== src/Alloc/Blocks.antt =====
-- The free list of a chunk (code/source/ggml/src/ggml-alloc.c) as a set of bytes: its invariant, and
-- how often it covers a byte.
use gfx906_mixed_cuda_rocm_r.Base.{
  ℕ, zero, suc, ◌+◌, ◌-◌, ◌≤◌, ◌<◌, ◌≡◌, refl, ◌⊎◌, inr, ◌&&◌, some, List, [], ◌∷◌, arith, ltb, leb,
  if◌then◌else◌, get_elem?,
}
use gfx906_mixed_cuda_rocm_r.Alloc.{
  Block, size_mod, insert_sorted, carve_blocks, remove_block, add64, sub64,
}

-- In order of address, none empty, none touching the next, none past the address space, the first
-- at `lo` or behind it.
abbrev pub Sorted : ℕ → List Block → Type 0
Sorted lo [] = Unit {0}
Sorted lo (b ∷ bs) =
    (lo ≤ b.offset)
    × (0 < b.size)
    × (b.offset + b.size < size_mod)
    × Sorted (suc (b.offset + b.size)) bs

abbrev pub inside : ℕ → ℕ → ℕ → ℕ
inside offset size x = if leb offset x && ltb x (offset + size) then 1 else 0

-- The number of free blocks that hold byte `x`.
abbrev pub covers : ℕ → List Block → ℕ
covers x [] = 0
covers x (b ∷ bs) = inside b.offset b.size x + covers x bs

-- The bytes `[offset, offset + size)` meet no free block.
abbrev pub Apart : ℕ → ℕ → List Block → Type 0
Apart offset size [] = Unit {0}
Apart offset size (b ∷ bs) =
    ((b.offset + b.size ≤ offset) ⊎ (offset + size ≤ b.offset)) × Apart offset size bs

pub Sorted-mono : (lo hi : ℕ) (bs : List Block) → lo ≤ hi → Sorted hi bs → Sorted lo bs
Sorted-mono lo hi [] h s = tt
Sorted-mono lo hi (b ∷ bs) h s = (omega arith, s.1, s.2, s.3)

-- Below the first block nothing is free.
pub covers_below : (lo x : ℕ) (bs : List Block) → Sorted lo bs → x < lo → covers x bs ≡ 0
covers_below lo x [] s h = refl
covers_below lo x (b ∷ bs) s h = ground (arith, covers_below (suc (b.offset + b.size)) x bs s.3)

-- No byte is in two free blocks.
pub covers-le-one : (lo x : ℕ) (bs : List Block) → Sorted lo bs → covers x bs ≤ 1
covers-le-one lo x [] s = omega arith
covers-le-one lo x (b ∷ bs) s = ground (
  arith,
  covers-le-one (suc (b.offset + b.size)) x bs s.3,
  covers_below (suc (b.offset + b.size)) x bs s.3,
)

-- Every block of a sorted list lies in the address space and is not empty.
pub Sorted-block :
    (lo i : ℕ) (bs : List Block) (b : Block)
    → Sorted lo bs
    → get_elem? bs i ≡ some b
    → (lo ≤ b.offset) × (0 < b.size) × (b.offset + b.size < size_mod)
Sorted-block lo i [] b s e = ground arith
Sorted-block lo zero (c ∷ bs) b s e = ground arith
Sorted-block lo (suc i) (c ∷ bs) b s e =
    ground (arith, Sorted-block (suc (c.offset + c.size)) i bs b s.3 e)

pub covers-insert :
    (x : ℕ) (n : Block) (bs : List Block)
    → covers x (insert_sorted n bs) ≡ inside n.offset n.size x + covers x bs
unfolding insert_sorted
covers-insert x n [] = omega arith
covers-insert x n (b ∷ bs) = ground (arith, covers-insert x n bs)

pub carve_full :
    (b : Block) (size : ℕ)
    → b.offset + b.size < size_mod
    → size ≤ b.size
    → (sub64 b.size size ≡ b.size - size) × (add64 b.offset size ≡ b.offset + size)
carve_full b size h k = omega arith

-- Taking `size` bytes off the front of block `i` removes just these from the free bytes.
pub covers-carve_blocks :
    (lo x i : ℕ) (bs : List Block) (b : Block) (size : ℕ)
    → Sorted lo bs
    → get_elem? bs i ≡ some b
    → size ≤ b.size
    → covers x (carve_blocks bs i b size) + inside b.offset size x ≡ covers x bs
unfolding carve_blocks remove_block
covers-carve_blocks lo x i [] b size s e h = ground arith
covers-carve_blocks lo x zero (c ∷ bs) b size s e h = ground (arith, carve_full b size)
covers-carve_blocks lo x (suc i) (c ∷ bs) b size s e h =
    ground (arith, covers-carve_blocks (suc (c.offset + c.size)) x i bs b size s.3 e h)

-- It also keeps the list in order.
pub carve_blocks-Sorted :
    (lo i : ℕ) (bs : List Block) (b : Block) (size : ℕ)
    → Sorted lo bs
    → get_elem? bs i ≡ some b
    → size ≤ b.size
    → Sorted lo (carve_blocks bs i b size)
unfolding carve_blocks remove_block
carve_blocks-Sorted lo i [] b size s e h = ground arith
carve_blocks-Sorted lo zero (c ∷ bs) b size s e h =
    ground (arith, carve_full b size, Sorted-mono lo (suc (c.offset + c.size)) bs)
carve_blocks-Sorted lo (suc i) (c ∷ bs) b size s e h =
    ground (arith, carve_blocks-Sorted (suc (c.offset + c.size)) i bs b size s.3 e h)

-- Bytes below the first block meet none.
pub Sorted-Apart :
    (lo offset size : ℕ) (bs : List Block)
    → Sorted lo bs
    → offset + size ≤ lo
    → Apart offset size bs
Sorted-Apart lo offset size [] s h = tt
Sorted-Apart lo offset size (b ∷ bs) s h =
    (inr (omega arith), Sorted-Apart (suc (b.offset + b.size)) offset size bs s.3 (omega arith))

-- The bytes that were carved off meet no block that is left.
pub carve_blocks-Apart :
    (lo i : ℕ) (bs : List Block) (b : Block) (size : ℕ)
    → Sorted lo bs
    → get_elem? bs i ≡ some b
    → size ≤ b.size
    → Apart b.offset size (carve_blocks bs i b size)
unfolding carve_blocks remove_block
carve_blocks-Apart lo i [] b size s e h = ground arith
carve_blocks-Apart lo zero (c ∷ bs) b size s e h =
    ground (arith, carve_full b size, Sorted-Apart (suc (c.offset + c.size)) b.offset size bs s.3)
carve_blocks-Apart lo (suc i) (c ∷ bs) b size s e h = ground (
  arith,
  carve_blocks-Apart (suc (c.offset + c.size)) i bs b size s.3 e h,
  Sorted-block (suc (c.offset + c.size)) i bs b s.3 e,
)
