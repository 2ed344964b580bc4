-- ===== src/Alloc.antt =====
-- code/source/ggml/src/ggml-alloc.c, the dynamic tensor allocator: `ggml_dyn_tallocr` and its
-- chunks. A chunk's array `free_blocks[0 .. n_free_blocks)` is a list, `size_t` arithmetic wraps at
-- 2 ^ 64, and a `GGML_ASSERT` or `GGML_ABORT` that fires is `none`. `max_avail` only feeds the
-- message of the abort and is left out, as is the code under GGML_ALLOCATOR_DEBUG.
pub mod Blocks
pub mod Release
pub mod Search
pub mod BestFit
pub mod Place
pub mod Carve
pub mod Free
mod Tests
use gfx906_mixed_cuda_rocm_r.Base.{
  ℕ, zero, suc, ◌+◌, ◌-◌, ◌%◌, ◌^◌, ◌/◌, max, min, Bool, true, false, ◌&&◌, ◌||◌, Option, none,
  some, List, [], ◌∷◌, ◌++◌, ltb, leb, ◌==◌, if◌then◌else◌, length, set, erase_idx, get_elem?,
}
use mathlib.Core.Option

abbrev pub size_mod : ℕ
size_mod = 2 ^ 64

-- `size_t` addition and subtraction.
abbrev pub add64 : ℕ → ℕ → ℕ
add64 a b = (a + b) % size_mod

abbrev pub sub64 : ℕ → ℕ → ℕ
sub64 a b = (a + size_mod - b) % size_mod

abbrev pub size_max : ℕ
size_max = size_mod - 1

abbrev pub max_free_blocks : ℕ
max_free_blocks = 256

abbrev pub max_chunks : ℕ
max_chunks = 16

-- `aligned_offset(NULL, offset, alignment)`.
pub aligned_offset : ℕ → ℕ → ℕ
aligned_offset offset alignment = add64 offset ((alignment - offset % alignment) % alignment)

-- `struct free_block`.
pub record Block : Type 0 where
  pub offset : ℕ
  pub size : ℕ

-- `struct tallocr_chunk`.
pub record Chunk : Type 0 where
  pub free_blocks : List Block
  pub max_size : ℕ

-- `struct ggml_dyn_tallocr`.
pub record Tallocr : Type 0 where
  pub alignment : ℕ
  pub max_chunk_size : ℕ
  pub chunks : List Chunk

-- `struct buffer_address`.
pub record Address : Type 0 where
  pub chunk : ℕ
  pub offset : ℕ

-- The loop that finds `insert_pos`, and the shift that makes room there.
pub insert_sorted : Block → List Block → List Block
insert_sorted n [] = n ∷ []
insert_sorted n (b ∷ bs) = if ltb b.offset n.offset then b ∷ insert_sorted n bs else n ∷ b ∷ bs

pub insert_block : List Block → ℕ → ℕ → Option (List Block)
insert_block bs offset size =
    if ltb (length bs) max_free_blocks
    then some (insert_sorted (record { offset = offset; size = size }) bs)
    else none

-- Moving the entries after `idx` down by one.
pub remove_block : List Block → ℕ → List Block
remove_block bs idx = erase_idx bs idx

-- The new chunk's one free block: all of it.
pub fresh_size : Tallocr → ℕ → ℕ
fresh_size t min_size =
    if length t.chunks == max_chunks - 1 then size_max / 2 else max min_size t.max_chunk_size

-- `none` is the -1 of the code; the index of the new chunk is the old number of chunks.
pub new_chunk : Tallocr → ℕ → Option Tallocr
unfolding fresh_size
new_chunk t min_size =
    if leb max_chunks (length t.chunks)
    then none
    else some (record t {
      chunks =
          t.chunks
          ++ record {
            free_blocks = record { offset = 0; size = fresh_size t min_size } ∷ [];
            max_size = 0;
          }
            ∷ [];
    })

-- A chunk and a block in it; `none` is the -1 of `best_fit_block`.
abbrev pub Slot : Type 0
Slot = Option (ℕ × ℕ)

-- The loop over a chunk's blocks but the last, from block `i` on.
pub fit_blocks : ℕ → ℕ → ℕ → List Block → ℕ → Slot → Slot
fit_blocks size c i [] best acc = acc
fit_blocks size c i (b ∷ []) best acc = acc
fit_blocks size c i (b ∷ b' ∷ bs) best acc =
    let hit : Bool = leb size b.size && leb b.size best in
    fit_blocks size c (suc i) (b' ∷ bs) (if hit then b.size else best)
      (if hit then some (c, i) else acc)

-- The loop over the chunks, from chunk `c` on. `best_fit_size` starts afresh in each.
pub fit_chunks : ℕ → ℕ → List Chunk → Slot → Slot
unfolding fit_blocks
fit_chunks size c [] acc = acc
fit_chunks size c (k ∷ ks) acc =
    fit_chunks size (suc c) ks (fit_blocks size c 0 k.free_blocks size_max acc)

-- The `int64_t` of `max_size - offset - size`, as its distance from INT64_MIN: the order of these
-- is that of the signed numbers, and those from `zero64` on stand for 0 and above.
abbrev pub zero64 : ℕ
zero64 = 2 ^ 63

pub reuse_factor : ℕ → ℕ → ℕ → ℕ
reuse_factor max_size offset size = add64 (sub64 (sub64 max_size offset) size) zero64

abbrev pub last_block : ℕ → List Block → Option (ℕ × Block)
last_block i [] = none
last_block i (b ∷ []) = some (i, b)
last_block i (b ∷ b' ∷ bs) = last_block (suc i) (b' ∷ bs)

pub better : ℕ → ℕ → Bool
better best_reuse reuse =
    (ltb best_reuse zero64 && ltb best_reuse reuse) || (leb zero64 reuse && ltb reuse best_reuse)

-- The loop over the chunks' last blocks, from chunk `c` on.
pub last_blocks : ℕ → ℕ → List Chunk → ℕ → Slot → Slot
unfolding better reuse_factor
last_blocks size c [] best acc = acc
last_blocks size c (k ∷ ks) best acc = elim (last_block 0 k.free_blocks) [
  | none ↦ last_blocks size (suc c) ks best acc
  | some (i, b) ↦
      let reuse : ℕ = reuse_factor k.max_size b.offset size in
      let hit : Bool = leb size b.size && better best reuse in
      last_blocks size (suc c) ks (if hit then reuse else best) (if hit then some (c, i) else acc)
]

-- Where the code finds room: a block among the inner ones, else a last block, else a new chunk.
pub place : Tallocr → ℕ → Option (Tallocr × ℕ × ℕ)
unfolding fit_chunks last_blocks new_chunk
place t size = elim (fit_chunks size 0 t.chunks none) [
  | some (c, i) ↦ some (t, c, i)
  | none ↦ elim (last_blocks size 0 t.chunks 0 none) [
    | some (c, i) ↦ some (t, c, i)
    | none ↦ Option.map (λ t'. (t', length t.chunks, 0)) (new_chunk t size)
  ]
]

-- Taking `size` bytes off the front of block `i`; an empty block goes.
pub carve_blocks : List Block → ℕ → Block → ℕ → List Block
unfolding remove_block
carve_blocks bs i b size =
    if sub64 b.size size == 0
    then remove_block bs i
    else set bs i (record { offset = add64 b.offset size; size = sub64 b.size size })

pub carve_chunk : Chunk → ℕ → Block → ℕ → Chunk
unfolding carve_blocks
carve_chunk k i b size = record {
  free_blocks = carve_blocks k.free_blocks i b size;
  max_size = max k.max_size (add64 b.offset size);
}

pub carve : Tallocr → ℕ → ℕ → ℕ → Option (Address × Tallocr)
unfolding carve_chunk
carve t c i size = elim (get_elem? t.chunks c) [
  | none ↦ none
  | some k ↦ elim (get_elem? k.free_blocks i) [
    | none ↦ none
    | some b ↦ some (
      record { chunk = c; offset = b.offset },
      record t { chunks = set t.chunks c (carve_chunk k i b size) },
    )
  ]
]

-- The code after its first line, which rounds the size up.
pub alloc_bytes : Tallocr → ℕ → Option (Address × Tallocr)
unfolding place carve
alloc_bytes t size = elim (place t size) [ none ↦ none | some (t', c, i) ↦ carve t' c i size ]

pub alloc : Tallocr → ℕ → Option (Address × Tallocr)
unfolding alloc_bytes aligned_offset
alloc t size = alloc_bytes t (aligned_offset size t.alignment)

-- A block that grew at its end, with the block behind it if they now touch.
pub merge_next : Block → List Block → List Block
merge_next b [] = b ∷ []
merge_next b (n ∷ bs) =
    if add64 b.offset b.size == n.offset
    then record b { size = add64 b.size n.size } ∷ bs
    else b ∷ n ∷ bs

abbrev pub with_prev : Option Block → List Block → List Block
with_prev none bs = bs
with_prev (some p) bs = p ∷ bs

-- A block that grew at its beginning, with the block before it if they now touch.
pub merge_prev : Option Block → Block → List Block → List Block
merge_prev none b bs = b ∷ bs
merge_prev (some p) b bs =
    if add64 p.offset p.size == b.offset
    then record p { size = add64 p.size b.size } ∷ bs
    else p ∷ b ∷ bs

-- The loop of `ggml_dyn_tallocr_free_bytes`, behind block `prev`: `none` when no block touches the
-- freed bytes, and otherwise the blocks from `prev` on.
pub merge_blocks : ℕ → ℕ → Option Block → List Block → Option (List Block)
unfolding merge_next merge_prev
merge_blocks addr size prev [] = none
merge_blocks addr size prev (b ∷ bs) =
    let rest : Option (List Block) =
      Option.map (with_prev prev) (merge_blocks addr size (some b) bs) in
    if add64 b.offset b.size == addr
    then some (with_prev prev (merge_next (record b { size = add64 b.size size }) bs))
    else if add64 addr size == b.offset
    then some (merge_prev prev (record { offset = addr; size = add64 b.size size }) bs)
    else rest

pub free_blocks_bytes : List Block → ℕ → ℕ → Option (List Block)
unfolding merge_blocks insert_block insert_sorted
free_blocks_bytes bs addr size = elim (merge_blocks addr size none bs) [
  | some bs' ↦ some bs'
  | none ↦ insert_block bs addr size
]

-- A chunk that is not there is a read out of the array, `none`.
pub free_bytes : Tallocr → Address → ℕ → Option Tallocr
unfolding free_blocks_bytes aligned_offset
free_bytes t addr size = elim (get_elem? t.chunks addr.chunk) [
  | none ↦ none
  | some k ↦
      Option.map
        (λ bs. record t { chunks = set t.chunks addr.chunk (record k { free_blocks = bs }) })
        (free_blocks_bytes k.free_blocks addr.offset (aligned_offset size t.alignment))
]

pub reset : Tallocr → Tallocr
reset t = record t { chunks = [] }

pub new : ℕ → ℕ → Tallocr
unfolding reset
new alignment max_buffer_size = reset (record {
  alignment = alignment;
  max_chunk_size = min max_buffer_size (size_max / 2);
  chunks = [];
})

pub max_size : Tallocr → ℕ → ℕ
max_size t chunk = elim (get_elem? t.chunks chunk) [ none ↦ 0 | some k ↦ k.max_size ]
