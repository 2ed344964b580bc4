-- ===== src/Alloc/Free.antt =====
-- `ggml_dyn_tallocr_free_bytes` on the allocator, and what it undoes
-- (code/source/ggml/src/ggml-alloc.c).
use gfx906_mixed_cuda_rocm_r.Base.{
  ℕ, suc, ◌+◌, ◌-◌, ◌/◌, ◌%◌, ◌≤◌, ◌<◌, ◌≡◌, refl, sym, ◌∙◌, ap, inl, inr, Option, none, some, List,
  [], ◌∷◌, arith, ◌==◌, get_elem?, set, length, Bool-cases, Option-cases, get_elem?-lt,
  get_elem?-some, get_elem?-set_self, get_elem?-set_ne, length-set, All-set, All-get_elem?,
}
use native.Mathlib.Nat.{mod-lt, add-mod-mod, mod-add-mod, mod_self}
use gfx906_mixed_cuda_rocm_r.Alloc.{
  Block, Chunk, Tallocr, Address, alloc_bytes, alloc, max_size, size_max, size_mod, max_free_blocks,
  free_blocks_bytes, free_bytes, aligned_offset, add64,
}
use gfx906_mixed_cuda_rocm_r.Alloc.Blocks.{Sorted, Apart, covers, inside, covers_below}
use gfx906_mixed_cuda_rocm_r.Alloc.Release.{free_blocks_bytes_lem}
use gfx906_mixed_cuda_rocm_r.Alloc.Place.{IsValid}
use gfx906_mixed_cuda_rocm_r.Alloc.Carve.{free_at, taken, Allocated, alloc_bytes_lem}

-- The aligned size: a multiple of the alignment, not below the size and less than one alignment
-- above it, where that does not pass the address space.
pub aligned_offset_lem :
    (size alignment : ℕ)
    → 0 < alignment
    → size + alignment ≤ size_mod
    → (size ≤ aligned_offset size alignment)
      × (aligned_offset size alignment < size + alignment)
      × (aligned_offset size alignment % alignment ≡ 0)
unfolding aligned_offset
aligned_offset_lem size alignment pos h =
    (omega (arith, whole, pad), omega (arith, whole, pad), rw whole multiple)
  where
    pad : (alignment - size % alignment) % alignment < alignment
    pad = mod-lt _ pos

    whole :
        add64 size ((alignment - size % alignment) % alignment)
        ≡ size + (alignment - size % alignment) % alignment
    whole = omega (arith, pad)

    multiple : (size + (alignment - size % alignment) % alignment) % alignment ≡ 0
    multiple =
        add-mod-mod size _ alignment
        ∙ sym (mod-add-mod size alignment _)
        ∙ ap (λ k. k % alignment) (omega (arith, mod-lt size pos))
        ∙ mod_self alignment

-- Two free lists in order that cover the same bytes are one list.
pub Sorted-ext :
    (lo : ℕ) (xs ys : List Block)
    → Sorted lo xs
    → Sorted lo ys
    → ((x : ℕ) → covers x xs ≡ covers x ys)
    → xs ≡ ys
Sorted-ext lo [] [] s t h = refl
Sorted-ext lo [] (b ∷ ys) s t h = absurd (ground (arith, h b.offset))
Sorted-ext lo (a ∷ xs) [] s t h = absurd (ground (arith, h a.offset))
Sorted-ext lo (a ∷ xs) (b ∷ ys) s t h = ground (
  arith,
  same_offset,
  same_size,
  Sorted-ext (suc (a.offset + a.size)) xs ys s.3 (rw (same_offset, same_size) t.3)
      λ x. omega (arith, h x, same_inside x),
)
  where
    xs_below : (x : ℕ) → x ≤ a.offset + a.size → covers x xs ≡ 0
    xs_below x l = covers_below (suc (a.offset + a.size)) x xs s.3 (omega arith)

    ys_below : (x : ℕ) → x ≤ b.offset + b.size → covers x ys ≡ 0
    ys_below x l = covers_below (suc (b.offset + b.size)) x ys t.3 (omega arith)

    same_offset : a.offset ≡ b.offset
    same_offset = ground (
      arith,
      h a.offset,
      h b.offset,
      xs_below a.offset,
      xs_below b.offset,
      ys_below a.offset,
      ys_below b.offset,
    )

    same_size : a.size ≡ b.size
    same_size = ground (
      arith,
      same_offset,
      h (a.offset + a.size),
      h (b.offset + b.size),
      xs_below (a.offset + a.size),
      xs_below (b.offset + b.size),
      ys_below (a.offset + a.size),
      ys_below (b.offset + b.size),
    )

    same_inside : (x : ℕ) → inside a.offset a.size x ≡ inside b.offset b.size x
    same_inside x = rw (same_offset, same_size)

-- The allocator after bytes came back to chunk `a.chunk`.
pub record Freed (t t' : Tallocr) (size : ℕ) (a : Address) : Type 0 where
  pub valid : IsValid t'
  pub same : length t'.chunks ≡ length t.chunks
  pub bytes : (c x : ℕ) → free_at t' c x ≡ free_at t c x + taken a size c x
  pub kept : (c : ℕ) → max_size t' c ≡ max_size t c

replaced-Freed :
    (t : Tallocr) (c : ℕ) (a : Address) (size : ℕ) (k : Chunk) (new : List Block)
    → IsValid t
    → get_elem? t.chunks c ≡ some k
    → a.chunk ≡ c
    → Sorted 0 new
    → ((x : ℕ) → covers x new ≡ inside a.offset size x + covers x k.free_blocks)
    → Freed t (record t { chunks = set t.chunks c (record k { free_blocks = new }) }) size a
unfolding max_size
replaced-Freed t c a size k new v e same s h = record {
  valid = record {
    sorted = All-set (λ (k : Chunk). Sorted 0 k.free_blocks) t.chunks c _ v.sorted s;
    small = v.small;
    count = omega (arith, v.count, length-set t.chunks c k');
  };
  same = length-set t.chunks c k';
  bytes = λ d x. elim (Bool-cases (d == c)) [
    | inl q ↦ let q' : d ≡ c = ground arith in rw (q', found, e, same) (ground (arith, h x))
    | inr n ↦ rw (same, n, get_elem?-set_ne t.chunks c d k' (λ q. ground arith)) (omega arith)
  ];
  kept = λ d. elim (Bool-cases (d == c)) [
    | inl q ↦ let q' : d ≡ c = ground arith in rw (max_size, q', found, e)
    | inr n ↦ rw (max_size, get_elem?-set_ne t.chunks c d k' (λ q. ground arith))
  ];
}
  where
    k' : Chunk
    k' = record k { free_blocks = new }

    found : get_elem? (set t.chunks c (record k { free_blocks = new })) c ≡ some k'
    found = get_elem?-set_self t.chunks c _ (get_elem?-lt t.chunks c k e)

-- Giving back bytes of a chunk that are not free, while its array of free blocks has room: it
-- succeeds, the allocator stays valid, the bytes are free again, each once, and no other byte
-- changes, nor does the recorded size of any chunk. The size is the one given, rounded up.
pub free_bytes_lem :
    (t : Tallocr) (a : Address) (size : ℕ) (k : Chunk)
    → IsValid t
    → get_elem? t.chunks a.chunk ≡ some k
    → length k.free_blocks < max_free_blocks
    → 0 < aligned_offset size t.alignment
    → a.offset + aligned_offset size t.alignment < size_mod
    → Apart a.offset (aligned_offset size t.alignment) k.free_blocks
    → (t' : Tallocr) × (free_bytes t a size ≡ some t')
      × Freed t t' (aligned_offset size t.alignment) a
unfolding free_bytes
free_bytes_lem t a size k v e room pos fits apart = (t', rw (e, free_bytes, made.1), freed)
  where
    padded : ℕ
    padded = aligned_offset size t.alignment

    made :
        (new : List Block) × (free_blocks_bytes k.free_blocks a.offset
            (aligned_offset size t.alignment)
          ≡ some new)
        × Sorted 0 new
        × ((x : ℕ)
            → covers x new
              ≡ inside a.offset (aligned_offset size t.alignment) x + covers x k.free_blocks)
    made =
        free_blocks_bytes_lem k.free_blocks a.offset _ room pos fits
          (All-get_elem? (λ (k : Chunk). Sorted 0 k.free_blocks) t.chunks a.chunk k v.sorted e)
          apart

    t' : Tallocr
    t' = record t { chunks = set t.chunks a.chunk (record k { free_blocks = made.0 }) }

    found : get_elem? t'.chunks a.chunk ≡ some (record k { free_blocks = made.0 })
    found = get_elem?-set_self t.chunks a.chunk _ (get_elem?-lt t.chunks a.chunk k e)

    freed : Freed t t' (aligned_offset size t.alignment) a
    freed = replaced-Freed t a.chunk a _ k made.0 v e refl made.2 made.3

-- The free list of chunk `c`.
abbrev chunk_blocks : Option Chunk → List Block
chunk_blocks none = []
chunk_blocks (some k) = k.free_blocks

abbrev pub blocks_at : Tallocr → ℕ → List Block
blocks_at t c = chunk_blocks (get_elem? t.chunks c)

blocks_at-Sorted : (t : Tallocr) (c : ℕ) → IsValid t → Sorted 0 (blocks_at t c)
blocks_at-Sorted t c v = elim (Option-cases (get_elem? t.chunks c)) [
  | inl e ↦ rw e tt
  | inr (k, e) ↦
      rw e (All-get_elem? (λ (k : Chunk). Sorted 0 k.free_blocks) t.chunks c k v.sorted e)
]

covers-blocks_at : (t : Tallocr) (c x : ℕ) → covers x (blocks_at t c) ≡ free_at t c x
covers-blocks_at t c x = elim (Option-cases (get_elem? t.chunks c)) [
  | inl e ↦ rw e
  | inr (k, e) ↦ rw e
]

allocated :
    (t t' : Tallocr) (size : ℕ) (a : Address)
    → IsValid t
    → 0 < size
    → size ≤ size_max / 2
    → alloc_bytes t size ≡ some (a, t')
    → Allocated t t' size a
allocated t t' size a v pos h e = elim (alloc_bytes_lem t size v pos h) [
  | inl (n, _) ↦ absurd (ground arith)
  | inr (a1, t1, q, w) ↦
      let same_a : a1 ≡ a = ground arith in
      let same_t : t1 ≡ t' = ground arith in rw (← same_a, ← same_t) w
]

-- In a valid allocator, freeing what an allocation of a size whose rounded value is at least one
-- and at most half the address space has just returned succeeds, if the array of free blocks of
-- that chunk has room, and puts every chunk that was there before back to the very free list that
-- it had; the allocator is valid again.
pub free_bytes-alloc :
    (t t' : Tallocr) (size : ℕ) (a : Address)
    → IsValid t
    → 0 < aligned_offset size t.alignment
    → aligned_offset size t.alignment ≤ size_max / 2
    → alloc t size ≡ some (a, t')
    → length (blocks_at t' a.chunk) < max_free_blocks
    → (t'' : Tallocr) × (free_bytes t' a size ≡ some t'')
      × IsValid t''
      × ((c : ℕ) → c < length t.chunks → blocks_at t'' c ≡ blocks_at t c)
unfolding alloc
free_bytes-alloc t t' size a v pos h e room = (done.0, done.1, done.2.valid, restored)
  where
    padded : ℕ
    padded = aligned_offset size t.alignment

    w : Allocated t t' (aligned_offset size t.alignment) a
    w = allocated t t' (aligned_offset size t.alignment) a v pos h e

    same : aligned_offset size t'.alignment ≡ aligned_offset size t.alignment
    same = ap (aligned_offset size) w.aligned

    there : (k : Chunk) × (get_elem? t'.chunks a.chunk ≡ some k)
    there = get_elem?-some t'.chunks a.chunk w.present

    done :
        (t'' : Tallocr) × (free_bytes t' a size ≡ some t'')
        × Freed t' t'' (aligned_offset size t'.alignment) a
    done =
        free_bytes_lem t' a size there.0 w.valid there.1 (rw there.1 at room) (rw same pos)
          (rw same w.in_range) (rw same (rw there.1 at w.apart))

    restored : (c : ℕ) → c < length t.chunks → blocks_at done.0 c ≡ blocks_at t c
    restored c l =
        Sorted-ext 0 _ _ (blocks_at-Sorted done.0 c done.2.valid) (blocks_at-Sorted t c v) λ x.
          covers-blocks_at done.0 c x
          ∙ done.2.bytes c x
          ∙ rw same (w.bytes c x l)
          ∙ sym (covers-blocks_at t c x)
