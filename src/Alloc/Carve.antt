-- ===== src/Alloc/Carve.antt =====
-- `ggml_dyn_tallocr_alloc` and `ggml_dyn_tallocr_free_bytes` as a whole
-- (code/source/ggml/src/ggml-alloc.c): what they do to the free bytes of every chunk.
use gfx906_mixed_cuda_rocm_r.Base.{
  ℕ, ◌+◌, ◌/◌, ◌≤◌, ◌<◌, ◌≡◌, refl, ◌⊎◌, inl, inr, Option, none, some, [], ◌∷◌, ◌++◌, arith, ltb,
  ◌==◌, if◌then◌else◌, get_elem?, set, length, Bool-cases, get_elem?-length, get_elem?-append,
  get_elem?-lt, get_elem?_past, get_elem?-set_self, get_elem?-set_ne, length-set, length-append,
  All-append, All-set, All-get_elem?,
}
use gfx906_mixed_cuda_rocm_r.Alloc.{
  Block, Chunk, Tallocr, Address, place, carve, carve_chunk, alloc_bytes, max_size, fresh_size,
  size_max, size_mod, max_chunks, add64,
}
use gfx906_mixed_cuda_rocm_r.Alloc.Blocks.{
  Sorted, Apart, covers, inside, Sorted-block, covers-carve_blocks, carve_blocks-Sorted,
  carve_blocks-Apart,
}
use gfx906_mixed_cuda_rocm_r.Alloc.Place.{IsValid, Room, old, added, full, fresh, place-Room}

-- How often byte `x` of chunk `c` is free; never, in a chunk that is not there.
abbrev pub chunk_covers : ℕ → Option Chunk → ℕ
chunk_covers x none = 0
chunk_covers x (some k) = covers x k.free_blocks

abbrev pub free_at : Tallocr → ℕ → ℕ → ℕ
free_at t c x = chunk_covers x (get_elem? t.chunks c)

-- The bytes `[a.offset, a.offset + size)` of the chunk of `a`, for byte `x` of chunk `c`.
abbrev pub taken : Address → ℕ → ℕ → ℕ → ℕ
taken a size c x = if c == a.chunk then inside a.offset size x else 0

-- None of the bytes is free.
abbrev pub ChunkApart : ℕ → ℕ → Option Chunk → Type 0
ChunkApart offset size none = Unit {0}
ChunkApart offset size (some k) = Apart offset size k.free_blocks

-- `t'` is `t` after an allocation that returned `a`.
pub record Allocated (t t' : Tallocr) (size : ℕ) (a : Address) : Type 0 where
  pub valid : IsValid t'
  pub aligned : t'.alignment ≡ t.alignment
  pub present : a.chunk < length t'.chunks
  pub in_range : a.offset + size < size_mod
  pub grown : length t.chunks ≤ length t'.chunks
  -- In a chunk that was there, the free bytes are those from before, less those returned.
  pub bytes : (c x : ℕ) → c < length t.chunks → free_at t' c x + taken a size c x ≡ free_at t c x
  pub apart : ChunkApart a.offset size (get_elem? t'.chunks a.chunk)
  pub high : a.offset + size ≤ max_size t' a.chunk
  pub kept : (c : ℕ) → max_size t c ≤ max_size t' c

module _ (t : Tallocr) (size c i : ℕ) (k : Chunk) (b : Block) (v : IsValid t)
    (at_c : get_elem? t.chunks c ≡ some k) (at_i : get_elem? k.free_blocks i ≡ some b)
    (fits : size ≤ b.size) where
  abbrev here : Address
  here = record { chunk = c; offset = b.offset }

  abbrev after : Tallocr
  after = record t { chunks = set t.chunks c (carve_chunk k i b size) }

  carve_lem : carve t c i size ≡ some (here, after)
  unfolding carve
  carve_lem = rw (at_c, carve, at_i)

  k-Sorted : Sorted 0 k.free_blocks
  k-Sorted = All-get_elem? (λ (k : Chunk). Sorted 0 k.free_blocks) t.chunks c k v.sorted at_c

  found_at : get_elem? after.chunks c ≡ some (carve_chunk k i b size)
  found_at = get_elem?-set_self t.chunks c _ (get_elem?-lt t.chunks c k at_c)

  high_water : add64 b.offset size ≡ b.offset + size
  high_water = omega (arith, Sorted-block 0 i k.free_blocks b k-Sorted at_i)

  after-IsValid : IsValid after
  unfolding carve_chunk
  after-IsValid = record {
    sorted =
        All-set (λ (k : Chunk). Sorted 0 k.free_blocks) t.chunks c _ v.sorted
          (carve_blocks-Sorted 0 i k.free_blocks b size k-Sorted at_i fits);
    small = v.small;
    count = omega (arith, v.count, length-set t.chunks c (carve_chunk k i b size));
  }

  after_bytes : (d x : ℕ) → free_at after d x + taken here size d x ≡ free_at t d x
  unfolding carve_chunk
  after_bytes d x = elim (Bool-cases (d == c)) [
    | inl e ↦
        let e' : d ≡ c = ground arith in
        rw (e', found_at, at_c)
          (ground (arith, covers-carve_blocks 0 x i k.free_blocks b size k-Sorted at_i fits))
    | inr n ↦
        rw (n, get_elem?-set_ne t.chunks c d (carve_chunk k i b size) (λ e. ground arith))
          (omega arith)
  ]

  after_kept : (d : ℕ) → max_size t d ≤ max_size after d
  unfolding carve_chunk max_size
  after_kept d = elim (Bool-cases (d == c)) [
    | inl e ↦ let e' : d ≡ c = ground arith in rw (max_size, e', found_at, at_c) (omega arith)
    | inr n ↦
        rw (max_size, get_elem?-set_ne t.chunks c d (carve_chunk k i b size) (λ e. ground arith))
          (omega arith)
  ]

  after-Allocated : Allocated t after size here
  unfolding carve_chunk max_size
  after-Allocated = record {
    valid = after-IsValid;
    aligned = refl;
    present = get_elem?-lt after.chunks c _ found_at;
    in_range = omega (arith, Sorted-block 0 i k.free_blocks b k-Sorted at_i);
    grown = omega (arith, length-set t.chunks c (carve_chunk k i b size));
    bytes = λ d x _. after_bytes d x;
    apart = rw found_at (carve_blocks-Apart 0 i k.free_blocks b size k-Sorted at_i fits);
    high = rw (max_size, found_at) (omega (arith, high_water));
    kept = after_kept;
  }

-- With the chunk that `new_chunk` adds.
abbrev grown_by : Tallocr → ℕ → Tallocr
grown_by t size = record t { chunks = t.chunks ++ fresh t size ∷ [] }

grown_kept : (t : Tallocr) (size d : ℕ) → max_size t d ≤ max_size (grown_by t size) d
unfolding max_size
grown_kept t size d = elim (Bool-cases (ltb d (length t.chunks))) [
  | inl e ↦
      rw (max_size, get_elem?-append t.chunks (fresh t size ∷ []) d (ground arith)) (omega arith)
  | inr n ↦ rw (max_size, get_elem?_past t.chunks d (ground arith)) (omega arith)
]

module _ (t : Tallocr) (size : ℕ) (v : IsValid t) (room : length t.chunks < max_chunks) where
  grown_by-IsValid :
      0 < fresh_size t size → fresh_size t size < size_mod → IsValid (grown_by t size)
  grown_by-IsValid pos fits = record {
    sorted =
        All-append (λ (k : Chunk). Sorted 0 k.free_blocks) t.chunks (fresh t size ∷ []) v.sorted
          ((omega arith, pos, omega arith, tt), tt);
    small = v.small;
    count = omega (arith, length-append t.chunks (fresh t size ∷ []));
  }

-- An allocation in the chunk that was added.
Allocated-grown :
    (t t' : Tallocr) (size : ℕ) (a : Address)
    → length t.chunks < max_chunks
    → Allocated (grown_by t size) t' size a
    → Allocated t t' size a
Allocated-grown t t' size a room w = record {
  valid = w.valid;
  aligned = w.aligned;
  present = w.present;
  in_range = w.in_range;
  grown = omega (arith, w.grown, length-append t.chunks (fresh t size ∷ []));
  bytes = λ c x h.
      rw (← get_elem?-append t.chunks (fresh t size ∷ []) c h)
        (w.bytes c x (omega (arith, length-append t.chunks (fresh t size ∷ []))));
  apart = w.apart;
  high = w.high;
  kept = λ c. omega (arith, w.kept c, grown_kept t size c);
}

-- In a valid allocator, a request of at least one byte and at most half the address space (its size
-- already rounded up) fails only with all 16 chunks in use. Otherwise it returns bytes that were
-- free before and are not free after, leaves every other byte as it was, keeps the allocator valid,
-- and the recorded size of the chunk reaches at least to the end of the bytes.
pub alloc_bytes_lem :
    (t : Tallocr) (size : ℕ)
    → IsValid t
    → 0 < size
    → size ≤ size_max / 2
    → ((alloc_bytes t size ≡ none) × (length t.chunks ≡ max_chunks))
      ⊎ ((a : Address) × (t' : Tallocr) × (alloc_bytes t size ≡ some (a, t'))
          × Allocated t t' size a)
unfolding alloc_bytes
alloc_bytes_lem t size v pos h = from_room (place t size) (place-Room t size v h) refl
  where
    from_room :
        (r : Option (Tallocr × ℕ × ℕ))
        → Room t size r
        → place t size ≡ r
        → ((alloc_bytes t size ≡ none) × (length t.chunks ≡ max_chunks))
          ⊎ ((a : Address) × (t' : Tallocr) × (alloc_bytes t size ≡ some (a, t'))
              × Allocated t t' size a)
    from_room r (old c i k b e g l) q = inr (
      here t size c i k b v e g l,
      after t size c i k b v e g l,
      rw (q, alloc_bytes) (carve_lem t size c i k b v e g l),
      after-Allocated t size c i k b v e g l,
    )
    from_room r (added t' room e l u) q =
        let placed : place t size ≡ some (grown_by t size, length t.chunks, 0) = rw (← e) q in
        let v' = grown_by-IsValid t size v room (omega arith) (omega arith) in
        let found : get_elem? (grown_by t size).chunks (length t.chunks) ≡ some (fresh t size) =
          get_elem?-length t.chunks [] (fresh t size) in
        inr (
          here (grown_by t size) size (length t.chunks) 0 (fresh t size) _ v' found refl l,
          after (grown_by t size) size (length t.chunks) 0 (fresh t size) _ v' found refl l,
          rw (placed, alloc_bytes)
              (carve_lem (grown_by t size) size (length t.chunks) 0 (fresh t size) _ v' found refl
                l),
          Allocated-grown t _ size _ room (
              after-Allocated (grown_by t size) size (length t.chunks) 0 (fresh t size) _ v' found
                refl l),
        )
    from_room r (full e) q = inl (rw (q, alloc_bytes), e)
