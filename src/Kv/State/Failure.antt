-- ===== src/Kv/State/Failure.antt =====
-- What `llama_kv_cache::state_read` (code/source/src/llama-kv-cache.cpp) leaves of a cache, however it
-- ends.
use gfx906_mixed_cuda_rocm_r.Base.{
  ℕ, zero, suc, ◌+◌, ◌<◌, ◌≡◌, ◌≢◌, ◌⊎◌, refl, ap, ◌∙◌, inl, inr, Bool, Option, none, some, List,
  [], ◌∷◌, map, ltb, ◌==◌, length, set, length-set, get_elem?-some, All, All-set, Bool-cases,
  Option-cases, arith,
}
use gfx906_mixed_cuda_rocm_r.Base.Int.{ℤ, negsuc}
use gfx906_mixed_cuda_rocm_r.Kv.{CellOps, Cache, cache_clear}
use gfx906_mixed_cuda_rocm_r.Kv.Slot.{Ubatch}
use gfx906_mixed_cuda_rocm_r.Kv.Valid.Copy.{All-replicate}
use gfx906_mixed_cuda_rocm_r.Kv.State.Read.{
  Reader, Status, refused, MetaResult, StreamResult, goes_on, throws, fails, Thrown, nothing,
  n_stream_mismatch, failed_to_restore, read_failed, read_cells, placed_cells, without_slot,
  read_stream, state_read_meta, read_part, drop_restored, fail_restore, target_stream, read_streams,
  state_read,
}
use gfx906_mixed_cuda_rocm_r.Kv.State.Sizes.{Status-cases}

-- All cells are as `reset` leaves them, and all heads are at the first cell.
pub Cleared : {C E : Type 0} → CellOps C E → Cache C → Type 0
Cleared {C = C} ops c =
    All (λ h. h ≡ 0) c.v_heads × All (λ k. (k0 : C) × (k ≡ ops.reset k0)) c.v_cells

-- All heads are at the first cell, and the cells of all streams but one are as `reset` leaves them.
pub Restored : {C E : Type 0} → CellOps C E → Cache C → Type 0
Restored {C = C} ops c =
    All (λ h. h ≡ 0) c.v_heads
    × ((ks : List C) × (st : ℕ) × (k : C) × (c.v_cells ≡ set (map ops.reset ks) st k))

-- The cache is the one from before, or nothing of it is left.
abbrev pub Replaced : {C E : Type 0} → CellOps C E → Cache C → Cache C → Type 0
Replaced ops c c' = (c' ≡ c) ⊎ Restored ops c'

-- What the results of a restoration of `c` say: `number` is what was read as the number of streams.
pub Told : {C E : Type 0} → CellOps C E → Cache C → Option ℕ → Cache C × Thrown → Type 0
Told ops c number (c', nothing) = (number ≡ some (length c.v_cells)) × Replaced ops c c'
Told ops c number (c', read_failed) =
    ((number ≡ none) × (c' ≡ c)) ⊎ ((number ≡ some (length c.v_cells)) × Replaced ops c c')
Told ops c number (c', n_stream_mismatch) =
    (c' ≡ c) × ((n : ℕ) × (number ≡ some n) × (n ≢ length c.v_cells))
Told ops c number (c', failed_to_restore) = (number ≡ some (length c.v_cells)) × Cleared ops c'

abbrev pub number_of : {I : Type 0} → Option (ℕ × I) → Option ℕ
number_of none = none
number_of (some r) = some r.0

All-reset :
    {C E : Type 0} (ops : CellOps C E) (ks : List C)
    → All (λ k. (k0 : C) × (k ≡ ops.reset k0)) (map ops.reset ks)
All-reset ops [] = tt
All-reset ops (k ∷ ks) = ((k, refl), All-reset ops ks)

length-map : {A B : Type 0} (f : A → B) (xs : List A) → length (map f xs) ≡ length xs
length-map f [] = refl
length-map f (x ∷ xs) = ap suc (length-map f xs)

cache_clear-Cleared :
    {C E : Type 0} (ops : CellOps C E) (c : Cache C) → Cleared ops (cache_clear ops c)
unfolding Cleared cache_clear
cache_clear-Cleared ops c =
    (All-replicate (λ h. h ≡ 0) (length c.v_cells) 0 refl, All-reset ops c.v_cells)

module _ {C E I : Type 0} (ops : CellOps C E) (reader : Reader I E) (masked : ℤ → ℤ → Bool)
    (reserve : ℕ → Ubatch) where
  open ops use {size}
  open reader use {read_u32, read_data}

  -- A cache that came from `c` by restoring streams, with as many streams.
  abbrev From : Cache C → Cache C → Type 0
  From c d = (length d.v_cells ≡ length c.v_cells) × Replaced ops c d

  placed_cells-From :
      (c d : Cache C) (st m : ℕ) (k : C) (t : Status) (io : I)
      → length d.v_cells ≡ length c.v_cells
      → From c (placed_cells ops reader masked reserve st m (cache_clear ops d) k t io).cache
  unfolding placed_cells Restored cache_clear
  placed_cells-From c d st m k t io e =
      let same : length (set (map ops.reset d.v_cells) st k) ≡ length c.v_cells =
        length-set (map ops.reset d.v_cells) st k ∙ (length-map ops.reset d.v_cells ∙ e) in
      let heads = All-replicate (λ h. h ≡ 0) (length d.v_cells) 0 refl in
      elim (Status-cases t) [
        | inl q ↦
            rw q (same, inr (All-set (λ h. h ≡ 0) _ st 0 heads refl, (d.v_cells, st, k, refl)))
        | inr (inl q) ↦ rw q (same, inr (heads, (d.v_cells, st, k, refl)))
        | inr (inr q) ↦ rw q (same, inr (heads, (d.v_cells, st, k, refl)))
      ]

  length-cache_clear : (c : Cache C) → length (cache_clear ops c).v_cells ≡ length c.v_cells
  unfolding cache_clear
  length-cache_clear c = length-map ops.reset c.v_cells

  read_stream-From :
      (c d : Cache C) (st m : ℕ) (io : I)
      → From c d
      → st < length c.v_cells
      → (r : MetaResult C I) × (read_stream ops reader masked reserve st m io d ≡ some r)
        × From c r.cache
  unfolding read_stream
  read_stream-From c d st m io f b =
      let q = get_elem?-some d.v_cells st (omega (arith, f.0, b)) in
      elim (Bool-cases (ltb (size q.0) m)) [
        | inl t ↦
            (without_slot ops reader masked reserve d refused io, rw (read_stream, q.1, t) refl, f)
        | inr t ↦
            let p =
              get_elem?-some (cache_clear ops d).v_cells st
                (omega (arith, f.0, b, length-cache_clear d)) in
            let s : C × Status × I = read_cells ops reader m 0 p.0 io in
            (
              placed_cells ops reader masked reserve st m (cache_clear ops d) s.0 s.1 s.2,
              rw (read_stream, q.1, t, p.1) refl,
              placed_cells-From c d st m s.0 s.1 s.2 f.0,
            )
      ]

  FromPart : Cache C → StreamResult C I → Type 0
  FromPart c (goes_on d io) = From c d
  FromPart c (throws d) = From c d
  FromPart c (fails d) = Unit

  read_part-From :
      (c d : Cache C) (st m : ℕ) (io : I)
      → From c d
      → st < length c.v_cells
      → (r : StreamResult C I) × (read_part ops reader masked reserve st m (negsuc 0) io d ≡ some r)
        × FromPart c r
  unfolding read_part FromPart state_read_meta
  read_part-From c d st m io f b =
      let (x, q, g) = read_stream-From c d st m io f b in
      elim (Status-cases x.status) [
        | inr (inl t) ↦ (fails x.cache, rw (read_part, state_read_meta, q, t) refl, tt)
        | inr (inr t) ↦ (throws x.cache, rw (read_part, state_read_meta, q, t) refl, g)
        | inl t ↦ elim (Option-cases (read_data st m x.slot x.rest)) [
          | inl e ↦ (throws x.cache, rw (read_part, state_read_meta, q, t, e) refl, g)
          | inr (y, e) ↦ elim (Bool-cases y.0) [
            | inl u ↦ (goes_on x.cache y.1, rw (read_part, state_read_meta, q, t, e, u) refl, g)
            | inr u ↦ (fails x.cache, rw (read_part, state_read_meta, q, t, e, u) refl, tt)
          ]
        ]
      ]

  FromPart-cases :
      (c : Cache C) (x : StreamResult C I)
      → FromPart c x
      → ((d : Cache C) × (io : I) × (x ≡ goes_on d io) × From c d)
        ⊎ ((d : Cache C) × (x ≡ throws d) × From c d)
        ⊎ ((d : Cache C) × (x ≡ fails d))
  unfolding FromPart
  FromPart-cases c (goes_on d io) f = inl (d, io, refl, f)
  FromPart-cases c (throws d) f = inr (inl (d, refl, f))
  FromPart-cases c (fails d) f = inr (inr (d, refl))

  read_streams-Told :
      (c d : Cache C) (m s : ℕ) (io : I)
      → From c d
      → s + m ≡ length c.v_cells
      → (r : Cache C × Thrown) × (read_streams ops reader masked reserve (negsuc 0) m s io d
          ≡ some r)
        × Told ops c (some (length c.v_cells)) r
  unfolding read_streams Told fail_restore drop_restored target_stream
  read_streams-Told c d zero s io f b = ((d, nothing), refl, (refl, f.1))
  read_streams-Told c d (suc m) s io f b = elim (Option-cases (read_u32 io)) [
    | inl q ↦ ((d, read_failed), rw (read_streams, q) refl, inr (refl, f.1))
    | inr (k, q) ↦ elim (Bool-cases (k.0 == 0)) [
      | inl t ↦
          let r = read_streams-Told c d m (s + 1) k.1 f (omega (arith, b)) in
          (r.0, rw (read_streams, q, t) r.1, r.2)
      | inr t ↦
          let (x, e, g) = read_part-From c d s k.0 k.1 f (omega (arith, b)) in
          elim (FromPart-cases c x g) [
            | inl (d', io', h, f') ↦
                let r = read_streams-Told c d' m (s + 1) io' f' (omega (arith, b)) in
                (r.0, rw (read_streams, q, t, target_stream, e, h) r.1, r.2)
            | inr (inl (d', h, f')) ↦ (
              (d', read_failed),
              rw (read_streams, q, t, target_stream, e, h) refl,
              inr (refl, f'.1),
            )
            | inr (inr (d', h)) ↦ (
              (cache_clear ops d', failed_to_restore),
              rw (read_streams, q, t, target_stream, e, h) refl,
              (refl, cache_clear-Cleared ops d'),
            )
          ]
    ]
  ]

  -- Reading a state of the whole cache always ends, without an assertion that fails. When its number of
  -- streams cannot be read, or differs from that of the cache, the cache stays. Otherwise, when the
  -- restoration fails, the cells of all streams are reset and all heads are at the first cell; when the
  -- state ends early, or nothing is thrown, the cache is the one from before, or all heads are at the
  -- first cell and the cells of all streams but at most one are reset.
  pub state_read-Told :
      (io : I) (c : Cache C)
      → (r : Cache C × Thrown) × (state_read ops reader masked reserve (negsuc 0) io c ≡ some r)
        × Told ops c (number_of (read_u32 io)) r
  unfolding state_read Told
  state_read-Told io c = elim (Option-cases (read_u32 io)) [
    | inl q ↦ ((c, read_failed), rw (state_read, q) refl, inl (rw q (refl, refl)))
    | inr (k, q) ↦ elim (Bool-cases (k.0 == length c.v_cells)) [
      | inr u ↦ (
        (c, n_stream_mismatch),
        rw (state_read, q, u) refl,
        rw q (refl, (k.0, refl, λ e. absurd (ground (arith, u, e)))),
      )
      | inl u ↦
          let r = read_streams-Told c c (length c.v_cells) 0 k.1 (refl, inl refl) (omega arith) in
          let e : k.0 ≡ length c.v_cells = ground (arith, u) in
          (r.0, rw (state_read, q, u) r.1, rw (q, e) r.2)
    ]
  ]
