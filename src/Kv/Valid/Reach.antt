-- ===== src/Kv/Valid/Reach.antt =====
-- The caches that the operations can reach (code/source/src/llama-kv-cache.cpp), and what holds of them.
use gfx906_mixed_cuda_rocm_r.Base.{ℕ, ◌≤◌, ◌<◌, ◌≡◌, Bool, some, List}
use gfx906_mixed_cuda_rocm_r.Base.Int.{ℤ}
use gfx906_mixed_cuda_rocm_r.Kv.{
  CellOps, Cache, first_cache, cache_clear, cache_seq_rm, cache_seq_cp, cache_seq_keep,
  cache_seq_add, cache_seq_div, init_update, reset_shifts,
}
use gfx906_mixed_cuda_rocm_r.Kv.Slot.{Ubatch, SlotInfo}
use gfx906_mixed_cuda_rocm_r.Kv.Batch.{apply_ubatch, prepare}
use gfx906_mixed_cuda_rocm_r.Kv.State.Read.{Reader, Thrown, state_read}
use gfx906_mixed_cuda_rocm_r.Kv.State.Valid.{state_read-IsValid}
use gfx906_mixed_cuda_rocm_r.Kv.Valid.{KeepsSize, IsValid}
use gfx906_mixed_cuda_rocm_r.Kv.Valid.Sequences.{
  cache_seq_rm-IsValid, cache_seq_keep-IsValid, cache_seq_add-IsValid, cache_seq_div-IsValid,
}
use gfx906_mixed_cuda_rocm_r.Kv.Valid.Copy.{
  cache_seq_cp-IsValid, cache_clear-IsValid, reset_shifts-IsValid, first_cache-IsValid,
}
use gfx906_mixed_cuda_rocm_r.Kv.Valid.Batch.{apply_ubatch-IsValid, Within}
use gfx906_mixed_cuda_rocm_r.Kv.Valid.Prepare.{prepare-IsValid}

module _ {C E : Type 0} (ops : CellOps C E) (masked : ℤ → ℤ → Bool) where
  -- One operation that does not abort, on streams of `kv_size` cells. A batch goes to a slot within the
  -- cells, as those are that `find_slot` and `prepare` give.
  pub data Step (kv_size : ℕ) : Cache C → Cache C → Type 1 where
    clears : (c : Cache C) → Step kv_size c (cache_clear ops c)
    removes :
        (s p0 p1 : ℤ) (c c' : Cache C) → cache_seq_rm ops s p0 p1 c ≡ some c' → Step kv_size c c'
    copies :
        (src dst : ℕ) (p0 p1 : ℤ) (c c' : Cache C)
        → cache_seq_cp ops src dst p0 p1 c ≡ some c'
        → Step kv_size c c'
    keeps : (s : ℕ) (c c' : Cache C) → cache_seq_keep ops s c ≡ some c' → Step kv_size c c'
    adds :
        (one : Bool) (s : ℕ) (p0 p1 shift : ℤ) (c c' : Cache C)
        → cache_seq_add ops one s p0 p1 shift c ≡ some c'
        → Step kv_size c c'
    divides :
        (one : Bool) (s : ℕ) (p0 p1 : ℤ) (d : ℕ) (c c' : Cache C)
        → cache_seq_div ops one s p0 p1 d c ≡ some c'
        → Step kv_size c c'
    starts_update : (c : Cache C) → Step kv_size c (init_update ops c).0
    ends_update : (c : Cache C) → Step kv_size c (reset_shifts ops c)
    prepares :
        (ubs : List Ubatch) (c : Cache C) (r : Cache C × List SlotInfo)
        → prepare ops masked ubs c ≡ some r
        → Step kv_size c r.0
    applies :
        (slot : SlotInfo) (ub : Ubatch) (c c' : Cache C)
        → Within kv_size slot.idxs
        → apply_ubatch ops slot ub c ≡ some c'
        → Step kv_size c c'
    restores :
        {I : Type 0} (reader : Reader I E) (reserve : ℕ → Ubatch) (seq_id : ℤ) (io : I)
        (c : Cache C) (r : Cache C × Thrown)
        → state_read ops reader masked reserve seq_id io c ≡ some r
        → Step kv_size c r.0

  -- From the cache of the constructor on, with `n_stream` streams of `kv_size` cells.
  pub data Reach (kv_size n_stream : ℕ) : Cache C → Type 1 where
    built : Reach kv_size n_stream (first_cache ops n_stream kv_size)
    after :
        (c c' : Cache C) → Reach kv_size n_stream c → Step kv_size c c' → Reach kv_size n_stream c'

module _ {C E : Type 0} (ops : CellOps C E) (laws : KeepsSize ops) (masked : ℤ → ℤ → Bool)
    (n ns : ℕ) (z : n < 1073741824) where
  Step-IsValid :
      (c c' : Cache C) → IsValid ops n ns c → Step ops masked n c c' → IsValid ops n ns c'
  unfolding init_update
  Step-IsValid c c' v (clears _) = cache_clear-IsValid ops laws n ns c v
  Step-IsValid c c' v (removes s p0 p1 _ _ e) = cache_seq_rm-IsValid ops laws n ns s p0 p1 c c' v e
  Step-IsValid c c' v (copies src dst p0 p1 _ _ e) =
      cache_seq_cp-IsValid ops laws n ns src dst p0 p1 c c' v e
  Step-IsValid c c' v (keeps s _ _ e) = cache_seq_keep-IsValid ops laws n ns s c c' v e
  Step-IsValid c c' v (adds one s p0 p1 d _ _ e) =
      cache_seq_add-IsValid ops laws n ns one s p0 p1 d c c' v e
  Step-IsValid c c' v (divides one s p0 p1 d _ _ e) =
      cache_seq_div-IsValid ops laws n ns one s p0 p1 d c c' v e
  Step-IsValid c c' v (starts_update _) = record {
    streams = v.streams;
    n_streams = v.n_streams;
    lengths = v.lengths;
    sizes = v.sizes;
    heads = v.heads;
  }
  Step-IsValid c c' v (ends_update _) = reset_shifts-IsValid ops laws n ns c v
  Step-IsValid c c' v (prepares ubs _ r e) = prepare-IsValid ops laws n ns z masked ubs c r v e
  Step-IsValid c c' v (applies slot ub _ _ w e) =
      apply_ubatch-IsValid ops laws n ns slot ub c c' v w e
  Step-IsValid c c' v (restores reader reserve seq_id io _ r e) =
      state_read-IsValid ops laws reader masked reserve n ns z seq_id io c r v e

  -- If only `resize` changes how many cells there are, a cache of one or more streams with fewer than
  -- 2 ^ 30 cells each, in which the operations on sequences and batches have run and states were read in
  -- any order, keeps its streams and their number of cells, and has a stream for each sequence and no
  -- head behind the end of the cells.
  pub Reach-IsValid : 1 ≤ ns → (c : Cache C) → Reach ops masked n ns c → IsValid ops n ns c
  Reach-IsValid b c built = first_cache-IsValid ops laws n ns ns b
  Reach-IsValid b c (after d _ r s) = Step-IsValid d c (Reach-IsValid b d r) s
