-- ===== src/Kv/Valid/Copy.antt =====
-- The first cache, `clear`, `seq_cp` and the end of `update` (code/source/src/llama-kv-cache.cpp) give a
-- valid cache.
use gfx906_mixed_cuda_rocm_r.Base.{
  ℕ, zero, suc, ◌+◌, ◌≤◌, ◌<◌, ◌≡◌, refl, ap, sym, ◌∙◌, inl, inr, ◌||◌, some, List, [], ◌∷◌, map,
  replicate, ltb, ◌==◌, if◌then◌else◌, length, get_elem?, get_or, set, All, All-get_elem?,
  Bool-cases, Option-cases, arith, length-replicate,
}
use gfx906_mixed_cuda_rocm_r.Base.Int.{ℤ, is_zero}
use gfx906_mixed_cuda_rocm_r.Kv.{
  CellOps, Cache, cp_stream, copy_cell, copy_cells, copy_stream, cp_between, cache_seq_cp,
  cache_clear, first_cache, count, get_size, cuts, from_start, to_end, reset_shifts,
}
use gfx906_mixed_cuda_rocm_r.Kv.Valid.{
  KeepsSize, IsValid, on_stream-IsValid, set_stream-IsValid, if-size_cells, All-get_or,
}
use gfx906_mixed_cuda_rocm_r.Kv.Valid.Sequences.{cp_stream-Keeps}
use mathlib.Core.Option.{some-injective}
use mathlib.Core.Path.{subst}

length-map {ℓ} : {A : Type ℓ} (f : A → A) (xs : List A) → length (map f xs) ≡ length xs
length-map f [] = refl
length-map f (x ∷ xs) = ap suc (length-map f xs)

pub All-replicate {ℓ} : {A : Type ℓ} (P : A → Type 0) (m : ℕ) (a : A) → P a → All P (replicate m a)
All-replicate P zero a p = tt
All-replicate P (suc m) a p = (p, All-replicate P m a p)

All-count : (b m i : ℕ) → i + m ≤ b → All (λ s. s < b) (count m i)
All-count b zero i p = tt
All-count b (suc m) i p = (omega arith, All-count b m (i + 1) (omega arith))

first_streams : (m : ℕ) → 1 ≤ m → All (λ s. s < m) (if ltb 1 m then count m 0 else replicate 256 0)
first_streams m b = elim (Bool-cases (ltb 1 m)) [
  | inl t ↦ rw (t) (All-count m m 0 (omega arith))
  | inr t ↦ rw (t) (All-replicate (λ s. s < m) 256 0 b)
]

module _ {C E : Type 0} (ops : CellOps C E) (laws : KeepsSize ops) where
  open ops use {
    size, seq_has, get_shift, pos_get, seq_add, pos_set, pos_add, reset, reset_shift, resize,
    new_cells,
  }
  open laws use {
    resize_size, reset_size, reset_shift_size, seq_add_size, pos_add_size, pos_set_size,
    ext_set_size,
  }

  size-copy_cell :
      (dst : ℕ) (source target : C) (i : ℕ) → size (copy_cell ops dst source target i) ≡ size target
  unfolding copy_cell
  size-copy_cell dst source target i =
      ext_set_size _ i _
      ∙ if-size_cells ops (is_zero (get_shift source i)) _ _ (size target)
          (seq_add_size _ i dst ∙ pos_set_size target i _)
          (pos_add_size _ i _ ∙ seq_add_size _ i dst ∙ pos_set_size target i _)

  size-copy_cells :
      (m i src dst : ℕ) (source target : C)
      → size (copy_cells ops m i src dst source target) ≡ size target
  unfolding copy_cells
  size-copy_cells zero i src dst source target = refl
  size-copy_cells (suc m) i src dst source target =
      size-copy_cells m (i + 1) src dst source _
      ∙ if-size_cells ops (seq_has source i src) _ target (size target)
          (size-copy_cell dst source target i) refl

  All-map_sizes :
      (f : C → C) (n : ℕ) (ks : List C)
      → ((k : C) → size (f k) ≡ size k)
      → All (λ k. size k ≡ n) ks
      → All (λ k. size k ≡ n) (map f ks)
  All-map_sizes f n [] p a = tt
  All-map_sizes f n (k ∷ ks) p a = (p k ∙ a.0, All-map_sizes f n ks p a.1)

  module _ (n ns : ℕ) where
    copy_stream-IsValid :
        (s0 s1 src dst : ℕ) (source target : C) (c : Cache C)
        → IsValid ops n ns c
        → size target ≡ n
        → IsValid ops n ns (copy_stream ops s0 s1 src dst source target c)
    unfolding copy_stream
    copy_stream-IsValid s0 s1 src dst source target c v e =
        let w : IsValid ops n ns (record c {
          v_cells = set c.v_cells s1 (copy_cells ops (size source) 0 src dst source (reset target));
          v_heads = set c.v_heads s1 (get_or c.v_heads s0 0);
        }) =
          set_stream-IsValid ops n ns c s1
            (copy_cells ops (size source) 0 src dst source (reset target)) (get_or c.v_heads s0 0) v
            (size-copy_cells (size source) 0 src dst source (reset target) ∙ reset_size target ∙ e)
            (All-get_or (λ h. h ≤ n) c.v_heads s0 0 v.heads (omega arith)) in
        record {
          streams = w.streams;
          n_streams = w.n_streams;
          lengths = w.lengths;
          sizes = w.sizes;
          heads = w.heads;
        }

    cp_between-IsValid :
        (s0 s1 src dst : ℕ) (p0 p1 : ℤ) (c c' : Cache C)
        → IsValid ops n ns c
        → cp_between ops s0 s1 src dst p0 p1 c ≡ some c'
        → IsValid ops n ns c'
    unfolding cp_between
    cp_between-IsValid s0 s1 src dst p0 p1 c c' v e = elim (Option-cases (get_size ops c)) [
      | inl q ↦ cc (rw (cp_between, q) at e)
      | inr q ↦ elim (Bool-cases (cuts ops p0 q.0 || cuts ops p1 q.0)) [
        | inl t ↦ cc (rw (cp_between, q.1, t) at e)
        | inr t ↦ elim (Option-cases (get_elem? c.v_cells s0)) [
          | inl a ↦ cc (rw (cp_between, q.1, t, a) at e)
          | inr a ↦ elim (Option-cases (get_elem? c.v_cells s1)) [
            | inl b ↦ cc (rw (cp_between, q.1, t, a.1, b) at e)
            | inr b ↦
                subst (IsValid ops n ns)
                  (some-injective _ _ (rw (cp_between, q.1, t, a.1, b.1) at e))
                  (copy_stream-IsValid s0 s1 src dst a.0 b.0 c v
                    (All-get_elem? (λ k. size k ≡ n) c.v_cells s1 b.0 v.sizes b.1))
          ]
        ]
      ]
    ]

    pub cache_seq_cp-IsValid :
        (src dst : ℕ) (p0 p1 : ℤ) (c c' : Cache C)
        → IsValid ops n ns c
        → cache_seq_cp ops src dst p0 p1 c ≡ some c'
        → IsValid ops n ns c'
    unfolding cache_seq_cp
    cache_seq_cp-IsValid src dst p0 p1 c c' v e =
        elim (Option-cases (get_elem? c.seq_to_stream src)) [
          | inl q ↦ cc (rw (cache_seq_cp, q) at e)
          | inr q ↦ elim (Option-cases (get_elem? c.seq_to_stream dst)) [
            | inl r ↦ cc (rw (cache_seq_cp, q.1, r) at e)
            | inr r ↦ elim (Bool-cases (q.0 == r.0)) [
              | inl t ↦
                  on_stream-IsValid ops n ns q.0 (cp_stream ops src dst (from_start p0) (to_end p1))
                    c c' (cp_stream-Keeps ops laws n ns src dst (from_start p0) (to_end p1)) v
                    (rw (cache_seq_cp, q.1, r.1, t) at e)
              | inr t ↦
                  cp_between-IsValid q.0 r.0 src dst p0 p1 c c' v
                    (rw (cache_seq_cp, q.1, r.1, t) at e)
            ]
          ]
        ]

    pub cache_clear-IsValid :
        (c : Cache C) → IsValid ops n ns c → IsValid ops n ns (cache_clear ops c)
    unfolding cache_clear
    cache_clear-IsValid c v = record {
      streams =
          subst (λ m. All (λ i. i < m) c.seq_to_stream) (sym (length-map reset c.v_cells))
            v.streams;
      n_streams = length-map reset c.v_cells ∙ v.n_streams;
      lengths = length-replicate (length c.v_cells) 0 ∙ sym (length-map reset c.v_cells);
      sizes = All-map_sizes reset n c.v_cells reset_size v.sizes;
      heads = All-replicate (λ h. h ≤ n) (length c.v_cells) 0 (omega arith);
    }

    pub reset_shifts-IsValid :
        (c : Cache C) → IsValid ops n ns c → IsValid ops n ns (reset_shifts ops c)
    unfolding reset_shifts
    reset_shifts-IsValid c v = record {
      streams =
          subst (λ m. All (λ i. i < m) c.seq_to_stream) (sym (length-map reset_shift c.v_cells))
            v.streams;
      n_streams = length-map reset_shift c.v_cells ∙ v.n_streams;
      lengths = v.lengths ∙ sym (length-map reset_shift c.v_cells);
      sizes = All-map_sizes reset_shift n c.v_cells reset_shift_size v.sizes;
      heads = v.heads;
    }

    pub first_cache-IsValid : (m : ℕ) → 1 ≤ m → IsValid ops n m (first_cache ops m n)
    unfolding first_cache
    first_cache-IsValid m b = record {
      streams =
          subst (λ k. All (λ s. s < k) (if ltb 1 m then count m 0 else replicate 256 0))
            (sym (length-replicate m (resize new_cells n))) (first_streams m b);
      n_streams = length-replicate m (resize new_cells n);
      lengths = length-replicate m 0 ∙ sym (length-replicate m (resize new_cells n));
      sizes = All-replicate (λ k. size k ≡ n) m (resize new_cells n) (resize_size new_cells n);
      heads = All-replicate (λ h. h ≤ n) m 0 (omega arith);
    }
