-- ===== src/Kv/Valid/Sequences.antt =====
-- The operations on one sequence (code/source/src/llama-kv-cache.cpp) keep a cache valid.
use gfx906_mixed_cuda_rocm_r.Base.{
  ℕ, zero, suc, ◌+◌, ◌≤◌, ◌≡◌, refl, ◌∙◌, inl, inr, Bool, true, false, not, ◌&&◌, some,
  if◌then◌else◌, length, Option-cases, arith,
}
use gfx906_mixed_cuda_rocm_r.Base.Int.{ℤ, pos, negsuc}
use gfx906_mixed_cuda_rocm_r.Kv.{
  CellOps, Cache, sweep, sweep_all, on_stream, swept, visit_rm, visit_rm_any, visit_add, visit_div,
  visit_cp, add_stream, div_stream, cp_stream, rm_streams, cache_seq_rm, cache_seq_keep,
  cache_seq_add, cache_seq_div, from_start, to_end,
}
use gfx906_mixed_cuda_rocm_r.Kv.Valid.{
  KeepsSize, IsValid, Keeps, KeepsCells, on_stream-IsValid, on_sequence-IsValid, swept-Keeps,
  size-sweep, sweep-le, if-le, if-size,
}
use mathlib.Core.Option.{some-injective}
use mathlib.Core.Path.{subst}

module _ {C E : Type 0} (ops : CellOps C E) (laws : KeepsSize ops) where
  open ops use {size, pos_in, seq_has, seq_keep, seq_rm, seq_add, rm, pos_add, pos_div, reset}
  open laws use {
    resize_size, reset_size, rm_size, seq_rm_size, seq_keep_size, seq_add_size, pos_add_size,
    pos_div_size,
  }

  visit_rm-KeepsCells : (s : ℕ) (p0 p1 : ℤ) → KeepsCells ops (visit_rm ops s p0 p1)
  unfolding KeepsCells visit_rm
  visit_rm-KeepsCells s p0 p1 k i =
      if-size ops (not (pos_in k i p0 p1)) (k, false) _ (size k) refl
        (if-size ops (seq_has k i s) (seq_rm k i s) (k, false) (size k) (seq_rm_size k i s) refl)

  visit_rm_any-KeepsCells : (p0 p1 : ℤ) → KeepsCells ops (visit_rm_any ops p0 p1)
  unfolding KeepsCells visit_rm_any
  visit_rm_any-KeepsCells p0 p1 k i =
      if-size ops (not (pos_in k i p0 p1)) (k, false) (rm k i, true) (size k) refl (rm_size k i)

  visit_cp-KeepsCells : (src dst : ℕ) (p0 p1 : ℤ) → KeepsCells ops (visit_cp ops src dst p0 p1)
  unfolding KeepsCells visit_cp
  visit_cp-KeepsCells src dst p0 p1 k i =
      if-size ops (pos_in k i p0 p1 && seq_has k i src) (seq_add k i dst, false) (k, false) (size k)
        (seq_add_size k i dst) refl

  visit_add-KeepsCells : (s : ℕ) (p0 p1 shift : ℤ) → KeepsCells ops (visit_add ops s p0 p1 shift)
  unfolding KeepsCells visit_add
  visit_add-KeepsCells s p0 p1 shift k i =
      if-size ops (pos_in k i p0 p1 && seq_has k i s) (pos_add k i shift) (k, false) (size k)
        (pos_add_size k i shift) refl

  visit_div-KeepsCells : (s : ℕ) (p0 p1 : ℤ) (d : ℕ) → KeepsCells ops (visit_div ops s p0 p1 d)
  unfolding KeepsCells visit_div
  visit_div-KeepsCells s p0 p1 d k i =
      if-size ops (pos_in k i p0 p1 && seq_has k i s) (pos_div k i d, false) (k, false) (size k)
        (pos_div_size k i d) refl

  seq_keep-KeepsCells : (s : ℕ) → KeepsCells ops (λ k i. seq_keep k i s)
  unfolding KeepsCells
  seq_keep-KeepsCells s k i = seq_keep_size k i s

  module _ (n ns : ℕ) where
    rm_streams-IsValid :
        (m s : ℕ) (p0 p1 : ℤ) (c c' : Cache C)
        → IsValid ops n ns c
        → rm_streams ops m s p0 p1 c ≡ some c'
        → IsValid ops n ns c'
    unfolding rm_streams
    rm_streams-IsValid zero s p0 p1 c c' v e = subst (IsValid ops n ns) (some-injective _ _ e) v
    rm_streams-IsValid (suc m) s p0 p1 c c' v e =
        elim (Option-cases (on_stream ops s (swept ops (visit_rm_any ops p0 p1)) c)) [
          | inl q ↦ cc (rw (rm_streams, q) at e)
          | inr q ↦
              rm_streams-IsValid m (s + 1) p0 p1 q.0 c'
                (on_stream-IsValid ops n ns s (swept ops (visit_rm_any ops p0 p1)) c q.0
                  (swept-Keeps ops n ns (visit_rm_any ops p0 p1) (visit_rm_any-KeepsCells p0 p1)) v
                  q.1)
                (rw (rm_streams, q.1) at e)
        ]

    pub cache_seq_rm-IsValid :
        (s p0 p1 : ℤ) (c c' : Cache C)
        → IsValid ops n ns c
        → cache_seq_rm ops s p0 p1 c ≡ some c'
        → IsValid ops n ns c'
    unfolding cache_seq_rm
    cache_seq_rm-IsValid (pos s) p0 p1 c c' v e =
        on_sequence-IsValid ops n ns s (swept ops (visit_rm ops s (from_start p0) (to_end p1))) c c'
          (swept-Keeps ops n ns (visit_rm ops s (from_start p0) (to_end p1))
            (visit_rm-KeepsCells s (from_start p0) (to_end p1)))
          v e
    cache_seq_rm-IsValid (negsuc zero) p0 p1 c c' v e =
        rm_streams-IsValid (length c.v_cells) 0 (from_start p0) (to_end p1) c c' v e
    cache_seq_rm-IsValid (negsuc (suc s)) p0 p1 c c' v e = cc

    pub cache_seq_keep-IsValid :
        (s : ℕ) (c c' : Cache C)
        → IsValid ops n ns c
        → cache_seq_keep ops s c ≡ some c'
        → IsValid ops n ns c'
    unfolding cache_seq_keep
    cache_seq_keep-IsValid s c c' v e =
        on_sequence-IsValid ops n ns s (swept ops (λ k i. seq_keep k i s)) c c'
          (swept-Keeps ops n ns (λ k i. seq_keep k i s) (seq_keep-KeepsCells s)) v e

    cut :
        (t : Bool) (x y : C × ℕ)
        → (size x.0 ≡ n) × (x.1 ≤ n)
        → (size y.0 ≡ n) × (y.1 ≤ n)
        → (size (if t then x else y).0 ≡ n) × ((if t then x else y).1 ≤ n)
    cut true x y p q = p
    cut false x y p q = q

    add_stream-Keeps : (s : ℕ) (p0 p1 d : ℤ) → Keeps ops n ns (add_stream ops s p0 p1 d)
    unfolding Keeps add_stream sweep_all
    add_stream-Keeps s p0 p1 d k h e b =
        let visit : C → ℕ → C × Bool = visit_add ops s p0 p1 d in
        cut _ (k, h) _ (e, b)
          (
            size-sweep ops visit (size k) 0 k (size k) (visit_add-KeepsCells s p0 p1 d) ∙ e,
            if-le _ 0 (sweep ops visit (size k) 0 k (size k)).1 n (omega arith)
                (sweep-le ops visit (size k) 0 k (size k) n (omega (arith, e)) (omega (arith, e))),
          )

    div_stream-Keeps : (s : ℕ) (p0 p1 : ℤ) (d : ℕ) → Keeps ops n ns (div_stream ops s p0 p1 d)
    unfolding Keeps div_stream sweep_all
    div_stream-Keeps s p0 p1 d k h e b =
        cut _ (k, h) _ (e, b)
          (
            size-sweep ops (visit_div ops s p0 p1 d) (size k) 0 k (size k)
                  (visit_div-KeepsCells s p0 p1 d)
                ∙ e,
            b,
          )

    pub cp_stream-Keeps : (src dst : ℕ) (p0 p1 : ℤ) → Keeps ops n ns (cp_stream ops src dst p0 p1)
    unfolding Keeps cp_stream sweep_all
    cp_stream-Keeps src dst p0 p1 k h e b =
        cut _ (k, h) _ (e, b)
          (
            size-sweep ops (visit_cp ops src dst p0 p1) (size k) 0 k (size k)
                  (visit_cp-KeepsCells src dst p0 p1)
                ∙ e,
            b,
          )

    pub cache_seq_add-IsValid :
        (one : Bool) (s : ℕ) (p0 p1 d : ℤ) (c c' : Cache C)
        → IsValid ops n ns c
        → cache_seq_add ops one s p0 p1 d c ≡ some c'
        → IsValid ops n ns c'
    unfolding cache_seq_add
    cache_seq_add-IsValid false s p0 p1 d c c' v e = cc
    cache_seq_add-IsValid true s p0 p1 d c c' v e =
        on_sequence-IsValid ops n ns s (add_stream ops s (from_start p0) (to_end p1) d) c c'
          (add_stream-Keeps s (from_start p0) (to_end p1) d) v e

    pub cache_seq_div-IsValid :
        (one : Bool) (s : ℕ) (p0 p1 : ℤ) (d : ℕ) (c c' : Cache C)
        → IsValid ops n ns c
        → cache_seq_div ops one s p0 p1 d c ≡ some c'
        → IsValid ops n ns c'
    unfolding cache_seq_div
    cache_seq_div-IsValid false s p0 p1 d c c' v e = cc
    cache_seq_div-IsValid true s p0 p1 d c c' v e =
        on_sequence-IsValid ops n ns s (div_stream ops s (from_start p0) (to_end p1) d) c c'
          (div_stream-Keeps s (from_start p0) (to_end p1) d) v e
