-- ===== src/Kv/Valid.antt =====
-- What holds of a cache between operations (code/source/src/llama-kv-cache.cpp): each sequence has a
-- stream, each stream has `kv_size` cells, and no head is behind their end. The operations on sequences
-- keep it.
pub mod Sequences
pub mod Copy
pub mod Batch
pub mod Slots
pub mod Prepare
pub mod Heads
pub mod Cells
pub mod Total
pub mod Placed
pub mod Reach
use gfx906_mixed_cuda_rocm_r.Base.{
  ℕ, zero, suc, ◌+◌, ◌≤◌, ◌<◌, ◌≡◌, refl, ap, sym, ◌∙◌, inl, inr, Bool, true, false, not, ◌&&◌,
  Option, none, some, List, [], ◌∷◌, ltb, ◌==◌, if◌then◌else◌, length, get_elem?, get_or, set,
  length-set, All, All-get_elem?, All-set, Bool-cases, Option-cases, arith,
}
use gfx906_mixed_cuda_rocm_r.Base.Int.{ℤ}
use gfx906_mixed_cuda_rocm_r.Kv.{
  CellOps, Cache, sweep, sweep_all, lower_head, on_stream, on_sequence, swept,
}
use mathlib.Core.Option.{some-injective}
use mathlib.Core.Path.{subst}

-- Only `resize` changes how many cells there are.
pub record KeepsSize {C E : Type 0} (ops : CellOps C E) : Type 0 where
  pub resize_size : (c : C) (n : ℕ) → ops.size (ops.resize c n) ≡ n
  pub reset_size : (c : C) → ops.size (ops.reset c) ≡ ops.size c
  pub reset_shift_size : (c : C) → ops.size (ops.reset_shift c) ≡ ops.size c
  pub rm_size : (c : C) (i : ℕ) → ops.size (ops.rm c i) ≡ ops.size c
  pub seq_rm_size : (c : C) (i s : ℕ) → ops.size (ops.seq_rm c i s).0 ≡ ops.size c
  pub seq_keep_size : (c : C) (i s : ℕ) → ops.size (ops.seq_keep c i s).0 ≡ ops.size c
  pub seq_add_size : (c : C) (i s : ℕ) → ops.size (ops.seq_add c i s) ≡ ops.size c
  pub pos_set_size : (c : C) (i : ℕ) (p : ℤ) → ops.size (ops.pos_set c i p) ≡ ops.size c
  pub pos_add_size : (c : C) (i : ℕ) (d : ℤ) → ops.size (ops.pos_add c i d).0 ≡ ops.size c
  pub pos_div_size : (c : C) (i d : ℕ) → ops.size (ops.pos_div c i d) ≡ ops.size c
  pub ext_set_size : (c : C) (i : ℕ) (e : E) → ops.size (ops.ext_set c i e) ≡ ops.size c
  pub set_cells_size : (c : C) (l : List ℕ) (k : C) → ops.size (ops.set_cells c l k) ≡ ops.size c

pub record IsValid {C E : Type 0} (ops : CellOps C E) (kv_size n_stream : ℕ) (c : Cache C)
    : Type 0 where
  pub streams : All (λ s. s < length c.v_cells) c.seq_to_stream
  pub n_streams : length c.v_cells ≡ n_stream
  pub lengths : length c.v_heads ≡ length c.v_cells
  pub sizes : All (λ k. ops.size k ≡ kv_size) c.v_cells
  pub heads : All (λ h. h ≤ kv_size) c.v_heads

pub if-le : (t : Bool) (x y b : ℕ) → x ≤ b → y ≤ b → (if t then x else y) ≤ b
if-le true x y b p q = p
if-le false x y b p q = q

pub All-get_or : (P : ℕ → Type 0) (xs : List ℕ) (i d : ℕ) → All P xs → P d → P (get_or xs i d)
All-get_or P [] i d a p = p
All-get_or P (x ∷ xs) zero d a p = a.0
All-get_or P (x ∷ xs) (suc i) d a p = All-get_or P xs i d a.1 p

module _ {C E : Type 0} (ops : CellOps C E) where
  open ops use {size}

  -- The visit of a cell keeps the number of cells.
  pub KeepsCells : (C → ℕ → C × Bool) → Type 0
  KeepsCells visit = (k : C) (i : ℕ) → size (visit k i).0 ≡ size k

  pub size-sweep :
      (visit : C → ℕ → C × Bool) (m i : ℕ) (k : C) (nh : ℕ)
      → KeepsCells visit
      → size (sweep ops visit m i k nh).0 ≡ size k
  unfolding sweep KeepsCells
  size-sweep visit zero i k nh p = refl
  size-sweep visit (suc m) i k nh p = size-sweep visit m (i + 1) (visit k i).0 _ p ∙ p k i

  pub sweep-le :
      (visit : C → ℕ → C × Bool) (m i : ℕ) (k : C) (nh b : ℕ)
      → i + m ≤ b
      → nh ≤ b
      → (sweep ops visit m i k nh).1 ≤ b
  unfolding sweep
  sweep-le visit zero i k nh b p q = q
  sweep-le visit (suc m) i k nh b p q =
      sweep-le visit m (i + 1) (visit k i).0 _ b (omega arith) (if-le _ i nh b (omega arith) q)

  -- Both branches of a visit have `m` cells.
  pub if-size :
      (t : Bool) (x y : C × Bool) (m : ℕ)
      → size x.0 ≡ m
      → size y.0 ≡ m
      → size (if t then x else y).0 ≡ m
  if-size true x y m p q = p
  if-size false x y m p q = q

  pub if-size_cells :
      (t : Bool) (x y : C) (m : ℕ) → size x ≡ m → size y ≡ m → size (if t then x else y) ≡ m
  if-size_cells true x y m p q = p
  if-size_cells false x y m p q = q

module _ {C E : Type 0} (ops : CellOps C E) (n ns : ℕ) where
  open ops use {size}

  -- A change of a stream's cells and head that keeps the number of cells and the bound of the head.
  pub Keeps : (C → ℕ → C × ℕ) → Type 0
  Keeps f = (k : C) (h : ℕ) → size k ≡ n → h ≤ n → (size (f k h).0 ≡ n) × ((f k h).1 ≤ n)

  -- Cells and head of a stream are written.
  pub set_stream-IsValid :
      (c : Cache C) (s : ℕ) (k : C) (h : ℕ)
      → IsValid ops n ns c
      → size k ≡ n
      → h ≤ n
      → IsValid ops n ns (record c { v_cells = set c.v_cells s k; v_heads = set c.v_heads s h })
  set_stream-IsValid c s k h v e b = record {
    streams =
        subst (λ m. All (λ i. i < m) c.seq_to_stream) (sym (length-set c.v_cells s k)) v.streams;
    n_streams = length-set c.v_cells s k ∙ v.n_streams;
    lengths = length-set c.v_heads s h ∙ v.lengths ∙ sym (length-set c.v_cells s k);
    sizes = All-set (λ x. size x ≡ n) c.v_cells s k v.sizes e;
    heads = All-set (λ x. x ≤ n) c.v_heads s h v.heads b;
  }

  pub on_stream-IsValid :
      (s : ℕ) (f : C → ℕ → C × ℕ) (c c' : Cache C)
      → Keeps f
      → IsValid ops n ns c
      → on_stream ops s f c ≡ some c'
      → IsValid ops n ns c'
  unfolding on_stream Keeps
  on_stream-IsValid s f c c' p v e = elim (Option-cases (get_elem? c.v_cells s)) [
    | inl q ↦ cc (rw (on_stream, q) at e)
    | inr q ↦
        let w : (size (f q.0 (get_or c.v_heads s 0)).0 ≡ n)
            × ((f q.0 (get_or c.v_heads s 0)).1 ≤ n) =
          p q.0 (get_or c.v_heads s 0) (All-get_elem? (λ x. size x ≡ n) c.v_cells s q.0 v.sizes q.1)
            (All-get_or (λ x. x ≤ n) c.v_heads s 0 v.heads (omega arith)) in
        subst (IsValid ops n ns) (some-injective _ _ (rw (on_stream, q.1) at e)) (
          set_stream-IsValid c s (f q.0 (get_or c.v_heads s 0)).0 (f q.0 (get_or c.v_heads s 0)).1 v
            w.0 w.1)
  ]

  pub on_sequence-IsValid :
      (s : ℕ) (f : C → ℕ → C × ℕ) (c c' : Cache C)
      → Keeps f
      → IsValid ops n ns c
      → on_sequence ops s f c ≡ some c'
      → IsValid ops n ns c'
  unfolding on_sequence
  on_sequence-IsValid s f c c' p v e = elim (Option-cases (get_elem? c.seq_to_stream s)) [
    | inl q ↦ cc (rw (on_sequence, q) at e)
    | inr q ↦ on_stream-IsValid q.0 f c c' p v (rw (on_sequence, q.1) at e)
  ]

  pub swept-Keeps : (visit : C → ℕ → C × Bool) → KeepsCells ops visit → Keeps (swept ops visit)
  unfolding Keeps sweep_all lower_head
  swept-Keeps visit p k h e b = (
    size-sweep ops visit (size k) 0 k (size k) p ∙ e,
    if-le _ (sweep ops visit (size k) 0 k (size k)).1 h n
        (sweep-le ops visit (size k) 0 k (size k) n (omega (arith, e)) (omega (arith, e))) b,
  )
