-- ===== src/Kv/State/Ranges.antt =====
-- The ranges of cells that `llama_kv_cache::state_write` (code/source/src/llama-kv-cache.cpp) collects,
-- against the chosen cells themselves.
use gfx906_mixed_cuda_rocm_r.Base.{
  ℕ, zero, suc, ◌+◌, ◌-◌, ◌≤◌, ◌<◌, ◌≡◌, ◌⊎◌, refl, ap, sym, ◌∙◌, inl, inr, Bool, true, false, List,
  [], ◌∷◌, ◌++◌, append-nil, append_assoc, length, length-append, ◌==◌, ==-ne, ==-refl,
  if◌then◌else◌, Bool-cases, arith,
}
use gfx906_mixed_cuda_rocm_r.Kv.Slot.Ring.{
  range, length-range, range-append, keep, keep-true, keep-false, keep-append,
}
use gfx906_mixed_cuda_rocm_r.Kv.State.{ranges_loop, cell_ranges, count_check}
use mathlib.Core.Path.{subst}

-- The cells of the ranges, in order.
unfoldable pub cells_in : List (ℕ × ℕ) → List ℕ
unfolding range
cells_in [] = []
cells_in (r ∷ rs) = range r.0 (r.1 - r.0) ++ cells_in rs

cells_in-append : (rs ss : List (ℕ × ℕ)) → cells_in (rs ++ ss) ≡ cells_in rs ++ cells_in ss
unfolding cells_in
cells_in-append [] ss = refl
cells_in-append (r ∷ rs) ss =
    ap (λ l. range r.0 (r.1 - r.0) ++ l) (cells_in-append rs ss)
    ∙ sym (append_assoc (range r.0 (r.1 - r.0)) (cells_in rs) (cells_in ss))

pub count_check-cells_in : (rs : List (ℕ × ℕ)) → count_check rs ≡ length (cells_in rs)
unfolding count_check cells_in
count_check-cells_in [] = refl
count_check-cells_in (r ∷ rs) = omega (
  arith,
  count_check-cells_in rs,
  length-append (range r.0 (r.1 - r.0)) (cells_in rs),
  length-range r.0 (r.1 - r.0),
)

-- The cells of the range that is open at cell `i`.
open_cells : ℕ → ℕ → ℕ → List ℕ
unfolding range
open_cells size begin i = if begin == size then [] else range begin (i - begin)

range_next : (b i : ℕ) → b ≤ i → range b (i + 1 - b) ≡ range b (i - b) ++ i ∷ []
unfolding range
range_next b i h =
    let e : i + 1 - b ≡ (i - b) + 1 = omega arith in
    ap (range b) e ∙ range-append 1 b (i - b) i (omega arith)

open_none : (size b i : ℕ) → (b == size) ≡ true → open_cells size b i ≡ []
unfolding open_cells
open_none size b i e = rw (open_cells, e)

open_some : (size b i : ℕ) → (b == size) ≡ false → open_cells size b i ≡ range b (i - b)
unfolding open_cells
open_some size b i e = rw (open_cells, e)

range_one : (i : ℕ) → range i (i + 1 - i) ≡ i ∷ []
unfolding range
range_one i = let e : i + 1 - i ≡ 1 = omega arith in ap (range i) e

closes :
    (cl : List (ℕ × ℕ)) (size i : ℕ) → cells_in cl ++ open_cells size size (i + 1) ≡ cells_in cl
closes cl size i =
    ap (λ l. cells_in cl ++ l) (open_none size size (i + 1) (==-refl size))
    ∙ append-nil (cells_in cl)

close_range :
    (cl : List (ℕ × ℕ)) (b i : ℕ) → cells_in (cl ++ (b, i) ∷ []) ≡ cells_in cl ++ range b (i - b)
unfolding cells_in
close_range cl b i =
    cells_in-append cl ((b, i) ∷ []) ∙ ap (λ l. cells_in cl ++ l) (append-nil (range b (i - b)))

module _ (t : ℕ → Bool) where
  keep_next : (i : ℕ) → keep t (range 0 (i + 1)) ≡ keep t (range 0 i) ++ keep t (i ∷ [])
  unfolding range
  keep_next i =
      ap (keep t) (range-append 1 0 i i (omega arith)) ∙ keep-append t (range 0 i) (i ∷ [])

  -- What the loop has collected before cell `i`.
  record Collected (size i count begin : ℕ) (closed : List (ℕ × ℕ)) : Type 0 where
    cells : cells_in closed ++ open_cells size begin i ≡ keep t (range 0 i)
    number : count ≡ length (keep t (range 0 i))
    starts : (begin ≡ size) ⊎ (begin < i)

  keep_hit : (i : ℕ) → t i ≡ true → keep t (range 0 (i + 1)) ≡ keep t (range 0 i) ++ i ∷ []
  unfolding keep
  keep_hit i e = keep_next i ∙ ap (λ l. keep t (range 0 i) ++ l) (keep-true t i [] e)

  keep_miss : (i : ℕ) → t i ≡ false → keep t (range 0 (i + 1)) ≡ keep t (range 0 i)
  unfolding keep
  keep_miss i e =
      keep_next i
      ∙ ap (λ l. keep t (range 0 i) ++ l) (keep-false t i [] e)
      ∙ append-nil (keep t (range 0 i))

  -- When no range is open, and when one is.
  closed_all :
      (size i c b : ℕ) (cl : List (ℕ × ℕ))
      → Collected size i c b cl
      → (b == size) ≡ true
      → cells_in cl ≡ keep t (range 0 i)
  closed_all size i c b cl v q =
      sym (ap (λ l. cells_in cl ++ l) (open_none size b i q) ∙ append-nil (cells_in cl)) ∙ v.cells

  opened_all :
      (size i c b : ℕ) (cl : List (ℕ × ℕ))
      → Collected size i c b cl
      → (b == size) ≡ false
      → cells_in cl ++ range b (i - b) ≡ keep t (range 0 i)
  opened_all size i c b cl v q = ap (λ l. cells_in cl ++ l) (sym (open_some size b i q)) ∙ v.cells

  begun :
      (size i c b : ℕ) (cl : List (ℕ × ℕ)) → Collected size i c b cl → (b == size) ≡ false → b ≤ i
  begun size i c b cl v q = ground (arith, v.starts)

  longer :
      (i c : ℕ)
      → t i ≡ true
      → c ≡ length (keep t (range 0 i))
      → c + 1 ≡ length (keep t (range 0 (i + 1)))
  longer i c e n =
      omega (arith, n, ap length (keep_hit i e), length-append (keep t (range 0 i)) (i ∷ []))

  hit :
      (size i c b : ℕ) (cl : List (ℕ × ℕ))
      → i < size
      → t i ≡ true
      → Collected size i c b cl
      → Collected size (i + 1) (c + 1) (if b == size then i else b) cl
  hit size i c b cl z e v = elim (Bool-cases (b == size)) [
    | inl q ↦ rw (q) (record {
      cells =
          ap (λ l. cells_in cl ++ l)
            (open_some size i (i + 1) (==-ne i size (omega arith)) ∙ range_one i)
          ∙ ap (λ l. l ++ i ∷ []) (closed_all size i c b cl v q)
          ∙ sym (keep_hit i e);
      number = longer i c e v.number;
      starts = inr (omega arith);
    })
    | inr q ↦ rw (q) (record {
      cells =
          ap (λ l. cells_in cl ++ l)
            (open_some size b (i + 1) q ∙ range_next b i (begun size i c b cl v q))
          ∙ sym (append_assoc (cells_in cl) (range b (i - b)) (i ∷ []))
          ∙ ap (λ l. l ++ i ∷ []) (opened_all size i c b cl v q)
          ∙ sym (keep_hit i e);
      number = longer i c e v.number;
      starts = inr (omega (arith, begun size i c b cl v q));
    })
  ]

  miss :
      (size i c b : ℕ) (cl : List (ℕ × ℕ))
      → t i ≡ false
      → Collected size i c b cl
      → Collected size (i + 1) c size (if b == size then cl else cl ++ (b, i) ∷ [])
  miss size i c b cl e v = elim (Bool-cases (b == size)) [
    | inl q ↦ rw (q) (record {
      cells = closes cl size i ∙ closed_all size i c b cl v q ∙ sym (keep_miss i e);
      number = v.number ∙ ap length (sym (keep_miss i e));
      starts = inl refl;
    })
    | inr q ↦ rw (q) (record {
      cells =
          closes (cl ++ (b, i) ∷ []) size i
          ∙ close_range cl b i
          ∙ opened_all size i c b cl v q
          ∙ sym (keep_miss i e);
      number = v.number ∙ ap length (sym (keep_miss i e));
      starts = inl refl;
    })
  ]

  loop-Collected :
      (size n i c b : ℕ) (cl : List (ℕ × ℕ))
      → i + n ≡ size
      → Collected size i c b cl
      → Collected size size
          (ranges_loop t size n i c b cl).0
          (ranges_loop t size n i c b cl).1
          (ranges_loop t size n i c b cl).2
  unfolding ranges_loop
  loop-Collected size zero i c b cl e v = subst (λ k. Collected size k c b cl) (omega arith) v
  loop-Collected size (suc n) i c b cl e v = elim (Bool-cases (t i)) [
    | inl q ↦
        rw (ranges_loop, q)
          (loop-Collected size n (i + 1) (c + 1) _ cl (omega arith)
            (hit size i c b cl (omega arith) q v))
    | inr q ↦
        rw (ranges_loop, q)
          (loop-Collected size n (i + 1) c size _ (omega arith) (miss size i c b cl q v))
  ]

-- The ranges hold the chosen cells, in order, and as many are counted.
pub cell_ranges_lem :
    (t : ℕ → Bool) (size : ℕ)
    → (cells_in (cell_ranges t size).1 ≡ keep t (range 0 size))
      × ((cell_ranges t size).0 ≡ length (keep t (range 0 size)))
unfolding cell_ranges cells_in open_cells keep
cell_ranges_lem t size =
    let r : ℕ × ℕ × List (ℕ × ℕ) = ranges_loop t size size 0 0 size [] in
    let v : Collected t size size r.0 r.1 r.2 =
      loop-Collected t size size 0 0 size [] (omega arith) (record {
        cells = open_none size size 0 (==-refl size);
        number = refl;
        starts = inl refl;
      }) in
    (closed_ranges t size r v, v.number)
  where
    closed_ranges :
        (t : ℕ → Bool) (size : ℕ) (r : ℕ × ℕ × List (ℕ × ℕ))
        → Collected t size size r.0 r.1 r.2
        → cells_in (if r.1 == size then r.2 else r.2 ++ (r.1, size) ∷ []) ≡ keep t (range 0 size)
    closed_ranges t size r v = elim (Bool-cases (r.1 == size)) [
      | inl q ↦ rw (q) (closed_all t size size r.0 r.1 r.2 v q)
      | inr q ↦ rw (q) (close_range r.2 r.1 size ∙ opened_all t size size r.0 r.1 r.2 v q)
    ]
