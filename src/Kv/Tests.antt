-- ===== src/Kv/Tests.antt =====
-- Cells made of lists, and the theorems on the cache (code/source/src/llama-kv-cache.cpp) at them.
mod Prepare
mod State
mod Inputs
use gfx906_mixed_cuda_rocm_r.Base.{
  ℕ, zero, suc, ◌+◌, ◌≤◌, ◌<◌, ◌≡◌, ◌≢◌, ◌↔◌, refl, ap, sym, ◌∙◌, Bool, true, false, not, ◌&&◌,
  ◌||◌, Option, none, some, List, [], ◌∷◌, if◌then◌else◌, length, get_elem?, get_or, set,
  length-set, replicate, length-replicate, ltb, ◌==◌, arith, All,
}
use gfx906_mixed_cuda_rocm_r.Base.Int.{ℤ, pos, negsuc, lt_int, max_int, ◌+ℤ◌}
use gfx906_mixed_cuda_rocm_r.Kv.{CellOps, Cache, first_cache}
use gfx906_mixed_cuda_rocm_r.Kv.Slot.{
  Ubatch, SlotInfo, Outcome, found, nowhere, can_use, find_in_stream, find_slot, test_cells,
  search_slot, start_head, after_tests, find_streams, one_sequence,
}
use gfx906_mixed_cuda_rocm_r.Kv.Slot.Ring.{ring, range, keep}
use gfx906_mixed_cuda_rocm_r.Kv.Slot.Words.{first_cells}
use gfx906_mixed_cuda_rocm_r.Kv.Slot.Search.{find_in_stream-ring}
use gfx906_mixed_cuda_rocm_r.Kv.Slot.Found.{GoodIdxs, find_in_stream-GoodIdxs, find_in_stream-finds}
use gfx906_mixed_cuda_rocm_r.Kv.Slot.Runs.{IsRun, find_in_stream-IsRun}
use gfx906_mixed_cuda_rocm_r.Kv.Valid.{KeepsSize, IsValid}
use gfx906_mixed_cuda_rocm_r.Kv.Valid.Cells.{KeepsOthers, SameCell}

-- The sequences of a cell, and its position.
abbrev Cell : Type 0
Cell = List ℕ × ℤ

abbrev blank : Cell
blank = ([], pos 0)

abbrev cell_at : List Cell → ℕ → Cell
cell_at k i = get_or k i blank

abbrev no_seqs : List ℕ → Bool
no_seqs [] = true
no_seqs (s ∷ ss) = false

abbrev has : List ℕ → ℕ → Bool
has [] s = false
has (x ∷ xs) s = x == s || has xs s

abbrev used : List Cell → ℕ
used [] = 0
used (c ∷ k) = if no_seqs c.0 then used k else suc (used k)

abbrev greatest : List Cell → ℕ → ℤ
greatest [] s = negsuc 0
greatest (c ∷ k) s = if has c.0 s then max_int c.1 (greatest k s) else greatest k s

abbrev least : List Cell → ℕ → ℤ
least [] s = negsuc 0
least (c ∷ k) s =
    let rest : ℤ = least k s in
    if has c.0 s then (if lt_int rest (pos 0) || lt_int c.1 rest then c.1 else rest) else rest

abbrev copy_back : List Cell → List ℕ → List Cell → List Cell
copy_back k [] old = k
copy_back k (i ∷ l) old = copy_back (set k i (cell_at old i)) l old

abbrev keep_if : Bool → List Cell → ℕ → List Cell × Bool
keep_if true k i = (k, false)
keep_if false k i = (set k i blank, true)

abbrev list_ops : CellOps (List Cell) Unit
list_ops = record {
  new_cells = [];
  resize = λ k n. replicate n blank;
  size = length;
  get_used = used;
  is_empty = λ k i. no_seqs (cell_at k i).0;
  seq_count = λ k i. length (cell_at k i).0;
  seq_get = λ k i. get_or (cell_at k i).0 0 0;
  seq_has = λ k i s. has (cell_at k i).0 s;
  seq_pos_min = least;
  seq_pos_max = greatest;
  pos_get = λ k i. (cell_at k i).1;
  pos_in = λ k i p0 p1.
      not (no_seqs (cell_at k i).0) && not (lt_int (cell_at k i).1 p0) && lt_int (cell_at k i).1 p1;
  get_shift = λ k i. pos 0;
  get_has_shift = λ k. false;
  ext_get = λ k i. tt;
  make_ext = λ x y. tt;
  reset = λ k. replicate (length k) blank;
  reset_shift = λ k. k;
  rm = λ k i. set k i blank;
  seq_rm = λ k i s. (set k i blank, true);
  seq_keep = λ k i s. keep_if (has (cell_at k i).0 s) k i;
  seq_add = λ k i s. set k i (s ∷ (cell_at k i).0, (cell_at k i).1);
  pos_set = λ k i p. set k i ((cell_at k i).0, p);
  pos_add = λ k i d. (set k i ((cell_at k i).0, (cell_at k i).1 +ℤ d), false);
  pos_div = λ k i d. k;
  ext_set = λ k i e. k;
  cp = λ k l. k;
  set_cells = copy_back;
}

length-copy_back :
    (k : List Cell) (l : List ℕ) (old : List Cell) → length (copy_back k l old) ≡ length k
length-copy_back k [] old = refl
length-copy_back k (i ∷ l) old =
    length-copy_back (set k i (cell_at old i)) l old ∙ length-set k i (cell_at old i)

length-keep_if : (t : Bool) (k : List Cell) (i : ℕ) → length (keep_if t k i).0 ≡ length k
length-keep_if true k i = refl
length-keep_if false k i = length-set k i blank

list_ops-KeepsSize : KeepsSize list_ops
list_ops-KeepsSize = record {
  resize_size = λ k n. length-replicate n blank;
  reset_size = λ k. length-replicate (length k) blank;
  reset_shift_size = λ k. refl;
  rm_size = λ k i. length-set k i blank;
  seq_rm_size = λ k i s. length-set k i blank;
  seq_keep_size = λ k i s. length-keep_if (has (cell_at k i).0 s) k i;
  seq_add_size = λ k i s. length-set k i _;
  pos_set_size = λ k i p. length-set k i _;
  pos_add_size = λ k i d. length-set k i _;
  pos_div_size = λ k i d. refl;
  ext_set_size = λ k i e. refl;
  set_cells_size = λ k l old. length-copy_back k l old;
}

cell_at-set :
    (k : List Cell) (i : ℕ) (v : Cell) (j : ℕ) → i ≢ j → cell_at (set k i v) j ≡ cell_at k j
cell_at-set [] i v j d = refl
cell_at-set (x ∷ k) zero v zero d = absurd (d refl)
cell_at-set (x ∷ k) zero v (suc j) d = refl
cell_at-set (x ∷ k) (suc i) v zero d = refl
cell_at-set (x ∷ k) (suc i) v (suc j) d = cell_at-set k i v j (λ e. d (ap suc e))

set-SameCell :
    (k : List Cell) (i : ℕ) (v : Cell) (j : ℕ) → i ≢ j → SameCell list_ops k (set k i v) j
set-SameCell k i v j d =
    (ap (λ x. no_seqs x.0) (cell_at-set k i v j d), ap (λ x. length x.0) (cell_at-set k i v j d))

list_ops-KeepsOthers : KeepsOthers list_ops
list_ops-KeepsOthers = record {
  rm_others = λ k i j d. set-SameCell k i blank j d;
  seq_add_others = λ k i s j d. set-SameCell k i _ j d;
  pos_set_others = λ k i p j d. set-SameCell k i _ j d;
  ext_set_others = λ k i e j d. (refl, refl);
}

-- No window.
abbrev unmasked : ℤ → ℤ → Bool
unmasked p q = false

-- Four cells, of which the first and the last are taken.
abbrev four : List Cell
four = (0 ∷ [], pos 7) ∷ blank ∷ blank ∷ (0 ∷ [], pos 8) ∷ []

find_in_stream-GoodIdxs_example : GoodIdxs (can_use list_ops unmasked four) 2 4 (1 ∷ 2 ∷ [])
unfolding find_in_stream search_slot test_cells after_tests can_use start_head
find_in_stream-GoodIdxs_example =
    find_in_stream-GoodIdxs list_ops unmasked 2 four 3 (1 ∷ 2 ∷ []) (omega arith) (omega arith)
      (omega arith) refl

find_in_stream-finds_example :
    ((idxs : List ℕ) × (find_in_stream list_ops unmasked 2 false four 3 ≡ found idxs))
    ↔ (2 ≤ length (keep (can_use list_ops unmasked four) (range 0 4)))
find_in_stream-finds_example =
    find_in_stream-finds list_ops unmasked 2 four 3 (omega arith) (omega arith) (omega arith)

find_in_stream-ring_example :
    find_in_stream list_ops unmasked 2 false four 3
    ≡ first_cells 2
        (keep (can_use list_ops unmasked four) (ring 4 4 (start_head list_ops unmasked four 2 3)))
find_in_stream-ring_example =
    find_in_stream-ring list_ops unmasked 2 four 3 (omega arith) (omega arith) (omega arith)

-- The ring from the last cell on.
ring_four : ring 4 4 3 ≡ 3 ∷ 0 ∷ 1 ∷ 2 ∷ []
unfolding ring
ring_four = refl

-- Two consecutive cells are found behind the wrap.
run_found : find_in_stream list_ops unmasked 2 true four 3 ≡ found (1 ∷ 2 ∷ [])
unfolding find_in_stream search_slot test_cells after_tests can_use start_head
run_found = refl

-- Three are not.
run_missing : find_in_stream list_ops unmasked 3 true four 0 ≡ nowhere
unfolding find_in_stream search_slot test_cells after_tests can_use start_head
run_missing = refl

find_in_stream-IsRun_example :
    IsRun list_ops unmasked 2 four (find_in_stream list_ops unmasked 2 true four 3)
find_in_stream-IsRun_example =
    find_in_stream-IsRun list_ops unmasked 2 four 3 (omega arith) (omega arith) (omega arith)
