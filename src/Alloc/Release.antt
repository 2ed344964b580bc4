-- ===== src/Alloc/Release.antt =====
-- `ggml_dyn_tallocr_free_bytes` on the free list of one chunk (code/source/ggml/src/ggml-alloc.c).
use gfx906_mixed_cuda_rocm_r.Base.{
  ℕ, suc, ◌+◌, ◌≤◌, ◌<◌, ◌≡◌, refl, ◌≢◌, inl, inr, Option, none, some, List, [], ◌∷◌, arith, ◌==◌,
  length, Option-cases, Bool-cases,
}
use mathlib.Core.Path.{subst}
use gfx906_mixed_cuda_rocm_r.Alloc.{
  Block, size_mod, insert_sorted, insert_block, merge_next, merge_prev, merge_blocks, with_prev,
  free_blocks_bytes, add64, max_free_blocks,
}
use gfx906_mixed_cuda_rocm_r.Alloc.Blocks.{Sorted, Apart, covers, inside, covers-insert}

covers-merge_next :
    (x lo addr size : ℕ) (b : Block) (bs : List Block)
    → 0 < size
    → Sorted lo (b ∷ bs)
    → Apart addr size (b ∷ bs)
    → addr + size < size_mod
    → b.offset + b.size ≡ addr
    → covers x (merge_next (record b { size = add64 b.size size }) bs)
      ≡ inside addr size x + covers x (b ∷ bs)
unfolding merge_next
covers-merge_next x lo addr size b [] pos s a fits e = ground arith
covers-merge_next x lo addr size b (n ∷ bs) pos s a fits e = ground arith

merge_next-Sorted :
    (lo addr size : ℕ) (b : Block) (bs : List Block)
    → 0 < size
    → Sorted lo (b ∷ bs)
    → Apart addr size (b ∷ bs)
    → addr + size < size_mod
    → b.offset + b.size ≡ addr
    → Sorted lo (merge_next (record b { size = add64 b.size size }) bs)
unfolding merge_next
merge_next-Sorted lo addr size b [] pos s a fits e = ground arith
merge_next-Sorted lo addr size b (n ∷ bs) pos s a fits e = ground arith

covers-merge_prev :
    (x lo addr size : ℕ) (prev : Option Block) (b : Block) (bs : List Block)
    → 0 < size
    → Sorted lo (with_prev prev (b ∷ bs))
    → Apart addr size (with_prev prev (b ∷ bs))
    → addr + size ≡ b.offset
    → covers x (merge_prev prev (record { offset = addr; size = add64 b.size size }) bs)
      ≡ inside addr size x + covers x (with_prev prev (b ∷ bs))
unfolding merge_prev
covers-merge_prev x lo addr size none b bs pos s a e = ground arith
covers-merge_prev x lo addr size (some p) b bs pos s a e = ground arith

merge_prev-Sorted :
    (lo addr size : ℕ) (prev : Option Block) (b : Block) (bs : List Block)
    → lo ≤ addr
    → 0 < size
    → Sorted lo (with_prev prev (b ∷ bs))
    → Apart addr size (with_prev prev (b ∷ bs))
    → addr + size ≡ b.offset
    → Sorted lo (merge_prev prev (record { offset = addr; size = add64 b.size size }) bs)
unfolding merge_prev
merge_prev-Sorted lo addr size none b bs h pos s a e = ground arith
merge_prev-Sorted lo addr size (some p) b bs h pos s a e = ground arith

-- What a successful merge does.
record Merged (lo addr size : ℕ) (old new : List Block) : Type 0 where
  sorted : Sorted lo new
  bytes : (x : ℕ) → covers x new ≡ inside addr size x + covers x old

Merged-cons :
    (lo addr size : ℕ) (p : Block) (old new : List Block)
    → Sorted lo (p ∷ old)
    → Merged (suc (p.offset + p.size)) addr size old new
    → Merged lo addr size (p ∷ old) (p ∷ new)
Merged-cons lo addr size p old new s m = record {
  sorted = (s.0, s.1, s.2, m.sorted);
  bytes = λ x. omega (arith, m.bytes x);
}

-- No block behind freed bytes touches them.
merge_behind :
    (lo addr size : ℕ) (prev : Option Block) (bs : List Block)
    → 0 < size
    → addr + size < size_mod
    → addr + size < lo
    → Sorted lo bs
    → merge_blocks addr size prev bs ≡ none
unfolding merge_blocks
merge_behind lo addr size prev [] pos fits h s = refl
merge_behind lo addr size prev (b ∷ bs) pos fits h s =
    ground (arith, merge_behind (suc (b.offset + b.size)) addr size (some b) bs)

-- The block before the current one does not end where the freed bytes begin.
abbrev Passed : ℕ → Option Block → Type 0
Passed addr none = Unit {0}
Passed addr (some p) = p.offset + p.size ≢ addr

grown_up :
    (lo addr size : ℕ) (prev : Option Block) (b : Block) (bs : List Block)
    → 0 < size
    → addr + size < size_mod
    → Sorted lo (with_prev prev (b ∷ bs))
    → Apart addr size (with_prev prev (b ∷ bs))
    → add64 b.offset b.size ≡ addr
    → Merged lo addr size
        (with_prev prev (b ∷ bs))
        (with_prev prev (merge_next (record b { size = add64 b.size size }) bs))
grown_up lo addr size none b bs pos fits s a t = record {
  sorted = merge_next-Sorted lo addr size b bs pos s a fits (omega arith);
  bytes = λ x. covers-merge_next x lo addr size b bs pos s a fits (omega arith);
}
grown_up lo addr size (some p) b bs pos fits s a t =
    let lo' = suc (p.offset + p.size) in
    Merged-cons lo addr size p (b ∷ bs) _ s (record {
      sorted = merge_next-Sorted lo' addr size b bs pos s.3 a.1 fits (omega arith);
      bytes = λ x. covers-merge_next x lo' addr size b bs pos s.3 a.1 fits (omega arith);
    })

grown_down :
    (lo addr size : ℕ) (prev : Option Block) (b : Block) (bs : List Block)
    → lo ≤ addr
    → 0 < size
    → addr + size < size_mod
    → Sorted lo (with_prev prev (b ∷ bs))
    → Apart addr size (with_prev prev (b ∷ bs))
    → add64 addr size ≡ b.offset
    → Merged lo addr size
        (with_prev prev (b ∷ bs))
        (merge_prev prev (record { offset = addr; size = add64 b.size size }) bs)
grown_down lo addr size prev b bs h pos fits s a t = record {
  sorted = merge_prev-Sorted lo addr size prev b bs h pos s a (omega arith);
  bytes = λ x. covers-merge_prev x lo addr size prev b bs pos s a (omega arith);
}

-- One round of the loop, given what the later rounds do.
merge_round :
    (lo addr size : ℕ) (prev : Option Block) (b : Block) (bs new : List Block)
    → lo ≤ addr
    → 0 < size
    → addr + size < size_mod
    → Sorted lo (with_prev prev (b ∷ bs))
    → Apart addr size (with_prev prev (b ∷ bs))
    → merge_blocks addr size prev (b ∷ bs) ≡ some new
    → ((rest : List Block)
        → b.offset + b.size ≢ addr
        → merge_blocks addr size (some b) bs ≡ some rest
        → Merged lo addr size (with_prev prev (b ∷ bs)) (with_prev prev rest))
    → Merged lo addr size (with_prev prev (b ∷ bs)) new
unfolding merge_blocks
merge_round lo addr size prev b bs new h pos fits s a e later =
    elim (Bool-cases (add64 b.offset b.size == addr)) [
      | inl t ↦
          subst (Merged lo addr size (with_prev prev (b ∷ bs))) (ground arith)
            (grown_up lo addr size prev b bs pos fits s a (ground arith))
      | inr f ↦ elim (Bool-cases (add64 addr size == b.offset)) [
        | inl t ↦
            subst (Merged lo addr size (with_prev prev (b ∷ bs))) (ground arith)
              (grown_down lo addr size prev b bs h pos fits s a (ground arith))
        | inr g ↦ elim (Option-cases (merge_blocks addr size (some b) bs)) [
          | inl n ↦ absurd (ground arith)
          | inr (rest, r) ↦
              subst (Merged lo addr size (with_prev prev (b ∷ bs))) (ground arith)
                (later rest (ground arith) r)
        ]
      ]
    ]

merge_blocks-Merged :
    (lo addr size : ℕ) (prev : Option Block) (bs new : List Block)
    → lo ≤ addr
    → 0 < size
    → addr + size < size_mod
    → Passed addr prev
    → Sorted lo (with_prev prev bs)
    → Apart addr size (with_prev prev bs)
    → merge_blocks addr size prev bs ≡ some new
    → Merged lo addr size (with_prev prev bs) new
unfolding merge_blocks
merge_blocks-Merged lo addr size prev [] new h pos fits q s a e = absurd (ground arith)
merge_blocks-Merged lo addr size none (b ∷ bs) new h pos fits q s a e =
    merge_round lo addr size none b bs new h pos fits s a e
      λ rest ne r. merge_blocks-Merged lo addr size (some b) bs rest h pos fits ne s a r
merge_blocks-Merged lo addr size (some p) (b ∷ bs) new h pos fits q s a e =
    merge_round lo addr size (some p) b bs new h pos fits s a e λ rest ne r. elim a.0 [
      | inl before ↦ Merged-cons lo addr size p (b ∷ bs) rest s (
          merge_blocks-Merged (suc (p.offset + p.size)) addr size (some b) bs rest (omega arith) pos
            fits ne s.3 a.1 r)
      | inr behind ↦
          absurd (ground (arith, merge_behind (suc (b.offset + b.size)) addr size (some b) bs))
    ]

insert_sorted-Sorted :
    (lo addr size : ℕ) (prev : Option Block) (bs : List Block)
    → lo ≤ addr
    → 0 < size
    → addr + size < size_mod
    → Sorted lo bs
    → Apart addr size bs
    → merge_blocks addr size prev bs ≡ none
    → Sorted lo (insert_sorted (record { offset = addr; size = size }) bs)
unfolding merge_blocks insert_sorted
insert_sorted-Sorted lo addr size prev [] h pos fits s a e = (h, pos, fits, tt)
insert_sorted-Sorted lo addr size prev (b ∷ bs) h pos fits s a e =
    ground (arith, insert_sorted-Sorted (suc (b.offset + b.size)) addr size (some b) bs)

-- Freeing bytes that are not free, at least one and within the address space: unless the array of
-- free blocks is full, it succeeds, the list stays in order with no two blocks touching, and the
-- free bytes are the old ones and those freed, each once.
pub free_blocks_bytes_lem :
    (bs : List Block) (addr size : ℕ)
    → length bs < max_free_blocks
    → 0 < size
    → addr + size < size_mod
    → Sorted 0 bs
    → Apart addr size bs
    → (new : List Block) × (free_blocks_bytes bs addr size ≡ some new)
      × Sorted 0 new
      × ((x : ℕ) → covers x new ≡ inside addr size x + covers x bs)
unfolding free_blocks_bytes insert_block
free_blocks_bytes_lem bs addr size room pos fits s a =
    elim (Option-cases (merge_blocks addr size none bs)) [
      | inl e ↦ (
        insert_sorted (record { offset = addr; size = size }) bs,
        rw (e, free_blocks_bytes) (ground arith),
        insert_sorted-Sorted 0 addr size none bs (omega arith) pos fits s a e,
        λ x. covers-insert x (record { offset = addr; size = size }) bs,
      )
      | inr (new, e) ↦
          let m = merge_blocks-Merged 0 addr size none bs new (omega arith) pos fits tt s a e in
          (new, rw (e, free_blocks_bytes), m.sorted, m.bytes)
    ]
