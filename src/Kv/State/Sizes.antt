-- ===== src/Kv/State/Sizes.antt =====
-- Reading the cells of a stream in `llama_kv_cache::state_read_meta`
-- (code/source/src/llama-kv-cache.cpp) keeps their number.
use gfx906_mixed_cuda_rocm_r.Base.{
  ℕ, zero, suc, ◌+◌, ◌⊎◌, Option, ◌≡◌, refl, ◌∙◌, inl, inr, ◌||◌, none, some, leb, Bool-cases,
  Option-cases,
}
use gfx906_mixed_cuda_rocm_r.Base.Int.{is_negative, pos_part}
use gfx906_mixed_cuda_rocm_r.Kv.{CellOps}
use gfx906_mixed_cuda_rocm_r.Kv.Valid.{KeepsSize}
use gfx906_mixed_cuda_rocm_r.Kv.State.Read.{
  Reader, Status, finished, refused, ended, read_dims, read_seqs, extend_cell, read_cells,
}

pub Status-cases : (t : Status) → (t ≡ finished) ⊎ (t ≡ refused) ⊎ (t ≡ ended)
Status-cases finished = inl refl
Status-cases refused = inr (inl refl)
Status-cases ended = inr (inr refl)

module _ {C E I : Type 0} (ops : CellOps C E) (laws : KeepsSize ops) (reader : Reader I E) where
  open ops use {size, seq_add, pos_set, ext_set}
  open laws use {seq_add_size, pos_set_size, ext_set_size}
  open reader use {read_i32, read_u32, n_seq_max}

  size-read_seqs : (n i : ℕ) (k : C) (io : I) → size (read_seqs ops reader n i k io).0 ≡ size k
  unfolding read_seqs
  size-read_seqs zero i k io = refl
  size-read_seqs (suc n) i k io = elim (Option-cases (read_i32 io)) [
    | inl q ↦ rw (read_seqs, q) refl
    | inr (r, q) ↦ elim (Bool-cases (is_negative r.0 || leb n_seq_max (pos_part r.0))) [
      | inl t ↦ rw (read_seqs, q, t) refl
      | inr t ↦
          rw (read_seqs, q, t)
            (size-read_seqs n i (seq_add k i (pos_part r.0)) r.1 ∙ seq_add_size k i (pos_part r.0))
    ]
  ]

  size-extend_cell : (i : ℕ) (x : Option E) (k : C) → size (extend_cell ops reader i x k) ≡ size k
  unfolding extend_cell
  size-extend_cell i none k = refl
  size-extend_cell i (some x) k = ext_set_size k i x

  pub size-read_cells :
      (n i : ℕ) (k : C) (io : I) → size (read_cells ops reader n i k io).0 ≡ size k
  unfolding read_cells
  size-read_cells zero i k io = refl
  size-read_cells (suc n) i k io = elim (Option-cases (read_i32 io)) [
    | inl q ↦ rw (read_cells, q) refl
    | inr (p, q) ↦ elim (Option-cases (read_u32 p.1)) [
      | inl q1 ↦ rw (read_cells, q, q1) refl
      | inr (m, q1) ↦ elim (Option-cases (read_dims ops reader m.1)) [
        | inl q2 ↦ rw (read_cells, q, q1, q2) (pos_set_size k i p.0)
        | inr (x, q2) ↦
            let k' : C = extend_cell ops reader i x.0 (pos_set k i p.0) in
            let r : C × Status × I = read_seqs ops reader m.0 i k' x.1 in
            let same : size r.0 ≡ size k =
              size-read_seqs m.0 i k' x.1
              ∙ (size-extend_cell i x.0 (pos_set k i p.0) ∙ pos_set_size k i p.0) in
            elim (Status-cases r.1) [
              | inl t ↦ rw (read_cells, q, q1, q2, t) (size-read_cells n (i + 1) r.0 r.2 ∙ same)
              | inr (inl t) ↦ rw (read_cells, q, q1, q2, t) same
              | inr (inr t) ↦ rw (read_cells, q, q1, q2, t) same
            ]
      ]
    ]
  ]
