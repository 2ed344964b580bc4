-- ===== src/Kv/State/Written.antt =====
-- What `llama_kv_cache::state_write` (code/source/src/llama-kv-cache.cpp) writes for a stream, as the entries
-- of the chosen cells.
use gfx906_mixed_cuda_rocm_r.Base.{
  ℕ, zero, suc, ◌+◌, ◌-◌, ◌≡◌, refl, ap, sym, ◌∙◌, Bool, some, List, [], ◌∷◌, ◌++◌, map, length,
  ◌==◌, ==-ne, ==_iff, if◌then◌else◌, arith,
}
use gfx906_mixed_cuda_rocm_r.Base.Int.{ℤ}
use gfx906_mixed_cuda_rocm_r.Kv.{CellOps}
use gfx906_mixed_cuda_rocm_r.Kv.Slot.Ring.{range, keep}
use gfx906_mixed_cuda_rocm_r.Kv.State.{
  cell_ranges, count_check, chosen, pack_stream, write_stream, write_range, write_cell,
  state_write_meta,
}
use gfx906_mixed_cuda_rocm_r.Kv.State.Ranges.{cells_in, count_check-cells_in, cell_ranges_lem}

map-append {ℓ} :
    {A B : Type ℓ} (f : A → B) (xs ys : List A) → map f (xs ++ ys) ≡ map f xs ++ map f ys
map-append f [] ys = refl
map-append f (x ∷ xs) ys = ap (λ l. f x ∷ l) (map-append f xs ys)

module _ {C E : Type 0} (ops : CellOps C E) (n_seq_max : ℕ) (pos_2d : Bool) where
  open ops use {size}

  write_range-map :
      (s : ℤ) (k : C) (n i : ℕ)
      → write_range ops n_seq_max pos_2d s k n i
        ≡ map (write_cell ops n_seq_max pos_2d s k) (range i n)
  unfolding write_range range
  write_range-map s k zero i = refl
  write_range-map s k (suc n) i =
      ap (λ l. write_cell ops n_seq_max pos_2d s k i ∷ l) (write_range-map s k n (i + 1))

  state_write_meta-map :
      (s : ℤ) (k : C) (rs : List (ℕ × ℕ))
      → state_write_meta ops n_seq_max pos_2d s k rs
        ≡ map (write_cell ops n_seq_max pos_2d s k) (cells_in rs)
  unfolding state_write_meta cells_in
  state_write_meta-map s k [] = refl
  state_write_meta-map s k (r ∷ rs) =
      ap (λ l. l ++ state_write_meta ops n_seq_max pos_2d s k rs)
        (write_range-map s k (r.1 - r.0) r.0)
      ∙ ap (λ l. map (write_cell ops n_seq_max pos_2d s k) (range r.0 (r.1 - r.0)) ++ l)
          (state_write_meta-map s k rs)
      ∙ sym (map-append (write_cell ops n_seq_max pos_2d s k) (range r.0 (r.1 - r.0)) (cells_in rs))

  metas_lem :
      (s : ℤ) (k : C) (r : ℕ × List (ℕ × ℕ)) (l : List ℕ)
      → cells_in r.1 ≡ l
      → r.0 ≡ length l
      → (if r.0 == 0 then [] else state_write_meta ops n_seq_max pos_2d s k r.1)
        ≡ map (write_cell ops n_seq_max pos_2d s k) l
  metas_lem s k r [] q c = rw (c) refl
  metas_lem s k r (x ∷ xs) q c =
      rw (==-ne r.0 0 (omega (arith, c)))
        (state_write_meta-map s k r.1 ∙ ap (map (write_cell ops n_seq_max pos_2d s k)) q)

  pack_stream_lem :
      (s : ℤ) (k : C) (r : ℕ × List (ℕ × ℕ)) (l : List ℕ)
      → cells_in r.1 ≡ l
      → r.0 ≡ length l
      → pack_stream ops n_seq_max pos_2d s k r
        ≡ some
            (record { cell_count = length l; metas = map (write_cell ops n_seq_max pos_2d s k) l })
  unfolding pack_stream
  pack_stream_lem s k r l q c =
      rw
        (
          pack_stream,
          (==_iff r.0 (count_check r.1)).1 (c ∙ ap length (sym q) ∙ sym (count_check-cells_in r.1)),
        )
        (ap (λ x. some (record { cell_count = x.0; metas = x.1 })) (pair c (metas_lem s k r l q c)))
    where
      pair : {A B : Type 0} {a a' : A} {b b' : B} → a ≡ a' → b ≡ b' → Path (A × B) (a, b) (a', b')
      pair p q = λ i. (p i, q i)

  -- The state of a stream is always written: the count that is asserted agrees with the ranges, and the
  -- entries are those of the chosen cells, each once and in order.
  pub write_stream_lem :
      (s : ℤ) (k : C)
      → write_stream ops n_seq_max pos_2d s k
        ≡ some (record {
          cell_count = length (keep (chosen ops n_seq_max pos_2d s k) (range 0 (size k)));
          metas =
              map
                (write_cell ops n_seq_max pos_2d s k)
                (keep (chosen ops n_seq_max pos_2d s k) (range 0 (size k)));
        })
  unfolding write_stream
  write_stream_lem s k =
      let c : ℕ → Bool = chosen ops n_seq_max pos_2d s k in
      pack_stream_lem s k (cell_ranges c (size k)) (keep c (range 0 (size k)))
        (cell_ranges_lem c (size k)).0 (cell_ranges_lem c (size k)).1
