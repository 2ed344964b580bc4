-- ===== src/Kv/Valid/Placed.antt =====
-- A slot that `llama_kv_cache::find_slot` finds can be used by `apply_ubatch`
-- (code/source/src/llama-kv-cache.cpp).
use gfx906_mixed_cuda_rocm_r.Base.{
  ℕ, zero, suc, get_elem?-lt, ◌+◌, ◌≤◌, ◌<◌, ◌≡◌, refl, sym, ap, ◌∙◌, inl, inr, Bool, true, false,
  ◌||◌, some, List, [], ◌∷◌, length, get_elem?, get_or, set, length-set, take, leb, le→leb, All,
  All-get_elem?, Bool-cases, Option-cases, arith,
}
use gfx906_mixed_cuda_rocm_r.Base.Int.{ℤ}
use gfx906_mixed_cuda_rocm_r.Kv.{CellOps, Cache}
use gfx906_mixed_cuda_rocm_r.Kv.Slot.{
  Ubatch, SlotInfo, find_slot, find_streams, find_in_stream, found, can_use, one_sequence,
  empty_info, max_seq, add32,
}
use gfx906_mixed_cuda_rocm_r.Kv.Slot.Found.{GoodIdxs, find_in_stream-GoodIdxs}
use gfx906_mixed_cuda_rocm_r.Kv.Batch.{apply_ubatch, is_empty_list, back}
use gfx906_mixed_cuda_rocm_r.Kv.Valid.{KeepsSize, IsValid, All-get_or}
use gfx906_mixed_cuda_rocm_r.Kv.Valid.Batch.{Within, back-All, apply_ubatch-IsValid}
use gfx906_mixed_cuda_rocm_r.Kv.Valid.Slots.{Outcome-cases}
use gfx906_mixed_cuda_rocm_r.Kv.Valid.Cells.{KeepsOthers, can_place}
use gfx906_mixed_cuda_rocm_r.Kv.Valid.Total.{apply_ubatch_total}
use mathlib.Core.Option.{some-injective}
use mathlib.Core.Path.{subst}

-- The slot of one stream that a search of its cells gave.
record OneSlot {C E : Type 0} (ops : CellOps C E) (masked : ℤ → ℤ → Bool) (c : Cache C) (m : ℕ)
    (slot : SlotInfo) : Type 0 where
  stream : ℕ
  cells : C
  idxs : List ℕ
  there : get_elem? c.v_cells stream ≡ some cells
  search : find_in_stream ops masked m false cells (get_or c.v_heads stream 0) ≡ found idxs
  strm_is : slot.strm ≡ stream ∷ []
  idxs_is : slot.idxs ≡ idxs ∷ []

set_one : (heads : List ℕ) (i x : ℕ) → length heads ≡ 1 → i < 1 → set heads i x ≡ x ∷ []
set_one [] i x h b = absurd (omega (arith, h))
set_one (y ∷ []) zero x h b = refl
set_one (y ∷ []) (suc i) x h b = absurd (omega (arith, b))
set_one (y ∷ z ∷ ys) i x h b = absurd (omega (arith, h))

one_head :
    (heads old : List ℕ) (i x y : ℕ)
    → heads ≡ set old i x
    → length heads ≡ 1
    → i < 1
    → x ≡ y
    → heads ≡ y ∷ []
one_head heads old i x y e h b d =
    e ∙ set_one old i x (sym (length-set old i x) ∙ (ap length (sym e) ∙ h)) b ∙ ap (λ z. z ∷ []) d

module _ {C E : Type 0} (ops : CellOps C E) (laws : KeepsSize ops) (others : KeepsOthers ops)
    (masked : ℤ → ℤ → Bool) (c : Cache C) (ub : Ubatch) where
  open ops use {size, is_empty, seq_count}

  usable_placed :
      (k : C) (l : List ℕ)
      → All (λ i. can_use ops masked k i ≡ true) l
      → All (λ i. can_place ops k i ≡ true) l
  unfolding can_use
  usable_placed k [] a = tt
  usable_placed k (i ∷ l) a = (ground (arith, a.0), usable_placed k l a.1)

  find_streams-OneSlot :
      (m : ℕ) (seqs : List ℕ) (slot : SlotInfo)
      → find_streams ops masked c ub m false 0 (take 1 seqs) (empty_info ops masked) ≡ some slot
      → is_empty_list slot.idxs ≡ false
      → OneSlot ops masked c m slot
  unfolding find_streams
  find_streams-OneSlot m [] slot e f =
      cc (ap (λ x. is_empty_list x.idxs) (some-injective _ _ e) ∙ f)
  find_streams-OneSlot m (q ∷ seqs) slot e f =
      elim (Bool-cases (leb (length c.v_cells) 1 || one_sequence ops masked ub m 0 q)) [
        | inr t ↦ cc (rw (find_streams, t) at e)
        | inl t ↦ elim (Option-cases (get_elem? c.seq_to_stream q)) [
          | inl a ↦ cc (rw (find_streams, t, a) at e)
          | inr a ↦ elim (Option-cases (get_elem? c.v_cells a.0)) [
            | inl b ↦ cc (rw (find_streams, t, a.1, b) at e)
            | inr b ↦
                elim (Outcome-cases
                  (find_in_stream ops masked m false b.0 (get_or c.v_heads a.0 0))) [
                    | inl r ↦ cc (
                        ap (λ x. is_empty_list x.idxs)
                          (some-injective _ _ (rw (find_streams, t, a.1, b.1, r) at e))
                        ∙ f)
                    | inr (inl r) ↦ cc (rw (find_streams, t, a.1, b.1, r) at e)
                    | inr (inr r) ↦
                        let s = some-injective _ _ (rw (find_streams, t, a.1, b.1, r.1) at e) in
                        record {
                          stream = a.0;
                          cells = b.0;
                          idxs = r.0;
                          there = b.1;
                          search = r.1;
                          strm_is = sym (ap (λ x. x.strm) s);
                          idxs_is = sym (ap (λ x. x.idxs) s);
                        }
                  ]
          ]
        ]
      ]

  -- In a valid cache with one stream of fewer than 2 ^ 30 cells and at least 256 sequences, whose cells
  -- keep what the others hold when one is written, take a slot of single cells that is found for a batch
  -- of one or more tokens and is not empty. The placement of the batch in it passes every assertion: as
  -- many cells as tokens, each empty or of one sequence when its turn comes, and a stream for each
  -- sequence that is purged. The head of the stream is then behind the last cell of the slot.
  pub find_slot-apply_ubatch :
      (n : ℕ) (slot : SlotInfo)
      → n < 1073741824
      → IsValid ops n 1 c
      → max_seq ≤ length c.seq_to_stream
      → 1 ≤ ub.n_tokens
      → find_slot ops masked c ub false ≡ some slot
      → is_empty_list slot.idxs ≡ false
      → (c' : Cache C) × (last : ℕ) × (apply_ubatch ops slot ub c ≡ some c')
        × (back (get_or slot.idxs 0 []) ≡ some last)
        × (last < n)
        × (c'.v_heads ≡ (last + 1) ∷ [])
  unfolding find_slot GoodIdxs Within
  find_slot-apply_ubatch n slot z v k o e f =
      let h : OneSlot ops masked c ub.n_tokens slot =
        find_streams-OneSlot ub.n_tokens ub.seq_id_unq slot
          (rw (find_slot, le→leb (length c.v_cells) 1 (omega (arith, v.n_streams))) at e) f in
      let st_0 : h.stream < 1 =
        omega (arith, get_elem?-lt c.v_cells h.stream h.cells h.there, v.n_streams) in
      let k_size : size h.cells ≡ n =
        All-get_elem? (λ x. size x ≡ n) c.v_cells h.stream h.cells v.sizes h.there in
      let good : GoodIdxs (can_use ops masked h.cells) ub.n_tokens (size h.cells) h.idxs =
        find_in_stream-GoodIdxs ops masked ub.n_tokens h.cells (get_or c.v_heads h.stream 0) h.idxs
          (omega (arith, k_size, z))
          (rw k_size (All-get_or (λ x. x ≤ n) c.v_heads h.stream 0 v.heads (omega arith))) o
          h.search in
      let placed =
        apply_ubatch_total ops others slot ub c h.stream h.cells h.idxs h.strm_is h.idxs_is h.there
          (omega (arith, good.0, o)) (sym good.0) good.3 (usable_placed h.cells h.idxs good.2) k
          v.streams in
      let last = placed.1 in
      let last_below : last < n =
        subst (λ x. last < x) k_size
          (back-All (λ i. i < size h.cells) h.idxs last good.1 placed.4) in
      let within : Within n slot.idxs = rw h.idxs_is (rw k_size at good.1, tt) in
      let valid : IsValid ops n 1 placed.0 =
        apply_ubatch-IsValid ops laws n 1 slot ub c placed.0 v within placed.3 in
      let head_is : add32 last 1 ≡ last + 1 = omega (arith, last_below, z) in
      (
        placed.0,
        last,
        placed.3,
        subst (λ x. back (get_or x 0 []) ≡ some last) (sym h.idxs_is) placed.4,
        last_below,
        one_head placed.0.v_heads placed.2 h.stream (add32 last 1) (last + 1) placed.5
            (valid.lengths ∙ valid.n_streams) st_0 head_is,
      )
