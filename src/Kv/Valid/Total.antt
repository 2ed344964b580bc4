-- ===== src/Kv/Valid/Total.antt =====
-- `llama_kv_cache::apply_ubatch` (code/source/src/llama-kv-cache.cpp) does not abort on a slot of the
-- right shape in a valid cache.
use gfx906_mixed_cuda_rocm_r.Base.{
  ℕ, ◌+◌, ◌*◌, ◌≤◌, ◌<◌, ◌≡◌, true, ◌==◌, refl, sym, inl, inr, some, List, [], ◌∷◌, length,
  get_elem?, get_elem?-some, get_or, set, length-set, length-replicate, All, All-get_elem?,
  Bool-cases, arith,
}
use gfx906_mixed_cuda_rocm_r.Base.Int.{ℤ, pos, negsuc, ◌+ℤ◌, lt_int}
use gfx906_mixed_cuda_rocm_r.Kv.{
  CellOps, Cache, on_stream, on_sequence, swept, visit_rm, from_start, to_end, cache_seq_rm,
}
use gfx906_mixed_cuda_rocm_r.Kv.Slot.{Ubatch, SlotInfo, add32, max_seq}
use gfx906_mixed_cuda_rocm_r.Kv.Batch.{
  place_cells, place_streams, purge_seq, purge, move_heads, apply_ubatch, back, slot_size,
  is_minus_one, no_maxs,
}
use gfx906_mixed_cuda_rocm_r.Kv.Slot.Ring.{Distinct}
use gfx906_mixed_cuda_rocm_r.Kv.Valid.Cells.{KeepsOthers, can_place, place_cells_total}
use mathlib.Core.Path.{subst}

-- Every sequence has a stream that is there.
record Mapped {C : Type 0} (m : ℕ) (c : Cache C) : Type 0 where
  enough : m ≤ length c.seq_to_stream
  streams : All (λ s. s < length c.v_cells) c.seq_to_stream

back-some : (l : List ℕ) → 1 ≤ length l → (x : ℕ) × (back l ≡ some x)
back-some [] h = absurd (omega arith)
back-some (x ∷ []) h = (x, refl)
back-some (x ∷ y ∷ l) h = back-some (y ∷ l) (omega arith)

module _ {C E : Type 0} (ops : CellOps C E) where
  open ops use {seq_pos_min, is_empty, seq_count, seq_get, seq_add, pos_set, ext_set, make_ext}

  -- A cache with the streams of another.
  SameStreams : Cache C → Cache C → Type 0
  SameStreams c d = (d.seq_to_stream ≡ c.seq_to_stream) × (length d.v_cells ≡ length c.v_cells)

  Mapped-SameStreams : (m : ℕ) (c d : Cache C) → Mapped m c → SameStreams c d → Mapped m d
  unfolding SameStreams
  Mapped-SameStreams m c d v s = record {
    enough = subst (λ x. m ≤ length x) (sym s.0) v.enough;
    streams =
        subst (λ x. All (λ i. i < length d.v_cells) x) (sym s.0)
          (subst (λ k. All (λ i. i < k) c.seq_to_stream) (sym s.1) v.streams);
  }

  on_stream_total :
      (s : ℕ) (f : C → ℕ → C × ℕ) (c : Cache C)
      → s < length c.v_cells
      → (d : Cache C) × (on_stream ops s f c ≡ some d) × SameStreams c d
  unfolding on_stream SameStreams
  on_stream_total s f c b =
      let q : (k : C) × (get_elem? c.v_cells s ≡ some k) = get_elem?-some c.v_cells s b in
      let r : C × ℕ = f q.0 (get_or c.v_heads s 0) in
      (
        record c { v_cells = set c.v_cells s r.0; v_heads = set c.v_heads s r.1 },
        rw (on_stream, q.1),
        (refl, length-set c.v_cells s r.0),
      )

  cache_seq_rm_total :
      (m s : ℕ) (p0 p1 : ℤ) (c : Cache C)
      → Mapped m c
      → s < m
      → (d : Cache C) × (cache_seq_rm ops (pos s) p0 p1 c ≡ some d) × SameStreams c d
  unfolding cache_seq_rm on_sequence
  cache_seq_rm_total m s p0 p1 c v b =
      let q : (st : ℕ) × (get_elem? c.seq_to_stream s ≡ some st) =
        get_elem?-some c.seq_to_stream s (omega (arith, v.enough)) in
      let f : C → ℕ → C × ℕ = swept ops (visit_rm ops s (from_start p0) (to_end p1)) in
      let r : (d : Cache C) × (on_stream ops q.0 f c ≡ some d) × SameStreams c d =
        on_stream_total q.0 f c
          (All-get_elem? (λ i. i < length c.v_cells) c.seq_to_stream s q.0 v.streams q.1) in
      (r.0, rw (on_sequence, q.1) r.1, r.2)

  purge_seq_total :
      (n s : ℕ) (m : ℤ) (c : Cache C)
      → Mapped n c
      → s < n
      → (d : Cache C) × (purge_seq ops s m c ≡ some d) × SameStreams c d
  unfolding purge_seq SameStreams
  purge_seq_total n s m c v b =
      let q : (st : ℕ) × (get_elem? c.seq_to_stream s ≡ some st) =
        get_elem?-some c.seq_to_stream s (omega (arith, v.enough)) in
      let p : (k : C) × (get_elem? c.v_cells q.0 ≡ some k) =
        get_elem?-some c.v_cells q.0
          (All-get_elem? (λ i. i < length c.v_cells) c.seq_to_stream s q.0 v.streams q.1) in
      elim (Bool-cases (lt_int m (seq_pos_min p.0 s))) [
        | inl t ↦ (c, rw (purge_seq, q.1, p.1, t), (refl, refl))
        | inr t ↦
            let r : (d : Cache C) × (cache_seq_rm ops (pos s) (seq_pos_min p.0 s) (m +ℤ pos 1) c
                  ≡ some d)
                × SameStreams c d =
              cache_seq_rm_total n s (seq_pos_min p.0 s) (m +ℤ pos 1) c v b in
            (r.0, rw (purge_seq, q.1, p.1, t) r.1, r.2)
      ]

  purge_total :
      (n s : ℕ) (ms : List ℤ) (c : Cache C)
      → Mapped n c
      → s + length ms ≤ n
      → (d : Cache C) × (purge ops s ms c ≡ some d)
  unfolding purge
  purge_total n s [] c v b = (c, refl)
  purge_total n s (m ∷ ms) c v b = elim (Bool-cases (is_minus_one m)) [
    | inl t ↦
        let rest : (d : Cache C) × (purge ops (s + 1) ms c ≡ some d) =
          purge_total n (s + 1) ms c v (omega arith) in
        (rest.0, rw (purge, t) rest.1)
    | inr t ↦
        let q : (d : Cache C) × (purge_seq ops s m c ≡ some d) × SameStreams c d =
          purge_seq_total n s m c v (omega arith) in
        let rest : (d : Cache C) × (purge ops (s + 1) ms q.0 ≡ some d) =
          purge_total n (s + 1) ms q.0 (Mapped-SameStreams n c q.0 v q.2) (omega arith) in
        (rest.0, rw (purge, t, q.1) rest.1)
  ]

  place_one :
      (ub : Ubatch) (m st : ℕ) (l : List ℕ) (c : Cache C) (k : C) (maxs : List ℤ) (r : C × List ℤ)
      → get_elem? c.v_cells st ≡ some k
      → place_cells ops ub m (0 * m) l k maxs ≡ some r
      → place_streams ops ub m 0 (st ∷ []) (l ∷ []) c maxs
        ≡ some (record c { v_cells = set c.v_cells st r.0 }, r.1)
  unfolding place_streams
  place_one ub m st l c k maxs r ek er = rw (place_streams, ek, er) refl

  heads_one :
      (st : ℕ) (l : List ℕ) (c : Cache C) (x : ℕ)
      → back l ≡ some x
      → move_heads ops (st ∷ []) (l ∷ []) c
        ≡ some (record c { v_heads = set c.v_heads st (add32 x 1) })
  unfolding move_heads
  heads_one st l c x e = rw (move_heads, e) refl

  apply_ubatch_parts :
      (slot : SlotInfo) (ub : Ubatch) (c : Cache C) (r : Cache C × List ℤ) (q d : Cache C)
      → ub.n_tokens ≡ length slot.strm * slot_size slot
      → place_streams ops ub (slot_size slot) 0 slot.strm slot.idxs c (no_maxs ops) ≡ some r
      → purge ops 0 r.1 r.0 ≡ some q
      → move_heads ops slot.strm slot.idxs q ≡ some d
      → apply_ubatch ops slot ub c ≡ some d
  unfolding apply_ubatch
  apply_ubatch_parts slot ub c r q d n_is placed purged moved =
      let t : (ub.n_tokens == length slot.strm * slot_size slot) ≡ true = ground (arith, n_is) in
      rw (apply_ubatch, t, placed, purged) moved

  -- The placement of a batch in cells of one stream does not abort, in a cache whose sequences all
  -- have a stream that is there, when there are as many cells as tokens, no two the same, and each is
  -- empty or of one sequence; the head of the stream is then behind the last of the cells.
  pub apply_ubatch_total :
      (others : KeepsOthers ops) (slot : SlotInfo) (ub : Ubatch) (c : Cache C) (st : ℕ) (k : C)
      (l : List ℕ)
      → slot.strm ≡ st ∷ []
      → slot.idxs ≡ l ∷ []
      → get_elem? c.v_cells st ≡ some k
      → 1 ≤ length l
      → ub.n_tokens ≡ length l
      → Distinct l
      → All (λ j. can_place ops k j ≡ true) l
      → max_seq ≤ length c.seq_to_stream
      → All (λ s. s < length c.v_cells) c.seq_to_stream
      → (d : Cache C) × (last : ℕ) × (heads : List ℕ) × (apply_ubatch ops slot ub c ≡ some d)
        × (back l ≡ some last)
        × (d.v_heads ≡ set heads st (add32 last 1))
  apply_ubatch_total others slot ub c st k l es el ek some_cells en dis can e a =
      let p : (r : C × List ℤ) × (place_cells ops ub (length l) (0 * length l) l k (no_maxs ops)
            ≡ some r)
          × (length r.1 ≡ length (no_maxs ops)) =
        place_cells_total ops others ub (length l) (0 * length l) l k (no_maxs ops) (omega arith)
          dis can in
      let placed : Cache C = record c { v_cells = set c.v_cells st p.0.0 } in
      let v : Mapped max_seq placed = record {
        enough = e;
        streams =
            subst (λ m. All (λ i. i < m) c.seq_to_stream) (sym (length-set c.v_cells st p.0.0)) a;
      } in
      let q : (d : Cache C) × (purge ops 0 p.0.1 placed ≡ some d) =
        purge_total max_seq 0 p.0.1 placed v
          (omega (arith, p.2, length-replicate max_seq (negsuc 0))) in
      let r : (x : ℕ) × (back l ≡ some x) = back-some l some_cells in
      (
        record q.0 { v_heads = set q.0.v_heads st (add32 r.0 1) },
        r.0,
        q.0.v_heads,
        apply_ubatch_parts slot ub c (placed, p.0.1) q.0 _ (rw (es, el) (omega (arith, en)))
            (rw (es, el) (place_one ub (length l) st l c k (no_maxs ops) p.0 ek p.1)) q.1
            (rw (es, el) (heads_one st l q.0 r.0 r.1)),
        r.1,
        refl,
      )
