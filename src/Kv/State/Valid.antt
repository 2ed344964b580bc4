-- ===== src/Kv/State/Valid.antt =====
-- `llama_kv_cache::state_read` (code/source/src/llama-kv-cache.cpp) keeps a cache valid, whatever the
-- state holds.
use gfx906_mixed_cuda_rocm_r.Base.{
  ℕ, zero, suc, ◌+◌, ◌<◌, ◌≡◌, ◌∙◌, inl, inr, Bool, false, ◌&&◌, some, [], ltb, ◌==◌, length,
  get_elem?, get_or, set, All-get_elem?, Bool-cases, Option-cases, arith,
}
use gfx906_mixed_cuda_rocm_r.Base.Int.{ℤ, pos, negsuc}
use gfx906_mixed_cuda_rocm_r.Kv.{CellOps, Cache, cache_seq_rm, cache_clear}
use gfx906_mixed_cuda_rocm_r.Kv.Slot.{Ubatch, SlotInfo, find_slot}
use gfx906_mixed_cuda_rocm_r.Kv.Batch.{apply_ubatch, is_empty_list}
use gfx906_mixed_cuda_rocm_r.Kv.Valid.{KeepsSize, IsValid, set_stream-IsValid}
use gfx906_mixed_cuda_rocm_r.Kv.Valid.Sequences.{cache_seq_rm-IsValid}
use gfx906_mixed_cuda_rocm_r.Kv.Valid.Copy.{cache_clear-IsValid}
use gfx906_mixed_cuda_rocm_r.Kv.Valid.Batch.{apply_ubatch-IsValid, set_cells-IsValid}
use gfx906_mixed_cuda_rocm_r.Kv.Valid.Slots.{find_slot-Within}
use gfx906_mixed_cuda_rocm_r.Kv.State.Read.{
  Reader, Status, finished, refused, ended, StreamResult, goes_on, throws, fails, place_sequence,
  fail_restore, read_part,
}
use gfx906_mixed_cuda_rocm_r.Kv.State.Read.{
  MetaResult, Thrown, read_cells, fill_tokens, check_cells, checked, read_sequence, read_stream,
  placed_cells, state_read_meta, drop_restored, target_stream, read_streams, state_read, known_seq,
}
use mathlib.Core.Option.{some-injective}
use mathlib.Core.Path.{subst}
use gfx906_mixed_cuda_rocm_r.Kv.State.Sizes.{Status-cases, size-read_cells}

module _ {C E I : Type 0} (ops : CellOps C E) (laws : KeepsSize ops) (reader : Reader I E)
    (masked : ℤ → ℤ → Bool) (reserve : ℕ → Ubatch) (n ns : ℕ) (z : n < 1073741824) where
  open ops use {size}
  open reader use {read_u32, read_data}

  ValidResult : MetaResult C I → Type 0
  ValidResult r = IsValid ops n ns r.cache

  checked-IsValid :
      (st m dest : ℕ) (ub : Ubatch) (slot : SlotInfo) (io : I) (c : Cache C) (r : MetaResult C I)
      → IsValid ops n ns c
      → checked ops reader masked reserve st m dest ub slot io c ≡ some r
      → ValidResult r
  unfolding checked ValidResult
  checked-IsValid st m dest ub slot io c r v e = elim (Option-cases (get_elem? c.v_cells st)) [
    | inl q ↦ cc (rw (checked, q) at e)
    | inr q ↦
        elim (Bool-cases (
          (length slot.strm == 1 && length (get_or slot.idxs 0 []) == m)
          && check_cells ops reader dest ub 0 (get_or slot.idxs 0 []) q.0)) [
            | inl t ↦ subst ValidResult (some-injective _ _ (rw (checked, q.1, t) at e)) v
            | inr t ↦ cc (rw (checked, q.1, t) at e)
          ]
  ]

  place_sequence-IsValid :
      (st m dest : ℕ) (ub : Ubatch) (io : I) (c : Cache C) (r : MetaResult C I)
      → IsValid ops n ns c
      → place_sequence ops reader masked reserve st m dest ub io c ≡ some r
      → ValidResult r
  unfolding place_sequence ValidResult
  place_sequence-IsValid st m dest ub io c r v e =
      elim (Option-cases (find_slot ops masked c ub false)) [
        | inl s ↦ cc (rw (place_sequence, s) at e)
        | inr s ↦ elim (Bool-cases (is_empty_list s.0.idxs)) [
          | inl u ↦ subst ValidResult (some-injective _ _ (rw (place_sequence, s.1, u) at e)) v
          | inr u ↦ elim (Option-cases (apply_ubatch ops s.0 ub c)) [
            | inl a ↦ cc (rw (place_sequence, s.1, u, a) at e)
            | inr a ↦
                checked-IsValid st m dest ub s.0 io a.0 r
                  (apply_ubatch-IsValid ops laws n ns s.0 ub c a.0 v
                    (find_slot-Within ops masked n ns z c v ub false s.0 s.1) a.1)
                  (rw (place_sequence, s.1, u, a.1) at e)
          ]
        ]
      ]

  read_sequence-IsValid :
      (st m dest : ℕ) (io : I) (c : Cache C) (r : MetaResult C I)
      → IsValid ops n ns c
      → read_sequence ops reader masked reserve st m dest io c ≡ some r
      → ValidResult r
  unfolding read_sequence ValidResult
  read_sequence-IsValid st m dest io c r v e =
      elim (Option-cases (cache_seq_rm ops (pos dest) (negsuc 0) (negsuc 0) c)) [
        | inl q ↦ cc (rw (read_sequence, q) at e)
        | inr q ↦
            let w : IsValid ops n ns q.0 =
              cache_seq_rm-IsValid ops laws n ns (pos dest) (negsuc 0) (negsuc 0) c q.0 v q.1 in
            let f : Ubatch × Status × I =
              fill_tokens ops reader dest m 0
                (record (reserve m) { seq_id_unq = set (reserve m).seq_id_unq 0 dest }) io in
            elim (Status-cases f.1) [
              | inl t ↦
                  place_sequence-IsValid st m dest f.0 f.2 q.0 r w (rw (read_sequence, q.1, t) at e)
              | inr (inl t) ↦
                  subst ValidResult (some-injective _ _ (rw (read_sequence, q.1, t) at e)) w
              | inr (inr t) ↦
                  subst ValidResult (some-injective _ _ (rw (read_sequence, q.1, t) at e)) w
            ]
      ]

  placed_cells-IsValid :
      (st m : ℕ) (c : Cache C) (k : C) (t : Status) (io : I)
      → IsValid ops n ns c
      → size k ≡ n
      → ValidResult (placed_cells ops reader masked reserve st m c k t io)
  unfolding placed_cells ValidResult
  placed_cells-IsValid st m c k finished io v p =
      set_stream-IsValid ops n ns c st k 0 v p (omega arith)
  placed_cells-IsValid st m c k refused io v p = set_cells-IsValid ops laws n ns c st k v p
  placed_cells-IsValid st m c k ended io v p = set_cells-IsValid ops laws n ns c st k v p

  read_stream-IsValid :
      (st m : ℕ) (io : I) (c : Cache C) (r : MetaResult C I)
      → IsValid ops n ns c
      → read_stream ops reader masked reserve st m io c ≡ some r
      → ValidResult r
  unfolding read_stream ValidResult
  read_stream-IsValid st m io c r v e = elim (Option-cases (get_elem? c.v_cells st)) [
    | inl q ↦ cc (rw (read_stream, q) at e)
    | inr q ↦ elim (Bool-cases (ltb (size q.0) m)) [
      | inl t ↦ subst ValidResult (some-injective _ _ (rw (read_stream, q.1, t) at e)) v
      | inr t ↦
          let w : IsValid ops n ns (cache_clear ops c) = cache_clear-IsValid ops laws n ns c v in
          elim (Option-cases (get_elem? (cache_clear ops c).v_cells st)) [
            | inl p ↦ cc (rw (read_stream, q.1, t, p) at e)
            | inr p ↦
                let s : C × Status × I = read_cells ops reader m 0 p.0 io in
                subst ValidResult (some-injective _ _ (rw (read_stream, q.1, t, p.1) at e)) (
                  placed_cells-IsValid st m (cache_clear ops c) s.0 s.1 s.2 w (
                    size-read_cells ops laws reader m 0 p.0 io
                    ∙ All-get_elem? (λ x. size x ≡ n) (cache_clear ops c).v_cells st p.0 w.sizes
                        p.1))
          ]
    ]
  ]

  state_read_meta-IsValid :
      (st m : ℕ) (seq_id : ℤ) (io : I) (c : Cache C) (r : MetaResult C I)
      → IsValid ops n ns c
      → state_read_meta ops reader masked reserve st m seq_id io c ≡ some r
      → ValidResult r
  unfolding state_read_meta
  state_read_meta-IsValid st m (pos dest) io c r v e = read_sequence-IsValid st m dest io c r v e
  state_read_meta-IsValid st m (negsuc k) io c r v e = read_stream-IsValid st m io c r v e

  drop_restored-IsValid :
      (seq_id : ℤ) (c c' : Cache C)
      → IsValid ops n ns c
      → drop_restored ops reader masked reserve seq_id c ≡ some c'
      → IsValid ops n ns c'
  unfolding drop_restored
  drop_restored-IsValid (pos s) c c' v e =
      cache_seq_rm-IsValid ops laws n ns (pos s) (negsuc 0) (negsuc 0) c c' v e
  drop_restored-IsValid (negsuc k) c c' v e =
      subst (IsValid ops n ns) (some-injective _ _ e) (cache_clear-IsValid ops laws n ns c v)

  fail_restore-IsValid :
      (seq_id : ℤ) (c : Cache C) (r : Cache C × Thrown)
      → IsValid ops n ns c
      → fail_restore ops reader masked reserve seq_id c ≡ some r
      → IsValid ops n ns r.0
  unfolding fail_restore
  fail_restore-IsValid seq_id c r v e =
      elim (Option-cases (drop_restored ops reader masked reserve seq_id c)) [
        | inl d ↦ cc (rw (fail_restore, d) at e)
        | inr d ↦
            subst (λ y. IsValid ops n ns y.0) (some-injective _ _ (rw (fail_restore, d.1) at e))
              (drop_restored-IsValid seq_id c d.0 v d.1)
      ]

  -- The cache after a stream is valid, however it went.
  ValidPart : StreamResult C I → Type 0
  ValidPart (goes_on c io) = IsValid ops n ns c
  ValidPart (throws c) = IsValid ops n ns c
  ValidPart (fails c) = IsValid ops n ns c

  read_part-IsValid :
      (st m : ℕ) (seq_id : ℤ) (io : I) (c : Cache C) (r : StreamResult C I)
      → IsValid ops n ns c
      → read_part ops reader masked reserve st m seq_id io c ≡ some r
      → ValidPart r
  unfolding read_part ValidPart ValidResult
  read_part-IsValid st m seq_id io c r v e =
      elim (Option-cases (state_read_meta ops reader masked reserve st m seq_id io c)) [
        | inl q ↦ cc (rw (read_part, q) at e)
        | inr (x, q) ↦
            let w : IsValid ops n ns x.cache = state_read_meta-IsValid st m seq_id io c x v q in
            elim (Status-cases x.status) [
              | inr (inl t) ↦ subst ValidPart (some-injective _ _ (rw (read_part, q, t) at e)) w
              | inr (inr t) ↦ subst ValidPart (some-injective _ _ (rw (read_part, q, t) at e)) w
              | inl t ↦ elim (Option-cases (read_data st m x.slot x.rest)) [
                | inl d ↦ subst ValidPart (some-injective _ _ (rw (read_part, q, t, d) at e)) w
                | inr (d, p) ↦ elim (Bool-cases d.0) [
                  | inl u ↦ subst ValidPart (some-injective _ _ (rw (read_part, q, t, p, u) at e)) w
                  | inr u ↦ subst ValidPart (some-injective _ _ (rw (read_part, q, t, p, u) at e)) w
                ]
              ]
            ]
      ]

  read_streams-IsValid :
      (seq_id : ℤ) (m s : ℕ) (io : I) (c : Cache C) (r : Cache C × Thrown)
      → IsValid ops n ns c
      → read_streams ops reader masked reserve seq_id m s io c ≡ some r
      → IsValid ops n ns r.0
  unfolding read_streams ValidPart
  read_streams-IsValid seq_id zero s io c r v e =
      subst (λ x. IsValid ops n ns x.0) (some-injective _ _ e) v
  read_streams-IsValid seq_id (suc m) s io c r v e = elim (Option-cases (read_u32 io)) [
    | inl q ↦ subst (λ x. IsValid ops n ns x.0) (some-injective _ _ (rw (read_streams, q) at e)) v
    | inr (k, q) ↦ elim (Bool-cases (k.0 == 0)) [
      | inl t ↦ read_streams-IsValid seq_id m (s + 1) k.1 c r v (rw (read_streams, q, t) at e)
      | inr t ↦ elim (Option-cases (target_stream ops reader masked reserve seq_id s c)) [
        | inl p ↦ cc (rw (read_streams, q, t, p) at e)
        | inr (st, p) ↦
            elim (Option-cases (read_part ops reader masked reserve st k.0 seq_id k.1 c)) [
              | inl x ↦ cc (rw (read_streams, q, t, p, x) at e)
              | inr (goes_on c' io', x) ↦
                  read_streams-IsValid seq_id m (s + 1) io' c' r
                    (read_part-IsValid st k.0 seq_id k.1 c (goes_on c' io') v x)
                    (rw (read_streams, q, t, p, x) at e)
              | inr (throws c', x) ↦
                  subst (λ y. IsValid ops n ns y.0)
                    (some-injective _ _ (rw (read_streams, q, t, p, x) at e))
                    (read_part-IsValid st k.0 seq_id k.1 c (throws c') v x)
              | inr (fails c', x) ↦
                  fail_restore-IsValid seq_id c' r
                    (read_part-IsValid st k.0 seq_id k.1 c (fails c') v x)
                    (rw (read_streams, q, t, p, x) at e)
            ]
      ]
    ]
  ]

  -- Reading a state into a valid cache leaves a valid one, also when the state is refused, ends early or
  -- is thrown away.
  pub state_read-IsValid :
      (seq_id : ℤ) (io : I) (c : Cache C) (r : Cache C × Thrown)
      → IsValid ops n ns c
      → state_read ops reader masked reserve seq_id io c ≡ some r
      → IsValid ops n ns r.0
  unfolding state_read
  state_read-IsValid seq_id io c r v e =
      elim (Bool-cases (known_seq ops reader masked reserve seq_id c)) [
        | inr t ↦ cc (rw (state_read, t) at e)
        | inl t ↦ elim (Option-cases (read_u32 io)) [
          | inl q ↦
              subst (λ x. IsValid ops n ns x.0) (some-injective _ _ (rw (state_read, t, q) at e)) v
          | inr (k, q) ↦ elim (Bool-cases (k.0 == length c.v_cells)) [
            | inr u ↦
                subst (λ x. IsValid ops n ns x.0)
                  (some-injective _ _ (rw (state_read, t, q, u) at e)) v
            | inl u ↦
                read_streams-IsValid seq_id (length c.v_cells) 0 k.1 c r v
                  (rw (state_read, t, q, u) at e)
          ]
        ]
      ]
