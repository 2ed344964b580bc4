-- ===== src/Sched/Copies/Rotate.antt =====
-- Which copy `ggml_backend_sched_advance_copy` (code/source/ggml/src/ggml-backend.cpp) moves to.
use gfx906_mixed_cuda_rocm_r.Base.{
  ℕ, zero, suc, ◌+◌, ◌%◌, ◌<◌, ◌≡◌, ◌≢◌, refl, sym, ap, ◌∙◌, ◌⊎◌, inl, inr, true, false, not, ◌||◌,
  [], ◌++◌, arith, leb, ◌==◌, if◌then◌else◌, Bool-cases, length,
}
use native.Mathlib.Nat.{mod-lt, mod-add-mod, mod-eq_of_lt, add-zero}
use gfx906_mixed_cuda_rocm_r.Sched.Copies.{
  Sched, nonzero_from, next_nonzero_copy, advance_copy, replaced, sync_from,
}

-- The number behind a multiple.
one_behind : (n c : ℕ) → 1 < n → c % n ≡ 0 → (c + 1) % n ≡ 1
one_behind n c h e = sym (mod-add-mod c n 1) ∙ ap (λ k. (k + 1) % n) e ∙ mod-eq_of_lt (omega arith)

-- With more than one copy, the next copy is the given number modulo the number of copies, or 1 where
-- that is 0: never the slot of the original tensors.
pub next_nonzero_copy_lem :
    (n copy_id : ℕ)
    → 1 < n
    → (next_nonzero_copy n copy_id ≡ (if copy_id % n == 0 then 1 else copy_id % n))
      × (next_nonzero_copy n copy_id < n)
      × (next_nonzero_copy n copy_id ≢ 0)
unfolding next_nonzero_copy nonzero_from
next_nonzero_copy_lem zero copy_id h = absurd (omega arith)
next_nonzero_copy_lem (suc zero) copy_id h = absurd (omega arith)
next_nonzero_copy_lem (suc (suc n)) copy_id h = ground (
  arith,
  ap (λ k. k % suc (suc n)) (add-zero copy_id),
  one_behind (suc (suc n)) copy_id,
  mod-lt copy_id {m = suc (suc n)},
)

cur_copy-replaced :
    (s : Sched) (new_copy : ℕ)
    → ((replaced s new_copy).0.cur_copy ≡ s.cur_copy)
      × ((replaced s new_copy).0.next_copy ≡ s.next_copy)
unfolding replaced
cur_copy-replaced s new_copy = (refl, refl)

log-replaced :
    (s : Sched) (new_copy : ℕ)
    → (replaced s new_copy).0.log
      ≡ s.log ++ (if s.cur_copy == 0 then sync_from s.n_backends 0 else [])
unfolding replaced
log-replaced s new_copy = refl

-- `advance_copy` says whether the copy changed. If it did, the new copy is another one, below the
-- number of copies and not the slot of the original tensors; so is the one after it; and if the old
-- one was that slot, every backend was synchronised with, and none otherwise. If not, the current
-- and the next copy are as before.
pub advance_copy_lem :
    (s : Sched)
    → (((advance_copy s).0 ≡ false)
        × ((advance_copy s).1.cur_copy ≡ s.cur_copy)
        × ((advance_copy s).1.next_copy ≡ s.next_copy))
      ⊎ (((advance_copy s).0 ≡ true)
          × ((advance_copy s).1.cur_copy ≢ s.cur_copy)
          × ((advance_copy s).1.cur_copy < s.n_copies)
          × ((advance_copy s).1.cur_copy ≢ 0)
          × ((advance_copy s).1.next_copy < s.n_copies)
          × ((advance_copy s).1.next_copy ≢ 0)
          × ((advance_copy s).1.log
              ≡ s.log ++ (if s.cur_copy == 0 then sync_from s.n_backends 0 else [])))
unfolding advance_copy
advance_copy_lem s =
    elim (Bool-cases (not s.is_alloc || (leb s.n_copies 1 || length s.splits == 0))) [
      | inl t ↦ rw (t, advance_copy) (inl (refl, refl, refl))
      | inr f ↦ elim (Bool-cases (s.cur_copy == next_nonzero_copy s.n_copies s.next_copy)) [
        | inl t ↦ rw (f, t, advance_copy) (inl (refl, refl, refl))
        | inr g ↦
            elim (Bool-cases ((replaced s (next_nonzero_copy s.n_copies s.next_copy)).1 == 0)) [
              | inl t ↦
                  rw (f, g, t, advance_copy)
                    (inl (
                      refl,
                      (cur_copy-replaced s (next_nonzero_copy s.n_copies s.next_copy)).0,
                      (cur_copy-replaced s (next_nonzero_copy s.n_copies s.next_copy)).1,
                    ))
              | inr h ↦
                  let many : 1 < s.n_copies = ground arith in
                  let now = next_nonzero_copy_lem s.n_copies s.next_copy many in
                  let next =
                    next_nonzero_copy_lem s.n_copies (next_nonzero_copy s.n_copies s.next_copy + 1)
                      many in
                  rw (f, g, h, advance_copy)
                    (inr (
                      refl,
                      λ e. ground (arith, e),
                      now.1,
                      now.2,
                      next.1,
                      next.2,
                      log-replaced s (next_nonzero_copy s.n_copies s.next_copy),
                    ))
            ]
      ]
    ]
