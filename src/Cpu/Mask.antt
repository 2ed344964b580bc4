-- ===== src/Cpu/Mask.antt =====
-- `parse_cpu_mask` of code/source/common/common.cpp.
use gfx906_mixed_cuda_rocm_r.Base.{
  ℕ, zero, suc, ◌-◌, ◌*◌, ◌≡◌, inl, inr, refl, ◌∙◌, Bool, true, false, ◌||◌, List, [], ◌∷◌,
  Option-cases, length, length-set, set, get_or,
}
use gfx906_mixed_cuda_rocm_r.Text.{Str, hex_digit}
use gfx906_mixed_cuda_rocm_r.Cpu.{has_bit, or_at, set_digit, mask_loop, mask_digits, parse_cpu_mask}

-- Two masks of the same threads, of which the second has every entry of the first.
record Grows (mask mask' : List Bool) : Type 0 where
  same_length : length mask' ≡ length mask
  kept : (k : ℕ) → get_or mask k false ≡ true → get_or mask' k false ≡ true

set-kept :
    (mask : List Bool) (n k : ℕ) (b : Bool)
    → get_or mask k false ≡ true
    → get_or (set mask n (get_or mask n false || b)) k false ≡ true
set-kept [] n k b h = h
set-kept (x ∷ xs) zero zero b h = rw h refl
set-kept (x ∷ xs) zero (suc k) b h = h
set-kept (x ∷ xs) (suc n) zero b h = h
set-kept (x ∷ xs) (suc n) (suc k) b h = set-kept xs n k b h

or_at-Grows : (mask : List Bool) (n : ℕ) (b : Bool) → Grows mask (or_at mask n b)
or_at-Grows mask n b = record {
  same_length = length-set mask n (get_or mask n false || b);
  kept = λ k h. set-kept mask n k b h;
}

Grows-trans : (a b c : List Bool) → Grows a b → Grows b c → Grows a c
Grows-trans a b c p q = record {
  same_length = q.same_length ∙ p.same_length;
  kept = λ k h. q.kept k (p.kept k h);
}

set_digit-Grows : (d n : ℕ) (mask : List Bool) → Grows mask (set_digit d n mask)
unfolding set_digit
set_digit-Grows d n mask =
    let m3 = or_at mask n (has_bit 8 d) in
    let m2 = or_at m3 (n - 1) (has_bit 4 d) in
    let m1 = or_at m2 (n - 2) (has_bit 2 d) in
    let m0 = or_at m1 (n - 3) (has_bit 1 d) in
    Grows-trans mask m3 m0 (or_at-Grows mask n (has_bit 8 d)) (
      Grows-trans m3 m2 m0 (or_at-Grows m3 (n - 1) (has_bit 4 d)) (
        Grows-trans m2 m1 m0 (or_at-Grows m2 (n - 2) (has_bit 2 d))
          (or_at-Grows m1 (n - 3) (has_bit 1 d))))

mask_loop-Grows : (cs : Str) (n : ℕ) (mask : List Bool) → Grows mask (mask_loop cs n mask).1
unfolding mask_loop
mask_loop-Grows [] n mask = record { same_length = refl; kept = λ k h. h }
mask_loop-Grows (c ∷ cs) n mask = elim (Option-cases (hex_digit c)) [
  | inl q ↦ rw (mask_loop, q) (record { same_length = refl; kept = λ k h. h })
  | inr (d, q) ↦
      rw (mask_loop, q)
        (Grows-trans mask (set_digit d n mask) _ (set_digit-Grows d n mask)
          (mask_loop-Grows cs (n - 4) (set_digit d n mask)))
]

-- Parsing a mask, whether it succeeds or not, keeps the number of threads and every thread that was
-- chosen before.
pub parse_cpu_mask-keeps :
    (text : Str) (mask : List Bool) (k : ℕ)
    → get_or mask k false ≡ true
    → (length (parse_cpu_mask text mask).1 ≡ length mask)
      × (get_or (parse_cpu_mask text mask).1 k false ≡ true)
unfolding parse_cpu_mask
parse_cpu_mask-keeps text mask k h =
    let digits = mask_digits text in
    let g = mask_loop-Grows digits (length digits * 4 - 1) mask in (g.same_length, g.kept k h)
