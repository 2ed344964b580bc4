-- ===== src/Cpu.antt =====
-- `parse_cpu_range` and `parse_cpu_mask` of code/source/common/common.cpp. The mask of the threads is
-- a list of GGML_MAX_N_THREADS entries; that number is a parameter, and `std::stoull` too, which
-- gives `none` where it throws.
pub mod Range
pub mod Mask
mod Tests
use gfx906_mixed_cuda_rocm_r.Base.{
  ℕ, zero, suc, ◌+◌, ◌-◌, ◌*◌, ◌/◌, ◌%◌, ◌^◌, Bool, true, false, ◌&&◌, ◌||◌, Option, none, some,
  List, [], ◌∷◌, ltb, leb, ◌==◌, if◌then◌else◌, length, set, take, drop, get_or, min,
}
use gfx906_mixed_cuda_rocm_r.Text.{Str, starts_with, find, hex_digit}

-- The loop that sets `n` entries from `i` on.
pub set_range : ℕ → ℕ → List Bool → List Bool
set_range zero i mask = mask
set_range (suc n) i mask = set_range n (i + 1) (set mask i true)

module _ (max_n_threads : ℕ) (stoull : Str → Option ℕ) where
  -- An end of the range: `none` for an exception, `some none` for a number out of bounds.
  pub parse_bound : Str → Option (Option ℕ)
  parse_bound s = elim (stoull s) [
    | none ↦ none
    | some v ↦ some (if leb max_n_threads v then none else some v)
  ]

  pub range_start : Str → ℕ → Option (Option ℕ)
  unfolding parse_bound
  range_start range dash_loc =
      if dash_loc == 0 then some (some 0) else parse_bound (take dash_loc range)

  pub range_end : Str → ℕ → Option (Option ℕ)
  unfolding parse_bound
  range_end range dash_loc =
      if dash_loc == length range - 1
      then some (some (max_n_threads - 1))
      else parse_bound (drop (dash_loc + 1) range)

  -- The result and the mask, `none` for an exception.
  pub parse_cpu_range : Str → List Bool → Option (Bool × List Bool)
  unfolding find range_start range_end set_range
  parse_cpu_range range mask = elim (find (b'-' ∷ []) range) [
    | none ↦ some (false, mask)
    | some dash_loc ↦ elim (range_start range dash_loc) [
      | none ↦ none
      | some none ↦ some (false, mask)
      | some (some start_i) ↦ elim (range_end range dash_loc) [
        | none ↦ none
        | some none ↦ some (false, mask)
        | some (some end_i) ↦ some (true, set_range (end_i + 1 - start_i) start_i mask)
      ]
    ]
  ]

-- Whether the bit of weight `w` of a digit is set.
abbrev pub has_bit : ℕ → ℕ → Bool
has_bit w d = (d / w) % 2 == 1

abbrev pub or_at : List Bool → ℕ → Bool → List Bool
or_at mask n b = set mask n (get_or mask n false || b)

pub set_digit : ℕ → ℕ → List Bool → List Bool
set_digit d n mask =
    let m3 : List Bool = or_at mask n (has_bit 8 d) in
    let m2 : List Bool = or_at m3 (n - 1) (has_bit 4 d) in
    let m1 : List Bool = or_at m2 (n - 2) (has_bit 2 d) in or_at m1 (n - 3) (has_bit 1 d)

-- The loop over the digits; `n` is the place of the highest bit of the first. A character that is no
-- digit ends it, and keeps what was set before.
pub mask_loop : Str → ℕ → List Bool → Bool × List Bool
unfolding hex_digit set_digit
mask_loop [] n mask = (true, mask)
mask_loop (c ∷ cs) n mask = elim (hex_digit c) [
  | none ↦ (false, mask)
  | some d ↦ mask_loop cs (n - 4) (set_digit d n mask)
]

pub mask_digits : Str → Str
unfolding starts_with
mask_digits mask_text =
    take 128 (if starts_with (b'0' ∷ b'x' ∷ []) mask_text then drop 2 mask_text else mask_text)

pub parse_cpu_mask : Str → List Bool → Bool × List Bool
unfolding mask_digits mask_loop
parse_cpu_mask mask_text mask =
    let digits : Str = mask_digits mask_text in mask_loop digits (length digits * 4 - 1) mask
