-- ===== src/FileName/Accepted.antt =====
-- What `fs_validate_filename` (code/source/common/common.cpp) accepts, and that it ends.
use gfx906_mixed_cuda_rocm_r.Base.{
  ℕ, zero, suc, ◌+◌, ◌≤◌, ◌<◌, ◌≡◌, inl, inr, refl, Bool, true, false, not, ◌&&◌, ◌||◌, Option,
  none, some, [], ◌∷◌, ltb, ◌==◌, Bool-cases, Option-cases, length, arith,
}
use gfx906_mixed_cuda_rocm_r.Text.{Str, find}
use gfx906_mixed_cuda_rocm_r.FileName.{
  overlong, forbidden, is_separator, check_codepoints, check_ends, fs_validate_filename, first_is,
  last_is,
}
use mathlib.Core.Option.{some-injective}

check_ends_lem :
    (s : Str)
    → check_ends s ≡ true
    → (first_is b' ' s ≡ false)
      × (last_is b' ' s ≡ false)
      × (last_is b'.' s ≡ false)
      × (find (b'.' ∷ b'.' ∷ []) s ≡ none)
unfolding check_ends
check_ends_lem s h = elim (Bool-cases (first_is b' ' s || (last_is b' ' s || last_is b'.' s))) [
  | inl t ↦ cc (rw (check_ends, t) at h)
  | inr f ↦ elim (Option-cases (find (b'.' ∷ b'.' ∷ []) s)) [
    | inl n ↦ (ground (arith, f), ground (arith, f), ground (arith, f), n)
    | inr (i, n) ↦ cc (rw (check_ends, f, n) at h)
  ]
]

module _ (parse : Str → ℕ → Option (ℕ × ℕ)) where
  check_codepoints_total :
      (fuel : ℕ) (allow : Bool) (s : Str) (o : ℕ)
      → ((o' c k : ℕ) → parse s o' ≡ some (c, k) → 1 ≤ k)
      → length s ≤ fuel + o
      → (r : Bool) × (check_codepoints parse (suc fuel) allow s o ≡ some r)
  unfolding check_codepoints
  check_codepoints_total zero allow s o moves h =
      let f : ltb o (length s) ≡ false = ground arith in (true, rw (check_codepoints, f) refl)
  check_codepoints_total (suc fuel) allow s o moves h = elim (Bool-cases (ltb o (length s))) [
    | inr f ↦ (true, rw (check_codepoints, f) refl)
    | inl t ↦ elim (Option-cases (parse s o)) [
      | inl q ↦ (false, rw (check_codepoints, t, q) refl)
      | inr ((c, k), q) ↦
          elim (Bool-cases (overlong c k || (forbidden c || (not allow && is_separator c)))) [
            | inl b ↦ (false, rw (check_codepoints, t, q, b) refl)
            | inr b ↦
                let r =
                  check_codepoints_total fuel allow s (o + k) moves
                    (omega (arith, h, moves o c k q)) in
                (r.0, rw (check_codepoints, t, q, b) r.1)
          ]
    ]
  ]

  -- The offsets that the loop comes to.
  pub data Visits (s : Str) : ℕ → Type 0 where
    start : Visits s 0
    next : (o c k : ℕ) → Visits s o → o < length s → parse s o ≡ some (c, k) → Visits s (o + k)

  -- When the parser takes at least a byte, the check of a name ends.
  pub fs_validate_filename_total :
      (s : Str) (allow : Bool)
      → ((o c k : ℕ) → parse s o ≡ some (c, k) → 1 ≤ k)
      → (r : Bool) × (fs_validate_filename parse s allow ≡ some r)
  unfolding fs_validate_filename
  fs_validate_filename_total s allow moves = elim (Bool-cases (length s == 0)) [
    | inl t ↦ (false, rw (fs_validate_filename, t) refl)
    | inr f ↦ elim (Bool-cases (ltb 255 (length s))) [
      | inl t ↦ (false, rw (fs_validate_filename, f, t) refl)
      | inr g ↦
          let r = check_codepoints_total (length s) allow s 0 moves (omega arith) in
          elim (Bool-cases r.0) [
            | inl t ↦ (check_ends s, rw (fs_validate_filename, f, g, r.1, t) refl)
            | inr u ↦ (false, rw (fs_validate_filename, f, g, r.1, u) refl)
          ]
    ]
  ]

  -- A codepoint that the loop comes to in an accepted name.
  pub Allowed : Bool → ℕ → ℕ → Type 0
  Allowed allow c k =
      (overlong c k ≡ false) × (forbidden c ≡ false) × ((not allow && is_separator c) ≡ false)

  check_codepoints-Allowed :
      (fuel : ℕ) (allow : Bool) (s : Str) (o c k : ℕ)
      → check_codepoints parse fuel allow s o ≡ some true
      → o < length s
      → parse s o ≡ some (c, k)
      → Allowed allow c k × ((f : ℕ) × (check_codepoints parse f allow s (o + k) ≡ some true))
  unfolding check_codepoints Allowed
  check_codepoints-Allowed zero allow s o c k e h q = cc
  check_codepoints-Allowed (suc fuel) allow s o c k e h q =
      let t : ltb o (length s) ≡ true = ground arith in
      elim (Bool-cases (overlong c k || (forbidden c || (not allow && is_separator c)))) [
        | inl b ↦ cc (rw (check_codepoints, t, q, b) at e)
        | inr b ↦ (
          (ground (arith, b), ground (arith, b), ground (arith, b)),
          (fuel, rw (check_codepoints, t, q, b) at e),
        )
      ]

  check_codepoints-Visits :
      (fuel : ℕ) (allow : Bool) (s : Str) (o : ℕ)
      → check_codepoints parse fuel allow s 0 ≡ some true
      → Visits s o
      → (f : ℕ) × (check_codepoints parse f allow s o ≡ some true)
  check_codepoints-Visits fuel allow s o e start = (fuel, e)
  check_codepoints-Visits fuel allow s o e (next o' c k v h q) =
      let before = check_codepoints-Visits fuel allow s o' e v in
      (check_codepoints-Allowed before.0 allow s o' c k before.1 h q).1

  -- In an accepted name every codepoint that the parser gives, from the start on, is written with as
  -- few bytes as it needs and is not a forbidden one, nor a separator unless those are allowed.
  pub fs_validate_filename-Allowed :
      (s : Str) (allow : Bool) (o c k : ℕ)
      → fs_validate_filename parse s allow ≡ some true
      → Visits s o
      → o < length s
      → parse s o ≡ some (c, k)
      → Allowed allow c k
  unfolding fs_validate_filename
  fs_validate_filename-Allowed s allow o c k h v inside q =
      elim (Option-cases (check_codepoints parse (suc (length s)) allow s 0)) [
        | inl n ↦ ground (arith, rw (fs_validate_filename, n) at h)
        | inr (r, e) ↦ elim (Bool-cases r) [
          | inl t ↦
              let at_o = check_codepoints-Visits (suc (length s)) allow s o (rw t at e) v in
              (check_codepoints-Allowed at_o.0 allow s o c k at_o.1 inside q).0
          | inr f ↦ ground (arith, rw (fs_validate_filename, e, f) at h)
        ]
      ]

  -- An accepted name has 1 to 255 bytes, does not begin or end with a space or end with a dot, and has
  -- no two dots in a row.
  pub fs_validate_filename_lem :
      (s : Str) (allow : Bool)
      → fs_validate_filename parse s allow ≡ some true
      → (0 < length s)
        × (length s ≤ 255)
        × (first_is b' ' s ≡ false)
        × (last_is b' ' s ≡ false)
        × (last_is b'.' s ≡ false)
        × (find (b'.' ∷ b'.' ∷ []) s ≡ none)
  unfolding fs_validate_filename check_ends
  fs_validate_filename_lem s allow h = elim (Bool-cases (length s == 0)) [
    | inl t ↦ cc (rw (fs_validate_filename, t) at h)
    | inr f ↦ elim (Bool-cases (ltb 255 (length s))) [
      | inl t ↦ cc (rw (fs_validate_filename, f, t) at h)
      | inr g ↦ elim (Option-cases (check_codepoints parse (suc (length s)) allow s 0)) [
        | inl n ↦ cc (rw (fs_validate_filename, f, g, n) at h)
        | inr (r, e) ↦ elim (Bool-cases r) [
          | inr u ↦ cc (rw (fs_validate_filename, f, g, e, u) at h)
          | inl t ↦
              let ends = some-injective _ _ (rw (fs_validate_filename, f, g, e, t) at h) in
              let p = check_ends_lem s ends in
              (ground (arith, f), ground (arith, g), p.0, p.1, p.2, p.3)
        ]
      ]
    ]
  ]
