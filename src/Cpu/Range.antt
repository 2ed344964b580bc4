-- ===== src/Cpu/Range.antt =====
-- `parse_cpu_range` of code/source/common/common.cpp.
use gfx906_mixed_cuda_rocm_r.Base.{
  ℕ, zero, suc, ◌+◌, ◌-◌, ◌≤◌, ◌<◌, ◌≡◌, ◌⊎◌, inl, inr, refl, Bool, true, false, ◌&&◌, ◌||◌, Option,
  none, some, List, [], ◌∷◌, ltb, leb, ◌==◌, Bool-cases, Option-cases, length, length-set, set,
  get_or, take, drop, arith,
}
use gfx906_mixed_cuda_rocm_r.Text.{Str, starts_with, find}
use gfx906_mixed_cuda_rocm_r.Cpu.{set_range, parse_bound, range_start, range_end, parse_cpu_range}
use mathlib.Core.Option.{some-injective}
use mathlib.Core.Path.{subst}

get_or-set-true :
    (mask : List Bool) (i k : ℕ)
    → i < length mask
    → get_or (set mask i true) k false ≡ (get_or mask k false || k == i)
get_or-set-true [] i k h = absurd (omega arith)
get_or-set-true (x ∷ xs) zero zero h = ground arith
get_or-set-true (x ∷ xs) zero (suc k) h = ground arith
get_or-set-true (x ∷ xs) (suc i) zero h = ground arith
get_or-set-true (x ∷ xs) (suc i) (suc k) h = ground (arith, get_or-set-true xs i k (omega arith))

set_range_lem :
    (n i : ℕ) (mask : List Bool) (k : ℕ)
    → i + n ≤ length mask
    → get_or (set_range n i mask) k false ≡ (get_or mask k false || (leb i k && ltb k (i + n)))
unfolding set_range
set_range_lem zero i mask k h = ground arith
set_range_lem (suc n) i mask k h =
    rw
      (
        set_range_lem n (i + 1) (set mask i true) k (omega (arith, length-set mask i true)),
        get_or-set-true mask i k (omega arith),
      )
      (ground arith)

-- A bound that was read: it is below the number of threads, or a larger one was refused.
abbrev Bounded : ℕ → (ℕ → Type 0) → Option ℕ → Type 0
Bounded mx IsBound none = (v : ℕ) × IsBound v × (mx ≤ v)
Bounded mx IsBound (some v) = IsBound v × (v < mx)

-- The start of a range that has its dash at `dash`: 0 when nothing stands before the dash.
abbrev pub IsStart : (Str → Option ℕ) → Str → ℕ → ℕ → Type 0
IsStart stoull range dash v =
    ((dash ≡ 0) × (v ≡ 0)) ⊎ ((0 < dash) × (stoull (take dash range) ≡ some v))

-- The end of the range: the last thread when nothing stands behind the dash.
abbrev pub IsEnd : ℕ → (Str → Option ℕ) → Str → ℕ → ℕ → Type 0
IsEnd mx stoull range dash v =
    ((dash + 1 ≡ length range) × (v + 1 ≡ mx))
    ⊎ ((dash + 1 < length range) × (stoull (drop (dash + 1) range) ≡ some v))

parse_bound_lem :
    (mx : ℕ) (stoull : Str → Option ℕ) (s : Str) (o : Option ℕ)
    → parse_bound mx stoull s ≡ some o
    → Bounded mx (λ v. stoull s ≡ some v) o
unfolding parse_bound
parse_bound_lem mx stoull s o h = elim (Option-cases (stoull s)) [
  | inl q ↦ cc (rw (parse_bound, q) at h)
  | inr (w, q) ↦ elim (Bool-cases (leb mx w)) [
    | inl t ↦
        subst (Bounded mx (λ v. stoull s ≡ some v))
          (some-injective _ _ (rw (parse_bound, q, t) at h)) (w, q, ground (arith, t))
    | inr f ↦
        subst (Bounded mx (λ v. stoull s ≡ some v))
          (some-injective _ _ (rw (parse_bound, q, f) at h)) (q, ground (arith, f))
  ]
]

Bounded-map :
    (mx : ℕ) (P Q : ℕ → Type 0) (o : Option ℕ)
    → ((v : ℕ) → P v → Q v)
    → Bounded mx P o
    → Bounded mx Q o
Bounded-map mx P Q none f h = (h.0, f h.0 h.1, h.2)
Bounded-map mx P Q (some v) f h = (f v h.0, h.1)

range_start_lem :
    (mx : ℕ) (stoull : Str → Option ℕ) (range : Str) (dash : ℕ) (o : Option ℕ)
    → 0 < mx
    → range_start mx stoull range dash ≡ some o
    → Bounded mx (IsStart stoull range dash) o
unfolding range_start
range_start_lem mx stoull range dash o pos h = elim (Bool-cases (dash == 0)) [
  | inl t ↦
      subst (Bounded mx (IsStart stoull range dash)) (some-injective _ _ (rw (range_start, t) at h))
        (inl (ground (arith, t), refl), pos)
  | inr f ↦
      Bounded-map mx _ (IsStart stoull range dash) o (λ v q. inr (ground (arith, f), q))
        (parse_bound_lem mx stoull (take dash range) o (rw (range_start, f) at h))
]

range_end_lem :
    (mx : ℕ) (stoull : Str → Option ℕ) (range : Str) (dash : ℕ) (o : Option ℕ)
    → 0 < mx
    → dash < length range
    → range_end mx stoull range dash ≡ some o
    → Bounded mx (IsEnd mx stoull range dash) o
unfolding range_end
range_end_lem mx stoull range dash o pos below h = elim (Bool-cases (dash == length range - 1)) [
  | inl t ↦
      subst (Bounded mx (IsEnd mx stoull range dash)) (some-injective _ _ (rw (range_end, t) at h))
        (inl (ground (arith, t, below), omega (arith, pos)), omega (arith, pos))
  | inr f ↦
      Bounded-map mx _ (IsEnd mx stoull range dash) o (λ v q. inr (ground (arith, f, below), q))
        (parse_bound_lem mx stoull (drop (dash + 1) range) o (rw (range_end, f) at h))
]

find_below : (c : ℕ) (s : Str) (n : ℕ) → find (c ∷ []) s ≡ some n → n < length s
unfolding find
find_below c [] n h = cc h
find_below c (x ∷ xs) n h = elim (Bool-cases (starts_with (c ∷ []) (x ∷ xs))) [
  | inl t ↦ let e : 0 ≡ n = some-injective _ _ (rw t at h) in omega (arith, e)
  | inr f ↦ elim (Option-cases (find (c ∷ []) xs)) [
    | inl q ↦ cc (rw (f, q) at h)
    | inr (j, q) ↦
        let e : suc j ≡ n = some-injective _ _ (rw (f, q) at h) in
        omega (arith, e, find_below c xs j q)
  ]
]

covered :
    (s e k : ℕ) (mask : List Bool)
    → s < length mask
    → e < length mask
    → get_or (set_range (e + 1 - s) s mask) k false ≡ (get_or mask k false || (leb s k && leb k e))
covered s e k mask hs he = rw (set_range_lem (e + 1 - s) s mask k (omega arith)) (ground arith)

-- A range is refused when it has no dash, or has an end that is no thread.
abbrev pub Refused : ℕ → (Str → Option ℕ) → Str → Type 0
Refused mx stoull range =
    (find (b'-' ∷ []) range ≡ none)
    ⊎ ((dash : ℕ) × (v : ℕ) × (find (b'-' ∷ []) range ≡ some dash)
        × (mx ≤ v)
        × (IsStart stoull range dash v ⊎ IsEnd mx stoull range dash v))

-- The range that was parsed, and the mask with its entries set.
abbrev pub Covered : ℕ → (Str → Option ℕ) → Str → List Bool → List Bool → Type 0
Covered mx stoull range mask mask' =
    (dash : ℕ) × (start_i : ℕ) × (end_i : ℕ) × (find (b'-' ∷ []) range ≡ some dash)
    × IsStart stoull range dash start_i
    × IsEnd mx stoull range dash end_i
    × (start_i < mx)
    × (end_i < mx)
    × ((k : ℕ) → get_or mask' k false ≡ (get_or mask k false || (leb start_i k && leb k end_i)))

abbrev Outcome : ℕ → (Str → Option ℕ) → Str → List Bool → Bool × List Bool → Type 0
Outcome mx stoull range mask r =
    ((r.0 ≡ false) × (r.1 ≡ mask) × Refused mx stoull range)
    ⊎ ((r.0 ≡ true) × Covered mx stoull range mask r.1)

-- When parsing a range ends without an exception, either it is refused, because it has no dash or an
-- end is not below GGML_MAX_N_THREADS, and the mask stays; or it is accepted, and the mask of the
-- threads gets exactly the entries from the range's start to its end and keeps the others. The start
-- is the number before the dash, 0 when nothing stands there; the end is the number behind it, the
-- last thread when nothing stands there; both are below GGML_MAX_N_THREADS.
pub parse_cpu_range_lem :
    (max_n_threads : ℕ) (stoull : Str → Option ℕ) (range : Str) (mask mask' : List Bool) (ok : Bool)
    → 0 < max_n_threads
    → length mask ≡ max_n_threads
    → parse_cpu_range max_n_threads stoull range mask ≡ some (ok, mask')
    → ((ok ≡ false) × (mask' ≡ mask) × Refused max_n_threads stoull range)
      ⊎ ((ok ≡ true) × Covered max_n_threads stoull range mask mask')
unfolding parse_cpu_range
parse_cpu_range_lem mx stoull range mask mask' ok pos len h =
    elim (Option-cases (find (b'-' ∷ []) range)) [
      | inl q ↦
          subst (Outcome mx stoull range mask) (some-injective _ _ (rw (parse_cpu_range, q) at h))
            (inl (refl, refl, inl q))
      | inr (dash, q) ↦ elim (Option-cases (range_start mx stoull range dash)) [
        | inl q1 ↦ cc (rw (parse_cpu_range, q, q1) at h)
        | inr (o, q1) ↦
            let start_is = range_start_lem mx stoull range dash o pos q1 in
            elim (Option-cases o) [
              | inl n ↦
                  let r = rw n at start_is in
                  subst (Outcome mx stoull range mask)
                    (some-injective _ _ (rw (parse_cpu_range, q, q1, n) at h))
                    (inl (refl, refl, inr (dash, r.0, q, r.2, inl r.1)))
              | inr (s, n) ↦ elim (Option-cases (range_end mx stoull range dash)) [
                | inl q2 ↦ cc (rw (parse_cpu_range, q, q1, n, q2) at h)
                | inr (o', q2) ↦
                    let below = find_below b'-' range dash q in
                    let end_is = range_end_lem mx stoull range dash o' pos below q2 in
                    elim (Option-cases o') [
                      | inl n' ↦
                          let r = rw n' at end_is in
                          subst (Outcome mx stoull range mask)
                            (some-injective _ _ (rw (parse_cpu_range, q, q1, n, q2, n') at h))
                            (inl (refl, refl, inr (dash, r.0, q, r.2, inr r.1)))
                      | inr (e, n') ↦
                          let rs = rw n at start_is in
                          let re = rw n' at end_is in
                          subst (Outcome mx stoull range mask)
                            (some-injective _ _ (rw (parse_cpu_range, q, q1, n, q2, n') at h))
                            (inr (
                              refl,
                              (
                                dash,
                                s,
                                e,
                                q,
                                rs.0,
                                re.0,
                                rs.1,
                                re.1,
                                λ k. covered s e k mask (rw len rs.1) (rw len re.1),
                              ),
                            ))
                    ]
              ]
            ]
      ]
    ]
