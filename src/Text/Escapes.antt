-- ===== src/Text/Escapes.antt =====
-- `string_process_escapes` of code/source/common/common.cpp.
use gfx906_mixed_cuda_rocm_r.Base.{
  ℕ, zero, suc, ◌+◌, ◌≤◌, ◌<◌, ◌≡◌, ◌≢◌, inl, inr, refl, ap, ◌∙◌, true, ◌&&◌, some, [], ◌∷◌, ltb,
  ◌==◌, ==-ne, Bool-cases, Option-cases, length, length-set, set, take, get_or, All, arith,
}
use gfx906_mixed_cuda_rocm_r.Text.{
  Str, simple_escape, hex_escape, escapes_loop, string_process_escapes,
}

hex_escape_fits : (input : Str) (i c : ℕ) → hex_escape input i ≡ some c → i + 2 < length input
unfolding hex_escape
hex_escape_fits input i c h =
    elim (Bool-cases (get_or input i 0 == b'x' && ltb (i + 2) (length input))) [
      | inl t ↦ ground (arith, t)
      | inr f ↦ cc (rw (hex_escape, f) at h)
    ]

-- What one run of the loop keeps.
record Bounded (input : Str) (r : Str × ℕ) : Type 0 where
  same_length : length r.0 ≡ length input
  inside : r.1 ≤ length input

Bounded-set : (input : Str) (o v : ℕ) (r : Str × ℕ) → Bounded (set input o v) r → Bounded input r
Bounded-set input o v r b = record {
  same_length = b.same_length ∙ length-set input o v;
  inside = omega (arith, b.inside, length-set input o v);
}

escapes_loop-Bounded :
    (fuel i o : ℕ) (input : Str)
    → o ≤ i
    → i ≤ length input
    → Bounded input (escapes_loop fuel i o input)
unfolding escapes_loop
escapes_loop-Bounded zero i o input h k = record { same_length = refl; inside = omega arith }
escapes_loop-Bounded (suc fuel) i o input h k = elim (Bool-cases (ltb i (length input))) [
  | inr f ↦ rw (escapes_loop, f) (record { same_length = refl; inside = omega arith })
  | inl t ↦ elim (Bool-cases (get_or input i 0 == b'\\' && ltb (i + 1) (length input))) [
    | inr f ↦
        let v = get_or input i 0 in
        let below : i < length input = ground (arith, t) in
        rw (escapes_loop, t, f)
          (Bounded-set input o v _ (
            escapes_loop-Bounded fuel (i + 1) (o + 1) (set input o v) (omega arith)
              (omega (arith, length-set input o v, below))))
    | inl u ↦
        let next : i + 1 < length input = ground (arith, u) in
        elim (Option-cases (simple_escape (get_or input (i + 1) 0))) [
          | inr (c, q) ↦
              rw (escapes_loop, t, u, q)
                (Bounded-set input o c _ (
                  escapes_loop-Bounded fuel (i + 2) (o + 1) (set input o c) (omega arith)
                    (omega (arith, length-set input o c, next))))
          | inl q ↦ elim (Option-cases (hex_escape input (i + 1))) [
            | inr (c, p) ↦
                let fits = hex_escape_fits input (i + 1) c p in
                rw (escapes_loop, t, u, q, p)
                  (Bounded-set input o c _ (
                    escapes_loop-Bounded fuel (i + 4) (o + 1) (set input o c) (omega arith)
                      (omega (arith, length-set input o c, fits))))
            | inl p ↦
                let marked = set input o b'\\' in
                let v = get_or marked (i + 1) 0 in
                rw (escapes_loop, t, u, q, p)
                  (Bounded-set input o b'\\' _ (
                    Bounded-set marked (o + 1) v _ (
                      escapes_loop-Bounded fuel (i + 2) (o + 2) (set marked (o + 1) v) (omega arith)
                        (omega
                          (arith, length-set marked (o + 1) v, length-set input o b'\\', next)))))
          ]
        ]
  ]
]

length-take : (n : ℕ) (s : Str) → length (take n s) ≤ n
length-take zero s = omega arith
length-take (suc n) [] = omega arith
length-take (suc n) (c ∷ cs) = omega (arith, length-take n cs)

-- The place where the loop cuts the string is not behind its end, so the result is no longer than the
-- string.
pub string_process_escapes-fits :
    (s : Str)
    → ((escapes_loop (length s) 0 0 s).1 ≤ length s)
      × (length (string_process_escapes s) ≤ length s)
unfolding string_process_escapes
string_process_escapes-fits s =
    let b = escapes_loop-Bounded (length s) 0 0 s (omega arith) (omega arith) in
    let r = escapes_loop (length s) 0 0 s in
    (b.inside, omega (arith, b.inside, length-take r.1 r.0))

set_same : (s : Str) (i : ℕ) → set s i (get_or s i 0) ≡ s
set_same [] i = refl
set_same (c ∷ cs) zero = refl
set_same (c ∷ cs) (suc i) = ap (λ r. c ∷ r) (set_same cs i)

All-get_or : (s : Str) (i : ℕ) → All (λ c. c ≢ b'\\') s → get_or s i 0 ≢ b'\\'
All-get_or [] i a = λ e. absurd (omega (arith, e))
All-get_or (c ∷ cs) zero a = a.0
All-get_or (c ∷ cs) (suc i) a = All-get_or cs i a.1

escapes_loop_plain :
    (fuel i : ℕ) (s : Str)
    → All (λ c. c ≢ b'\\') s
    → i + fuel ≡ length s
    → escapes_loop fuel i i s ≡ (s, length s)
unfolding escapes_loop
escapes_loop_plain zero i s a h = let e : i ≡ length s = omega arith in rw e refl
escapes_loop_plain (suc fuel) i s a h =
    let t : ltb i (length s) ≡ true = ground (arith, h) in
    let f = ==-ne (get_or s i 0) b'\\' (All-get_or s i a) in
    rw (escapes_loop, t, f, set_same s i) (escapes_loop_plain fuel (i + 1) s a (omega arith))

take_all : (s : Str) → take (length s) s ≡ s
take_all [] = refl
take_all (c ∷ cs) = ap (λ r. c ∷ r) (take_all cs)

-- A string without a backslash stays as it is.
pub string_process_escapes_plain : (s : Str) → All (λ c. c ≢ b'\\') s → string_process_escapes s ≡ s
unfolding string_process_escapes
string_process_escapes_plain s a =
    rw (escapes_loop_plain (length s) 0 s a (omega arith)) (take_all s)
