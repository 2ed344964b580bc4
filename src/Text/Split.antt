-- ===== src/Text/Split.antt =====
-- `string_split`, `string_join` and `string_replace_all` of code/source/common/common.cpp.
use gfx906_mixed_cuda_rocm_r.Base.{
  ℕ, zero, suc, ◌+◌, ◌<◌, ◌≡◌, inl, inr, refl, sym, ap, ◌∙◌, true, false, none, some, List, [], ◌∷◌,
  ◌++◌, ◌==◌, Bool-cases, Option-cases, length, All, length-append, take, drop, arith,
}
use gfx906_mixed_cuda_rocm_r.Text.{
  Str, starts_with, find, split_loop, string_split, string_join, replace_loop, string_replace_all,
}
use mathlib.Core.Option.{some-injective}
use mathlib.Core.Option

starts_with_lem : (n s : Str) → starts_with n s ≡ true → s ≡ n ++ drop (length n) s
unfolding starts_with
starts_with_lem [] s h = refl
starts_with_lem (c ∷ cs) [] h = cc
starts_with_lem (c ∷ cs) (d ∷ ds) h = elim (Bool-cases (c == d)) [
  | inl t ↦ let e : c ≡ d = ground arith in rw (e, ← starts_with_lem cs ds (rw t at h)) refl
  | inr f ↦ cc (rw f at h)
]

zero_add : (n : ℕ) → 0 + n ≡ n
zero_add n = omega arith

suc_add : (m n : ℕ) → suc m + n ≡ suc (m + n)
suc_add m n = omega arith

-- The first occurrence is an occurrence.
find_lem : (n s : Str) (i : ℕ) → find n s ≡ some i → s ≡ take i s ++ (n ++ drop (i + length n) s)
unfolding find
find_lem n [] i h = elim (Bool-cases (starts_with n [])) [
  | inl t ↦
      let e : 0 ≡ i = some-injective _ _ (rw t at h) in rw (← e, zero_add) (starts_with_lem n [] t)
  | inr f ↦ cc (rw f at h)
]
find_lem n (c ∷ cs) i h = elim (Bool-cases (starts_with n (c ∷ cs))) [
  | inl t ↦
      let e : 0 ≡ i = some-injective _ _ (rw t at h) in
      rw (← e, zero_add) (starts_with_lem n (c ∷ cs) t)
  | inr f ↦ elim (Option-cases (find n cs)) [
    | inl q ↦ cc (rw (f, q) at h)
    | inr (j, q) ↦
        let e : suc j ≡ i = some-injective _ _ (rw (f, q) at h) in
        rw (← e, suc_add) (ap (λ r. c ∷ r) (find_lem n cs j q))
  ]
]

starts_with-take : (n s : Str) (k : ℕ) → starts_with n s ≡ false → starts_with n (take k s) ≡ false
unfolding starts_with
starts_with-take [] s k h = h
starts_with-take (c ∷ cs) [] zero h = refl
starts_with-take (c ∷ cs) [] (suc k) h = refl
starts_with-take (c ∷ cs) (d ∷ ds) zero h = refl
starts_with-take (c ∷ cs) (d ∷ ds) (suc k) h = elim (Bool-cases (c == d)) [
  | inl t ↦ rw t (starts_with-take cs ds k (rw t at h))
  | inr f ↦ rw f refl
]

-- There is none before the first.
find-take :
    (c : ℕ) (cs s : Str) (i : ℕ) → find (c ∷ cs) s ≡ some i → find (c ∷ cs) (take i s) ≡ none
unfolding find starts_with
find-take c cs [] i h = cc
find-take c cs (d ∷ ds) zero h = refl
find-take c cs (d ∷ ds) (suc i) h = elim (Bool-cases (starts_with (c ∷ cs) (d ∷ ds))) [
  | inl t ↦ cc (rw t at h)
  | inr f ↦ elim (Option-cases (find (c ∷ cs) ds)) [
    | inl q ↦ cc (rw (f, q) at h)
    | inr (j, q) ↦
        let e : suc j ≡ suc i = some-injective _ _ (rw (f, q) at h) in
        let e' : j ≡ i = omega arith in
        rw (starts_with-take (c ∷ cs) (d ∷ ds) (suc i) f, find-take c cs ds i (rw e' at q)) refl
  ]
]

-- What the loops make of a string: the parts, which give it back when they are joined, and give the
-- result of the replacement when they are joined by that.
record Parts (delimiter : Str) (fuel : ℕ) (rest : Str) : Type 0 where
  first : Str
  more : List Str
  split : split_loop fuel delimiter rest ≡ some (first ∷ more)
  joined : string_join (first ∷ more) delimiter ≡ rest
  clean : All (λ p. find delimiter p ≡ none) (first ∷ more)
  replaced : (r : Str) → replace_loop fuel delimiter r rest ≡ some (string_join (first ∷ more) r)

split_loop-Parts :
    (c : ℕ) (cs : Str) (fuel : ℕ) (rest : Str) → length rest < fuel → Parts (c ∷ cs) fuel rest
unfolding split_loop replace_loop string_join
split_loop-Parts c cs zero rest h = absurd (omega arith)
split_loop-Parts c cs (suc fuel) rest h = elim (Option-cases (find (c ∷ cs) rest)) [
  | inl q ↦ record {
    first = rest;
    more = [];
    split = rw (split_loop, q) refl;
    joined = refl;
    clean = (q, tt);
    replaced = λ r. rw (replace_loop, q) refl;
  }
  | inr (i, q) ↦
      let found = find_lem (c ∷ cs) rest i q in
      let left : Str = drop (i + suc (length cs)) rest in
      let shorter : length left < fuel = omega (
        arith,
        h,
        length-append (take i rest) ((c ∷ cs) ++ left),
        length-append (c ∷ cs) left,
        ap length found,
      ) in
      let p = split_loop-Parts c cs fuel left shorter in
      record {
        first = take i rest;
        more = p.first ∷ p.more;
        split = rw (split_loop, q, p.split) refl;
        joined = ap (λ x. take i rest ++ ((c ∷ cs) ++ x)) p.joined ∙ sym found;
        clean = (find-take c cs rest i q, p.clean);
        replaced = λ r. rw (replace_loop, q, p.replaced r) refl;
      }
]

-- Splitting at a delimiter that is not empty ends. Joining the parts gives the string back, and no
-- part has the delimiter in it.
pub string_split_lem :
    (c : ℕ) (cs s : Str)
    → (parts : List Str) × (string_split s (c ∷ cs) ≡ some parts)
      × (string_join parts (c ∷ cs) ≡ s)
      × All (λ p. find (c ∷ cs) p ≡ none) parts
unfolding string_split
string_split_lem c cs s =
    let p = split_loop-Parts c cs (suc (length s)) s (omega arith) in
    (p.first ∷ p.more, p.split, p.joined, p.clean)

-- Replacing every occurrence of a string that is not empty is splitting there and joining the parts
-- by the replacement.
pub string_replace_all_lem :
    (c : ℕ) (cs s replacement : Str)
    → string_replace_all s (c ∷ cs) replacement
      ≡ Option.map (λ parts. string_join parts replacement) (string_split s (c ∷ cs))
unfolding string_split string_replace_all
string_replace_all_lem c cs s replacement =
    let p = split_loop-Parts c cs (suc (length s)) s (omega arith) in
    rw p.split (p.replaced replacement)

find_empty : (s : Str) → find [] s ≡ some 0
unfolding find starts_with
find_empty [] = refl
find_empty (c ∷ cs) = refl

-- With an empty delimiter the loop of the splitting never ends: no number of rounds gives a result.
pub split_loop_empty : (fuel : ℕ) (s : Str) → split_loop fuel [] s ≡ none
unfolding split_loop
split_loop_empty zero s = refl
split_loop_empty (suc fuel) s = rw (split_loop, find_empty s, split_loop_empty fuel s) refl
