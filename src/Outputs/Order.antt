-- ===== src/Outputs/Order.antt =====
-- The selection sort at the end of `llama_context::decode` (code/source/src/llama-context.cpp), and
-- the swaps that it leaves for `output_reorder`.
use gfx906_mixed_cuda_rocm_r.Base.{
  ℕ, zero, suc, ◌+◌, ◌≤◌, ◌<◌, ◌≡◌, ◌⊎◌, inl, inr, refl, ap, ◌∙◌, List, [], ◌∷◌, map, ltb, ◌==◌,
  if◌then◌else◌, Bool-cases, length, length-set, set, get_or, arith,
}
use gfx906_mixed_cuda_rocm_r.Outputs.{find_min, swap, sort_rounds}
use mathlib.Core.Path.{subst}

get_or-set {ℓ} :
    {A : Type ℓ} (d : A) (xs : List A) (i k : ℕ) (v : A)
    → i < length xs
    → get_or (set xs i v) k d ≡ (if k == i then v else get_or xs k d)
get_or-set d [] i k v h = absurd (omega arith)
get_or-set d (x ∷ xs) zero zero v h = refl
get_or-set d (x ∷ xs) zero (suc k) v h = ground arith
get_or-set d (x ∷ xs) (suc i) zero v h = ground arith
get_or-set d (x ∷ xs) (suc i) (suc k) v h = ground (arith, get_or-set d xs i k v (omega arith))

length-swap {ℓ} : {A : Type ℓ} (d : A) (i j : ℕ) (xs : List A) → length (swap d i j xs) ≡ length xs
unfolding swap
length-swap d i j xs =
    length-set (set xs i (get_or xs j d)) j (get_or xs i d) ∙ length-set xs i (get_or xs j d)

get_or-swap {ℓ} :
    {A : Type ℓ} (d : A) (i j : ℕ) (xs : List A) (k : ℕ)
    → i < length xs
    → j < length xs
    → get_or (swap d i j xs) k d
      ≡ (if k == j then get_or xs i d else if k == i then get_or xs j d else get_or xs k d)
unfolding swap
get_or-swap d i j xs k hi hj =
    rw
      (
        get_or-set d (set xs i (get_or xs j d)) j k (get_or xs i d)
            (rw (length-set xs i (get_or xs j d)) hj),
        get_or-set d xs i k (get_or xs j d) hi,
      )
      refl

map-set {ℓ} :
    {A : Type ℓ} (f : ℕ → A) (xs : List ℕ) (i v : ℕ) → map f (set xs i v) ≡ set (map f xs) i (f v)
map-set f [] i v = refl
map-set f (x ∷ xs) zero v = refl
map-set f (x ∷ xs) (suc i) v = ap (λ r. f x ∷ r) (map-set f xs i v)

get_or-map {ℓ} :
    {A : Type ℓ} (d : A) (f : ℕ → A) (xs : List ℕ) (i : ℕ)
    → i < length xs
    → get_or (map f xs) i d ≡ f (get_or xs i 0)
get_or-map d f [] i h = absurd (omega arith)
get_or-map d f (x ∷ xs) zero h = refl
get_or-map d f (x ∷ xs) (suc i) h = get_or-map d f xs i (omega arith)

map-swap {ℓ} :
    {A : Type ℓ} (d : A) (f : ℕ → A) (i j : ℕ) (xs : List ℕ)
    → i < length xs
    → j < length xs
    → swap d i j (map f xs) ≡ map f (swap 0 i j xs)
unfolding swap
map-swap d f i j xs hi hj =
    rw
      (
        get_or-map d f xs i hi,
        get_or-map d f xs j hj,
        map-set f (set xs i (get_or xs j 0)) j (get_or xs i 0),
        map-set f xs i (get_or xs j 0),
      )
      refl

-- The place that the search gives: it is in the range, and no entry of the range is smaller.
record Least (n j j_min r : ℕ) (ids : List ℕ) : Type 0 where
  place : (r ≡ j_min) ⊎ ((j ≤ r) × (r < j + n))
  best : get_or ids r 0 ≤ get_or ids j_min 0
  least : (b : ℕ) → j ≤ b → b < j + n → get_or ids r 0 ≤ get_or ids b 0

find_min-Least : (n j j_min : ℕ) (ids : List ℕ) → Least n j j_min (find_min n j j_min ids) ids
unfolding find_min
find_min-Least zero j j_min ids = record {
  place = inl refl;
  best = omega arith;
  least = λ b p q. absurd (omega (arith, p, q));
}
find_min-Least (suc n) j j_min ids = elim (Bool-cases (ltb (get_or ids j 0) (get_or ids j_min 0))) [
  | inl t ↦
      let r = find_min-Least n (j + 1) j ids in
      rw (find_min, t)
        (record {
          place = inr (ground (arith, r.place));
          best = ground (arith, r.best, t);
          least = λ b p q. elim (Bool-cases (b == j)) [
            | inl e ↦ let e' : b ≡ j = ground (arith, e) in rw e' r.best
            | inr g ↦ r.least b (ground (arith, g)) (omega arith)
          ];
        })
  | inr f ↦
      let r = find_min-Least n (j + 1) j_min ids in
      rw (find_min, f)
        (record {
          place = ground (arith, r.place);
          best = r.best;
          least = λ b p q. elim (Bool-cases (b == j)) [
            | inl e ↦ let e' : b ≡ j = ground (arith, e) in rw e' (ground (arith, r.best, f))
            | inr g ↦ r.least b (ground (arith, g)) (omega arith)
          ];
        })
]

-- The entries before `i` are in order, and no later entry is smaller.
abbrev Settled : ℕ → List ℕ → Type 0
Settled i ids = (a b : ℕ) → a < i → a < b → b < length ids → get_or ids a 0 ≤ get_or ids b 0

swap-Settled :
    (i m : ℕ) (ids : List ℕ)
    → i ≤ m
    → m < length ids
    → ((b : ℕ) → i ≤ b → b < length ids → get_or ids m 0 ≤ get_or ids b 0)
    → Settled i ids
    → Settled (i + 1) (swap 0 i m ids)
swap-Settled i m ids h hm least s a b p q hb =
    rw (get_or-swap 0 i m ids a (omega arith) hm, get_or-swap 0 i m ids b (omega arith) hm)
      (let hb' : b < length ids = omega (arith, hb, length-swap 0 i m ids) in
        elim (Bool-cases (ltb a i)) [
          | inl t ↦
              let t' : a < i = ground (arith, t) in
              ground (arith, s a m t' (omega arith) hm, s a i t' t' (omega arith), s a b t' q hb')
          | inr f ↦
              ground
                (arith, f, least i (omega arith) (omega arith), least b (ground (arith, f)) hb')
        ])

keep-Settled :
    (i : ℕ) (ids : List ℕ)
    → ((b : ℕ) → i ≤ b → b < length ids → get_or ids i 0 ≤ get_or ids b 0)
    → Settled i ids
    → Settled (i + 1) ids
keep-Settled i ids least s a b p q hb = elim (Bool-cases (ltb a i)) [
  | inl t ↦ s a b (ground (arith, t)) q hb
  | inr f ↦ let e : a ≡ i = ground (arith, f) in rw e (least b (omega arith) hb)
]

-- Swaps done one after the other.
abbrev pub replay {ℓ} : {A : Type ℓ} → A → List (ℕ × ℕ) → List A → List A
replay d [] xs = xs
replay d ((i, j) ∷ swaps) xs = replay d swaps (swap d i j xs)

-- How often a value occurs.
abbrev pub count : ℕ → List ℕ → ℕ
count v [] = 0
count v (x ∷ xs) = (if x == v then 1 else 0) + count v xs

-- The lists hold the same values, as often.
abbrev pub SameItems : List ℕ → List ℕ → Type 0
SameItems xs ys = (v : ℕ) → count v xs ≡ count v ys

count-set :
    (xs : List ℕ) (i x v : ℕ)
    → i < length xs
    → count v (set xs i x) + (if get_or xs i 0 == v then 1 else 0)
      ≡ count v xs + (if x == v then 1 else 0)
count-set [] i x v h = absurd (omega arith)
count-set (y ∷ xs) zero x v h = omega arith
count-set (y ∷ xs) (suc i) x v h = omega (arith, count-set xs i x v (omega arith))

swap-SameItems :
    (i j : ℕ) (xs : List ℕ) → i < length xs → j < length xs → SameItems (swap 0 i j xs) xs
unfolding swap
swap-SameItems i j xs hi hj v =
    let a = get_or xs i 0 in
    let b = get_or xs j 0 in
    let first = count-set xs i b v hi in
    let second = count-set (set xs i b) j a v (rw (length-set xs i b) hj) in
    let here = get_or-set 0 xs i j b hi in
    elim (Bool-cases (j == i)) [
      | inl t ↦ let e : j ≡ i = ground (arith, t) in ground (arith, first, second, here, t, e)
      | inr f ↦
          let e : get_or (set xs i b) j 0 ≡ b = rw f at here in
          let second' = rw e at second in omega (arith, first, second')
    ]

-- The sorted ids, and what the swaps do to a list of values of the ids.
record Sorted (ids : List ℕ) (res : List ℕ × List (ℕ × ℕ)) : Type 1 where
  size : length res.0 ≡ length ids
  settled : Settled (length ids) res.0
  same_items : SameItems res.0 ids
  replayed : {A : Type 0} (d : A) (f : ℕ → A) → replay d res.1 (map f ids) ≡ map f res.0

sort_rounds-Sorted :
    (n i : ℕ) (ids : List ℕ) → i + n ≡ length ids → Settled i ids → Sorted ids (sort_rounds n i ids)
unfolding sort_rounds
sort_rounds-Sorted zero i ids e s = record {
  size = refl;
  settled = let e' : i ≡ length ids = omega arith in subst (λ k. Settled k ids) e' s;
  same_items = λ v. refl;
  replayed = λ d f. refl;
}
sort_rounds-Sorted (suc n) i ids e s =
    let m = find_min n (i + 1) i ids in
    let found = find_min-Least n (i + 1) i ids in
    let least : (b : ℕ) → i ≤ b → b < length ids → get_or ids m 0 ≤ get_or ids b 0 = λ b p q.
      elim (Bool-cases (b == i)) [
        | inl t ↦ let b_is : b ≡ i = ground (arith, t) in rw b_is found.best
        | inr f ↦ found.least b (ground (arith, f)) (omega arith)
      ] in
    elim (Bool-cases (m == i)) [
      | inl t ↦
          let m_is : m ≡ i = ground (arith, t) in
          rw (sort_rounds, t)
            (sort_rounds-Sorted n (i + 1) ids (omega arith)
              (keep-Settled i ids (rw m_is at least) s))
      | inr f ↦
          let above : i ≤ m = ground (arith, found.place) in
          let below : m < length ids = ground (arith, found.place, e) in
          let ids' = swap 0 i m ids in
          let same = length-swap 0 i m ids in
          let r =
            sort_rounds-Sorted n (i + 1) ids' (omega (arith, same, e))
              (swap-Settled i m ids above below least s) in
          rw (sort_rounds, f)
            (record {
              size = r.size ∙ same;
              settled = rw same at r.settled;
              same_items = λ v. r.same_items v ∙ swap-SameItems i m ids (omega arith) below v;
              replayed = λ d f'.
                  ap (replay d (sort_rounds n (i + 1) ids').1)
                    (map-swap d f' i m ids (omega arith) below)
                  ∙ r.replayed d f';
            })
    ]

sorted : (out_ids : List ℕ) → Sorted out_ids (sort_rounds (length out_ids) 0 out_ids)
sorted out_ids =
    sort_rounds-Sorted (length out_ids) 0 out_ids (omega arith) (λ a b p. absurd (omega (arith, p)))

-- The selection sort puts the ids of the output tokens in ascending order: of two places, the later one
-- has no smaller id. It keeps all ids: every value occurs in the result as often as before, and the
-- number of ids stays.
pub sort_rounds_ascends :
    (out_ids : List ℕ) (a b : ℕ)
    → a < b
    → b < length out_ids
    → (get_or (sort_rounds (length out_ids) 0 out_ids).0 a 0
        ≤ get_or (sort_rounds (length out_ids) 0 out_ids).0 b 0)
      × SameItems (sort_rounds (length out_ids) 0 out_ids).0 out_ids
      × (length (sort_rounds (length out_ids) 0 out_ids).0 ≡ length out_ids)
sort_rounds_ascends out_ids a b p q =
    let r = sorted out_ids in
    (r.settled a b (omega arith) p (omega (arith, q, r.size)), r.same_items, r.size)

-- The swaps that the selection sort remembers, done later to the values that the outputs had in the
-- old order, give the values in the order of the sorted ids.
pub replay-sort_rounds :
    {A : Type 0} (d : A) (value : ℕ → A) (out_ids : List ℕ)
    → replay d (sort_rounds (length out_ids) 0 out_ids).1 (map value out_ids)
      ≡ map value (sort_rounds (length out_ids) 0 out_ids).0
replay-sort_rounds d value out_ids = (sorted out_ids).replayed d value
