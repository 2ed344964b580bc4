-- ===== src/Kv/Slot/Ring.antt =====
-- The order in which `llama_kv_cache::find_slot` (code/source/src/llama-kv-cache.cpp) visits the cells
-- of a stream one by one: upwards from the head, and from the first cell again behind the last.
use gfx906_mixed_cuda_rocm_r.Base.{
  ℕ, zero, suc, ◌+◌, ◌≤◌, ◌<◌, ◌≡◌, ◌≢◌, refl, ap, sym, ◌∙◌, inl, inr, Bool, true, false, List, [],
  ◌∷◌, ◌++◌, length, length-append, leb, le→leb, lt-leb, leb→le, All, All-append, Bool-cases, arith,
}
use mathlib.Core.Path.{subst}

unfoldable pub ring : ℕ → ℕ → ℕ → List ℕ
ring size zero h = []
ring size (suc r) h = elim (leb size h) [
  | true ↦ 0 ∷ ring size r 1
  | false ↦ h ∷ ring size r (h + 1)
]

unfoldable pub range : ℕ → ℕ → List ℕ
range h zero = []
range h (suc k) = h ∷ range (h + 1) k

-- The entries for which a test holds.
unfoldable pub keep : (ℕ → Bool) → List ℕ → List ℕ
keep t [] = []
keep t (x ∷ xs) = elim (t x) [ true ↦ x ∷ keep t xs | false ↦ keep t xs ]

unfoldable pub Distinct : List ℕ → Type 0
Distinct [] = Unit
Distinct (x ∷ xs) = All (λ y. x ≢ y) xs × Distinct xs

pub keep-true :
    (t : ℕ → Bool) (x : ℕ) (xs : List ℕ) → t x ≡ true → keep t (x ∷ xs) ≡ (x ∷ keep t xs)
unfolding keep
keep-true t x xs h = rw (keep, h)

pub keep-false : (t : ℕ → Bool) (x : ℕ) (xs : List ℕ) → t x ≡ false → keep t (x ∷ xs) ≡ keep t xs
unfolding keep
keep-false t x xs h = rw (keep, h)

pub keep-append : (t : ℕ → Bool) (xs ys : List ℕ) → keep t (xs ++ ys) ≡ keep t xs ++ keep t ys
unfolding keep
keep-append t [] ys = refl
keep-append t (x ∷ xs) ys = elim (Bool-cases (t x)) [
  | inl h ↦ rw (keep-true t x (xs ++ ys) h, keep-true t x xs h, keep-append t xs ys)
  | inr h ↦ rw (keep-false t x (xs ++ ys) h, keep-false t x xs h, keep-append t xs ys)
]

module _ (P : ℕ → Type 0) where
  pub keep-All : (t : ℕ → Bool) (xs : List ℕ) → All P xs → All P (keep t xs)
  unfolding keep
  keep-All t [] a = a
  keep-All t (x ∷ xs) a = elim (Bool-cases (t x)) [
    | inl h ↦ subst (All P) (sym (keep-true t x xs h)) (a.0, keep-All t xs a.1)
    | inr h ↦ subst (All P) (sym (keep-false t x xs h)) (keep-All t xs a.1)
  ]

pub keep-tested : (t : ℕ → Bool) (xs : List ℕ) → All (λ x. t x ≡ true) (keep t xs)
unfolding keep
keep-tested t [] = tt
keep-tested t (x ∷ xs) = elim (Bool-cases (t x)) [
  | inl h ↦ subst (All (λ y. t y ≡ true)) (sym (keep-true t x xs h)) (h, keep-tested t xs)
  | inr h ↦ subst (All (λ y. t y ≡ true)) (sym (keep-false t x xs h)) (keep-tested t xs)
]

pub keep-Distinct : (t : ℕ → Bool) (xs : List ℕ) → Distinct xs → Distinct (keep t xs)
unfolding keep Distinct
keep-Distinct t [] d = d
keep-Distinct t (x ∷ xs) d = elim (Bool-cases (t x)) [
  | inl h ↦
      subst Distinct (sym (keep-true t x xs h))
        (keep-All (λ y. x ≢ y) t xs d.0, keep-Distinct t xs d.1)
  | inr h ↦ subst Distinct (sym (keep-false t x xs h)) (keep-Distinct t xs d.1)
]

-- The two ranges do not meet.
pub append-Distinct :
    (xs ys : List ℕ)
    → Distinct xs
    → Distinct ys
    → All (λ x. All (λ y. x ≢ y) ys) xs
    → Distinct (xs ++ ys)
unfolding Distinct
append-Distinct [] ys d e a = e
append-Distinct (x ∷ xs) ys d e a =
    (All-append (λ y. x ≢ y) xs ys d.0 a.0, append-Distinct xs ys d.1 e a.1)

zero_add : (n : ℕ) → 0 + n ≡ n
zero_add n = omega arith

add_zero : (n : ℕ) → n + 0 ≡ n
add_zero n = omega arith

suc_add : (k n : ℕ) → suc k + n ≡ suc (k + n)
suc_add k n = omega arith

pub ring_wrap : (size r h : ℕ) → size ≤ h → ring size (suc r) h ≡ (0 ∷ ring size r 1)
unfolding ring
ring_wrap size r h b = rw (ring, le→leb size h b)

pub ring_next : (size r h : ℕ) → h < size → ring size (suc r) h ≡ (h ∷ ring size r (h + 1))
unfolding ring
ring_next size r h b = rw (ring, lt-leb size h b)

pub ring-range : (size r h : ℕ) → h + r ≤ size → ring size r h ≡ range h r
unfolding ring range
ring-range size zero h b = refl
ring-range size (suc r) h b =
    rw (ring_next size r h (omega arith), ring-range size r (h + 1) (omega arith))

pub ring_wrapped :
    (size r k h : ℕ) → h + k ≡ size → r ≤ size → ring size (k + r) h ≡ range h k ++ range 0 r
unfolding ring range
ring_wrapped size zero zero h e b = refl
ring_wrapped size (suc r) zero h e b =
    ap (λ n. ring size n h) (zero_add (suc r))
    ∙ ring_wrap size r h (omega arith)
    ∙ ap (λ xs. 0 ∷ xs) (ring-range size r 1 (omega arith))
ring_wrapped size r (suc k) h e b =
    ap (λ n. ring size n h) (suc_add k r)
    ∙ ring_next size (k + r) h (omega arith)
    ∙ ap (λ xs. h ∷ xs) (ring_wrapped size r k (h + 1) (omega arith) b)

pub length-range : (h k : ℕ) → length (range h k) ≡ k
unfolding range
length-range h zero = refl
length-range h (suc k) = ap suc (length-range (h + 1) k)

pub range-All : (P : ℕ → Type 0) (h k : ℕ) → ((i : ℕ) → h ≤ i → i < h + k → P i) → All P (range h k)
unfolding range
range-All P h zero f = tt
range-All P h (suc k) f = (
  f h (omega arith) (omega arith),
  range-All P (h + 1) k (λ i a b. f i (omega arith) (omega arith)),
)

pub range-Distinct : (h k : ℕ) → Distinct (range h k)
unfolding range Distinct
range-Distinct h zero = tt
range-Distinct h (suc k) =
    (range-All (λ y. h ≢ y) (h + 1) k (λ i a b. omega arith), range-Distinct (h + 1) k)

-- The whole ring, from a head on.
pub ring-Distinct : (size k h : ℕ) → h + k ≡ size → Distinct (ring size (k + h) h)
ring-Distinct size k h e = subst Distinct (sym (ring_wrapped size h k h e (omega arith))) (
    append-Distinct (range h k) (range 0 h) (range-Distinct h k) (range-Distinct 0 h) (
      range-All (λ x. All (λ y. x ≢ y) (range 0 h)) h k
        (λ i a b. range-All (λ y. i ≢ y) 0 h (λ j p q. omega arith))))

pub ring-All :
    (P : ℕ → Type 0) (size r h : ℕ)
    → h ≤ size
    → 1 ≤ size
    → ((i : ℕ) → i < size → P i)
    → All P (ring size r h)
unfolding ring
ring-All P size zero h b z f = tt
ring-All P size (suc r) h b z f = elim (Bool-cases (leb size h)) [
  | inl t ↦
      subst (All P) (sym (ring_wrap size r h (ground (arith, t))))
        (f 0 (omega arith), ring-All P size r 1 z z f)
  | inr t ↦
      subst (All P) (sym (ring_next size r h (ground (arith, t))))
        (f h (ground (arith, t)), ring-All P size r (h + 1) (ground (arith, t)) z f)
]

pub range-append : (r h k m : ℕ) → m ≡ h + k → range h (k + r) ≡ range h k ++ range m r
unfolding range
range-append r h zero m e =
    ap (λ n. range h n) (zero_add r) ∙ ap (λ a. range a r) (sym (e ∙ add_zero h))
range-append r h (suc k) m e =
    ap (λ n. range h n) (suc_add k r) ∙ ap (λ xs. h ∷ xs) (range-append r (h + 1) k m (omega arith))

-- As many entries pass a test in the ring as in the range of all cells.
pub length-ring :
    (t : ℕ → Bool) (size k h : ℕ)
    → h + k ≡ size
    → length (keep t (ring size (k + h) h)) ≡ length (keep t (range 0 size))
length-ring t size k h e =
    ap (λ xs. length (keep t xs)) (ring_wrapped size h k h e (omega arith))
    ∙ ap length (keep-append t (range h k) (range 0 h))
    ∙ length-append (keep t (range h k)) (keep t (range 0 h))
    ∙ omega arith
    ∙ sym (length-append (keep t (range 0 h)) (keep t (range h k)))
    ∙ ap length (sym (keep-append t (range 0 h) (range h k)))
    ∙ ap (λ xs. length (keep t xs)) (sym (range-append k 0 h h (omega arith)))
    ∙ ap (λ n. length (keep t (range 0 n))) e

length-keep-le : (t : ℕ → Bool) (xs : List ℕ) → length (keep t xs) ≤ length xs
unfolding keep
length-keep-le t [] = omega arith
length-keep-le t (x ∷ xs) = elim (Bool-cases (t x)) [
  | inl h ↦ omega (arith, length-keep-le t xs, ap length (keep-true t x xs h))
  | inr h ↦ omega (arith, length-keep-le t xs, ap length (keep-false t x xs h))
]

length-ring_steps : (size r h : ℕ) → length (ring size r h) ≡ r
unfolding ring
length-ring_steps size zero h = refl
length-ring_steps size (suc r) h = elim (Bool-cases (leb size h)) [
  | inl t ↦ ap length (ring_wrap size r h (leb→le size h t)) ∙ ap suc (length-ring_steps size r 1)
  | inr t ↦
      ap length (ring_next size r h (ground (arith, t))) ∙ ap suc (length-ring_steps size r (h + 1))
]

pub length-keep-ring : (t : ℕ → Bool) (size r h : ℕ) → length (keep t (ring size r h)) ≤ r
length-keep-ring t size r h =
    omega (arith, length-keep-le t (ring size r h), length-ring_steps size r h)
