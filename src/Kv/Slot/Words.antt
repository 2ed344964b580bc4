-- ===== src/Kv/Slot/Words.antt =====
-- The result of a search in `llama_kv_cache::find_slot` (code/source/src/llama-kv-cache.cpp) as the first
-- of the usable cells, and its 32-bit sums where they do not wrap around.
use gfx906_mixed_cuda_rocm_r.Base.{
  ℕ, ◌+◌, ◌≤◌, ◌<◌, ◌≡◌, ◌≢◌, refl, ◌⊎◌, ap, sym, ◌∙◌, true, false, List, [], ◌∷◌, ◌++◌, length,
  length-append, take, ltb, leb, le→leb, lt-leb, ◌==◌, arith, if◌then◌else◌,
}
use gfx906_mixed_cuda_rocm_r.Kv.Slot.{Outcome, found, nowhere, add32, sub32, u32_mod}

-- The first `n` of the usable cells, when there are as many.
unfoldable pub first_cells : ℕ → List ℕ → Outcome
first_cells n l = if leb n (length l) then found (take n l) else nowhere

pub take_all : (xs ys : List ℕ) → take (length xs) (xs ++ ys) ≡ xs
take_all [] ys = refl
take_all (x ∷ xs) ys = ap (λ l. x ∷ l) (take_all xs ys)

pub first_cells_full :
    (n : ℕ) (xs ys : List ℕ) → length xs ≡ n → first_cells n (xs ++ ys) ≡ found xs
unfolding first_cells
first_cells_full n xs ys e =
    rw (le→leb n (length (xs ++ ys)) (omega (arith, length-append xs ys)))
      (ap found (sym (ap (λ k. take k (xs ++ ys)) e) ∙ take_all xs ys))

pub first_cells_short : (n : ℕ) (xs : List ℕ) → length xs < n → first_cells n xs ≡ nowhere
unfolding first_cells
first_cells_short n xs h = rw (lt-leb n (length xs) h)

pub eqb : (a b : ℕ) → a ≡ b → (a == b) ≡ true
eqb a b h = ground arith

pub add32_small : (a b : ℕ) → a + b < u32_mod → add32 a b ≡ a + b
add32_small a b h = omega arith

pub no_wrap : (h n : ℕ) → h < n → n < 2147483648 → ltb n (add32 h 1) ≡ false
no_wrap h n b z = ground (arith, add32_small h 1 (omega arith))

pub wrap_tested : (nt n : ℕ) → nt < u32_mod → n < u32_mod → add32 nt (sub32 n n) ≡ nt
wrap_tested nt n b z = omega arith

pub ==-cases : (a b : ℕ) → (a ≡ b) ⊎ (a ≢ b)
==-cases a b = ground arith

pub end : (h n : ℕ) → h ≤ n → ltb h n ≡ false → h ≡ n
end h n b t = ground arith
