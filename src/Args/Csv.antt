-- ===== src/Args/Csv.antt =====
-- `parse_csv_row` of code/source/common/arg.cpp reads back a row that is written with every field
-- quoted and every quote in a field doubled.
use gfx906_mixed_cuda_rocm_r.Base.{
  ℕ, ◌≡◌, refl, ◌∙◌, ap, true, false, List, [], ◌∷◌, ◌++◌, append-nil, append_assoc, ◌==◌,
  if◌then◌else◌, Bool-cases, inl, inr, arith,
}
use gfx906_mixed_cuda_rocm_r.Text.{Str}
use gfx906_mixed_cuda_rocm_r.Args.{csv_loop, parse_csv_row}

-- The writer.
abbrev pub escape_quotes : Str → Str
escape_quotes [] = []
escape_quotes (c ∷ cs) = if c == b'"' then b'"' ∷ b'"' ∷ escape_quotes cs else c ∷ escape_quotes cs

-- The text behind an opening quote.
abbrev pub behind_quote : Str → List Str → Str
behind_quote f [] = escape_quotes f ++ b'"' ∷ []
behind_quote f (g ∷ fs) = escape_quotes f ++ b'"' ∷ b',' ∷ b'"' ∷ behind_quote g fs

abbrev pub print_csv_row : Str → List Str → Str
print_csv_row f fs = b'"' ∷ behind_quote f fs

open_quote : (cs : Str) → csv_loop [] false (b'"' ∷ cs) ≡ csv_loop [] true cs
unfolding csv_loop
open_quote [] = refl
open_quote (d ∷ cs) = refl

plain_char :
    (field : Str) (c : ℕ) (cs : Str)
    → (c == b'"') ≡ false
    → csv_loop field true (c ∷ cs) ≡ csv_loop (field ++ c ∷ []) true cs
unfolding csv_loop
plain_char field c [] f = ground (arith, f)
plain_char field c (d ∷ cs) f = ground (arith, f)

behind_quote-quote :
    (cs : Str) (fs : List Str) → behind_quote (b'"' ∷ cs) fs ≡ b'"' ∷ b'"' ∷ behind_quote cs fs
behind_quote-quote cs [] = refl
behind_quote-quote cs (g ∷ fs) = refl

behind_quote_plain :
    (c : ℕ) (cs : Str) (fs : List Str)
    → (c == b'"') ≡ false
    → behind_quote (c ∷ cs) fs ≡ c ∷ behind_quote cs fs
behind_quote_plain c cs [] f = rw f refl
behind_quote_plain c cs (g ∷ fs) f = rw f refl

csv_loop-behind_quote :
    (field f : Str) (fs : List Str) → csv_loop field true (behind_quote f fs) ≡ (field ++ f) ∷ fs
unfolding csv_loop
csv_loop-behind_quote field [] [] = rw (append-nil field) refl
csv_loop-behind_quote field [] (g ∷ fs) =
    rw (open_quote (behind_quote g fs), csv_loop-behind_quote [] g fs, append-nil field) refl
csv_loop-behind_quote field (c ∷ cs) fs = elim (Bool-cases (c == b'"')) [
  | inl t ↦
      let e : c ≡ b'"' = ground (arith, t) in
      rw (e, behind_quote-quote cs fs)
        (csv_loop-behind_quote (field ++ b'"' ∷ []) cs fs
          ∙ ap (λ x. x ∷ fs) (append_assoc field _ cs))
  | inr f ↦
      rw (behind_quote_plain c cs fs f, plain_char field c (behind_quote cs fs) f)
        (csv_loop-behind_quote (field ++ c ∷ []) cs fs ∙ ap (λ x. x ∷ fs) (append_assoc field _ cs))
]

-- Reading a row whose fields are all quoted, with every quote in a field doubled, gives the fields
-- back, whatever commas and quotes they have.
pub parse_csv_row-print_csv_row :
    (f : Str) (fs : List Str) → parse_csv_row (print_csv_row f fs) ≡ f ∷ fs
unfolding parse_csv_row
parse_csv_row-print_csv_row f fs = open_quote (behind_quote f fs) ∙ csv_loop-behind_quote [] f fs
