-- ===== src/Args/Tests.antt =====
-- Runs of the parsers of arguments, and the lemmas at concrete values.
use gfx906_mixed_cuda_rocm_r.Base.{
  ℕ, ◌≡◌, ◌⊎◌, refl, Bool, false, Option, none, some, List, [], ◌∷◌, ◌++◌, map, ◌==◌, All, arith,
}
use gfx906_mixed_cuda_rocm_r.Text.{Str, string_join}
use gfx906_mixed_cuda_rocm_r.Args.{
  split_char, wrap_words, break_str_into_lines, split_list, parse_csv_row, parse_device_list,
  parse_bool_value,
}
use gfx906_mixed_cuda_rocm_r.Args.Csv.{print_csv_row, parse_csv_row-print_csv_row}
use gfx906_mixed_cuda_rocm_r.Args.Wrap.{Short, wrap_words_lem}
use gfx906_mixed_cuda_rocm_r.Args.Values.{none_text, AllNamed, parse_device_list_lem}

-- a,"b,""c"
abbrev csv_row : Str
csv_row = b'a' ∷ b',' ∷ b'"' ∷ b'b' ∷ b',' ∷ b'"' ∷ b'"' ∷ b'c' ∷ b'"' ∷ []

csv_runs : parse_csv_row csv_row ≡ (b'a' ∷ []) ∷ (b'b' ∷ b',' ∷ b'"' ∷ b'c' ∷ []) ∷ []
unfolding parse_csv_row
csv_runs = refl

parse_csv_row-print_csv_row_example :
    parse_csv_row (print_csv_row csv_row ([] ∷ [])) ≡ csv_row ∷ [] ∷ []
parse_csv_row-print_csv_row_example = parse_csv_row-print_csv_row csv_row ([] ∷ [])

lines_run :
    break_str_into_lines (b'a' ∷ b' ' ∷ b'b' ∷ b' ' ∷ b'c' ∷ b'\n' ∷ b'd' ∷ []) 3
    ≡ (b'a' ∷ b' ' ∷ b'b' ∷ []) ∷ (b'c' ∷ []) ∷ (b'd' ∷ []) ∷ []
unfolding break_str_into_lines
lines_run = refl

list_runs : split_list (b'1' ∷ b',' ∷ b'/' ∷ b'2' ∷ b'/' ∷ []) ≡ (b'1' ∷ []) ∷ (b'2' ∷ []) ∷ []
unfolding split_list
list_runs = refl

bool_runs : parse_bool_value (b'o' ∷ b'f' ∷ b'f' ∷ []) ≡ some false
unfolding parse_bool_value
bool_runs = refl

abbrev words : List Str
words = (b'a' ∷ []) ∷ (b'b' ∷ []) ∷ (b'c' ∷ []) ∷ []

wrap_words_lem_example :
    All (Short 3) (wrap_words 3 [] words)
    × (string_join (wrap_words 3 [] words) (b' ' ∷ []) ≡ string_join words (b' ' ∷ []))
wrap_words_lem_example =
    wrap_words_lem 3 words
      ((omega arith, omega arith), ((omega arith, omega arith), ((omega arith, omega arith), tt)))

-- The device number is the name's first byte; the CPU is 'c'.
abbrev by_name : Str → Option (ℕ × Bool)
by_name [] = none
by_name (c ∷ cs) = some (c, c == b'c')

abbrev two_devices : List (Option ℕ)
two_devices = some b'x' ∷ some b'y' ∷ none ∷ []

parse_device_list_lem_example :
    ((b'x' ∷ b',' ∷ b'y' ∷ [] ≡ none_text) × (two_devices ≡ none ∷ []))
    ⊎ ((ds : List ℕ) × AllNamed by_name (split_char b',' (b'x' ∷ b',' ∷ b'y' ∷ [])) ds
        × (two_devices ≡ map some ds ++ none ∷ []))
unfolding parse_device_list
parse_device_list_lem_example =
    parse_device_list_lem by_name (b'x' ∷ b',' ∷ b'y' ∷ []) two_devices refl
