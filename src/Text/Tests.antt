-- ===== src/Text/Tests.antt =====
-- Runs of the string helpers, and the lemmas at concrete strings.
use gfx906_mixed_cuda_rocm_r.Base.{
  ◌≤◌, ◌≡◌, refl, true, none, some, List, [], ◌∷◌, ◌++◌, length, All, arith,
}
use gfx906_mixed_cuda_rocm_r.Text.{
  Str, find, string_strip, string_join, string_split, string_replace_all, string_repeat,
  escapes_loop, string_process_escapes,
}
use gfx906_mixed_cuda_rocm_r.Text.Split.{string_split_lem, string_replace_all_lem}
use gfx906_mixed_cuda_rocm_r.Text.Escapes.{string_process_escapes-fits}
use gfx906_mixed_cuda_rocm_r.Text.Override.{
  bool_value, string_parse_kv_override, string_parse_kv_override_lem,
}
use mathlib.Core.Option

abbrev a_b_c : Str
a_b_c = b'a' ∷ b',' ∷ b'b' ∷ b',' ∷ b',' ∷ b'c' ∷ []

abbrev comma : Str
comma = b',' ∷ []

split_runs : string_split a_b_c comma ≡ some ((b'a' ∷ []) ∷ (b'b' ∷ []) ∷ [] ∷ (b'c' ∷ []) ∷ [])
unfolding string_split
split_runs = refl

replace_runs :
    string_replace_all (b'a' ∷ b',' ∷ b'b' ∷ []) comma (b';' ∷ b' ' ∷ [])
    ≡ some (b'a' ∷ b';' ∷ b' ' ∷ b'b' ∷ [])
unfolding string_replace_all
replace_runs = refl

strip_runs : string_strip (b' ' ∷ b'\n' ∷ b'a' ∷ b' ' ∷ b'b' ∷ b' ' ∷ []) ≡ b'a' ∷ b' ' ∷ b'b' ∷ []
unfolding string_strip
strip_runs = refl

repeat_runs : string_repeat (b'a' ∷ b'b' ∷ []) 2 ≡ b'a' ∷ b'b' ∷ b'a' ∷ b'b' ∷ []
unfolding string_repeat
repeat_runs = refl

-- The text of a line break, of the byte 0x41, and of an escape that does not exist.
abbrev escaped : Str
escaped = b'\\' ∷ b'n' ∷ b'\\' ∷ b'x' ∷ b'4' ∷ b'1' ∷ b'\\' ∷ b'q' ∷ b'\\' ∷ []

escapes_run : string_process_escapes escaped ≡ b'\n' ∷ b'A' ∷ b'\\' ∷ b'q' ∷ b'\\' ∷ []
unfolding string_process_escapes
escapes_run = refl

string_split_lem_example :
    (parts : List Str) × (string_split a_b_c comma ≡ some parts)
    × (string_join parts comma ≡ a_b_c)
    × All (λ p. find comma p ≡ none) parts
string_split_lem_example = string_split_lem b',' [] a_b_c

string_replace_all_lem_example :
    string_replace_all a_b_c comma (b';' ∷ [])
    ≡ Option.map (λ parts. string_join parts (b';' ∷ [])) (string_split a_b_c comma)
string_replace_all_lem_example = string_replace_all_lem b',' [] a_b_c (b';' ∷ [])

string_process_escapes-fits_example :
    ((escapes_loop (length escaped) 0 0 escaped).1 ≤ length escaped)
    × (length (string_process_escapes escaped) ≤ length escaped)
string_process_escapes-fits_example = string_process_escapes-fits escaped

-- Numbers read and written as their text.
abbrev key_text : Str
key_text = b'k' ∷ []

abbrev same : Str → Str
same s = s

string_parse_kv_override_lem_example :
    string_parse_kv_override same same
      (key_text ++ b'=' ∷ b'b' ∷ b'o' ∷ b'o' ∷ b'l' ∷ b':' ∷ b't' ∷ b'r' ∷ b'u' ∷ b'e' ∷ [])
      []
    ≡ some (record { key = key_text; value = bool_value true } ∷ [])
unfolding find
string_parse_kv_override_lem_example =
    string_parse_kv_override_lem same same same same key_text (bool_value true) [] (λ i. refl)
      (λ f. refl) refl (omega arith) (omega arith)
