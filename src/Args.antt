-- ===== src/Args.antt =====
-- The parsers of argument values in code/source/common/arg.cpp. An exception is `none`. Numbers are
-- read by `std::stoi` and `std::stof`, which are parameters: the value and how many characters they
-- read.
pub mod Wrap
pub mod Csv
pub mod Values
mod Tests
use gfx906_mixed_cuda_rocm_r.Base.{
  ℕ, zero, suc, ◌+◌, ◌-◌, Bool, true, false, not, ◌&&◌, ◌||◌, Option, none, some, List, [], ◌∷◌,
  ◌++◌, map, ltb, leb, ◌==◌, if◌then◌else◌, length, take, drop, bytes_eq,
}
use gfx906_mixed_cuda_rocm_r.Text.{Str, is_space, find}

-- Pieces at a character, of which there is always one.
pub with_first : ℕ → List Str → List Str
with_first c [] = (c ∷ []) ∷ []
with_first c (p ∷ ps) = (c ∷ p) ∷ ps

-- `string_split<std::string>(value, delim)` of code/source/common/common.h.
pub split_char : ℕ → Str → List Str
unfolding with_first
split_char delim [] = [] ∷ []
split_char delim (c ∷ cs) =
    let rest : List Str = split_char delim cs in if c == delim then [] ∷ rest else with_first c rest

-- The lines that `std::getline` gives: nothing behind the last line's end.
pub drop_last_empty : List Str → List Str
drop_last_empty [] = []
drop_last_empty ([] ∷ []) = []
drop_last_empty ((c ∷ cs) ∷ []) = (c ∷ cs) ∷ []
drop_last_empty (l ∷ m ∷ ls) = l ∷ drop_last_empty (m ∷ ls)

pub get_lines : Str → List Str
unfolding split_char drop_last_empty
get_lines input = drop_last_empty (split_char b'\n' input)

-- The words that `line_stream >> word` gives: the word that `cs` begins with, then the others.
pub words_from : Str → Str × List Str
unfolding is_space
words_from [] = ([], [])
words_from (c ∷ cs) =
    let rest : Str × List Str = words_from cs in
    if is_space c
    then ([], if length rest.0 == 0 then rest.1 else rest.0 ∷ rest.1)
    else (c ∷ rest.0, rest.1)

pub get_words : Str → List Str
unfolding words_from
get_words l = let w : Str × List Str = words_from l in if length w.0 == 0 then w.1 else w.0 ∷ w.1

-- The loop over the words of a long line.
pub wrap_words : ℕ → Str → List Str → List Str
wrap_words width [] [] = []
wrap_words width (c ∷ cs) [] = (c ∷ cs) ∷ []
wrap_words width [] (word ∷ words) = wrap_words width word words
wrap_words width (c ∷ cs) (word ∷ words) = elim (ltb width (length (c ∷ cs) + 1 + length word)) [
  | true ↦ (c ∷ cs) ∷ wrap_words width word words
  | false ↦ wrap_words width ((c ∷ cs) ++ (b' ' ∷ word)) words
]

pub add_line : ℕ → Str → List Str
unfolding get_words wrap_words
add_line width l = if leb (length l) width then l ∷ [] else wrap_words width [] (get_words l)

pub add_lines : ℕ → List Str → List Str
unfolding add_line
add_lines width [] = []
add_lines width (l ∷ ls) = add_line width l ++ add_lines width ls

pub break_str_into_lines : Str → ℕ → List Str
unfolding get_lines add_lines
break_str_into_lines input width = add_lines width (get_lines input)

abbrev split_suffix : Str
split_suffix = b'_' ∷ b'S' ∷ b'p' ∷ b'l' ∷ b'i' ∷ b't' ∷ []

-- A buffer type is a number, 0 for `nullptr`; `buft_name` is `ggml_backend_buft_name`, and `buft_list`
-- the table of `build_tensor_buffer_type_map`.
module _ (buft_name : ℕ → Str) (buft_list : Str → Option ℕ) where
  pub buft_name_ends_with_split : ℕ → Bool
  buft_name_ends_with_split buft =
      if buft == 0
      then false
      else leb (length split_suffix) (length (buft_name buft))
        && bytes_eq (drop (length (buft_name buft) - length split_suffix) (buft_name buft))
            split_suffix

  pub parse_override : Str → Option (Str × ℕ)
  unfolding find
  parse_override s = elim (find (b'=' ∷ []) s) [
    | none ↦ none
    | some i ↦ elim (buft_list (drop (i + 1) s)) [ none ↦ none | some buft ↦ some (take i s, buft) ]
  ]

  -- An exception leaves the overrides that were added before it, but ends the parsing.
  pub parse_overrides : List Str → List (Str × ℕ) → Option (List (Str × ℕ))
  unfolding parse_override
  parse_overrides [] overrides = some overrides
  parse_overrides (s ∷ ss) overrides = elim (parse_override s) [
    | none ↦ none
    | some o ↦ parse_overrides ss (overrides ++ o ∷ [])
  ]

  pub parse_tensor_buffer_overrides : Str → List (Str × ℕ) → Option (List (Str × ℕ))
  unfolding split_char parse_overrides
  parse_tensor_buffer_overrides value overrides = parse_overrides (split_char b',' value) overrides

  -- `block_regex` is `llm_ffn_exps_block_weight_regex`, a `printf` of the layer's number.
  pub apply_minimax_moe_buft_overrides :
      (ℕ → Str) → Str → List ℕ → List (Str × ℕ) → Option (List (Str × ℕ))
  unfolding buft_name_ends_with_split
  apply_minimax_moe_buft_overrides block_regex [] layers overrides = some overrides
  apply_minimax_moe_buft_overrides block_regex (c ∷ cs) [] overrides = none
  apply_minimax_moe_buft_overrides block_regex (c ∷ cs) (l ∷ ls) overrides =
      elim (buft_list (c ∷ cs)) [
        | none ↦ none
        | some buft ↦
            if buft_name_ends_with_split buft
            then some (overrides ++ map (λ layer. (block_regex layer, buft)) (l ∷ ls))
            else none
      ]

pub is_truthy : Str → Bool
is_truthy v =
    bytes_eq v (b'o' ∷ b'n' ∷ [])
    || (bytes_eq v (b'e' ∷ b'n' ∷ b'a' ∷ b'b' ∷ b'l' ∷ b'e' ∷ b'd' ∷ [])
        || (bytes_eq v (b't' ∷ b'r' ∷ b'u' ∷ b'e' ∷ []) || bytes_eq v (b'1' ∷ [])))

pub is_falsey : Str → Bool
is_falsey v =
    bytes_eq v (b'o' ∷ b'f' ∷ b'f' ∷ [])
    || (bytes_eq v (b'd' ∷ b'i' ∷ b's' ∷ b'a' ∷ b'b' ∷ b'l' ∷ b'e' ∷ b'd' ∷ [])
        || (bytes_eq v (b'f' ∷ b'a' ∷ b'l' ∷ b's' ∷ b'e' ∷ []) || bytes_eq v (b'0' ∷ [])))

pub parse_bool_value : Str → Option Bool
unfolding is_truthy is_falsey
parse_bool_value v = if is_truthy v then some true else if is_falsey v then some false else none

-- `ggml_backend_dev_by_name`, with whether the device is of the type CPU.
module _ (dev_by_name : Str → Option (ℕ × Bool)) where
  pub find_devices : List Str → Option (List (Option ℕ))
  find_devices [] = some (none ∷ [])
  find_devices (s ∷ ss) = elim (dev_by_name s) [
    | none ↦ none
    | some (dev, is_cpu) ↦
        if is_cpu
        then none
        else elim (find_devices ss) [ none ↦ none | some devs ↦ some (some dev ∷ devs) ]
  ]

  -- The devices, with a `nullptr` at their end; "none" alone gives the `nullptr`.
  pub devices_of : List Str → Option (List (Option ℕ))
  unfolding find_devices
  devices_of [] = none
  devices_of (s ∷ []) =
      if bytes_eq s (b'n' ∷ b'o' ∷ b'n' ∷ b'e' ∷ [])
      then some (none ∷ [])
      else find_devices (s ∷ [])
  devices_of (s ∷ t ∷ ss) = find_devices (s ∷ t ∷ ss)

  pub parse_device_list : Str → Option (List (Option ℕ))
  unfolding split_char devices_of
  parse_device_list value = devices_of (split_char b',' value)

-- The tokens between the matches of `[,/]+`: the piece that `cs` begins with, and the pieces behind
-- it; `matched` tells that `cs` stands behind a separator. The last piece is left out when it is empty,
-- unless nothing matched.
pub tokens_from : Bool → Str → Str × List Str
tokens_from matched [] = ([], [])
tokens_from matched (c ∷ cs) = elim (c == b',' || c == b'/') [
  | true ↦
      let behind : Str × List Str = tokens_from true cs in
      if matched
      then behind
      else ([], if length behind.0 == 0 then behind.1 else behind.0 ∷ behind.1)
  | false ↦ let inside : Str × List Str = tokens_from false cs in (c ∷ inside.0, inside.1)
]

pub split_list : Str → List Str
unfolding tokens_from
split_list value = let t : Str × List Str = tokens_from false value in t.0 ∷ t.1

-- `std::stoi` gives `none` for a negative number.
module _ (stoi : Str → Option (Option ℕ × ℕ)) where
  pub parse_layers : List Str → Option (List ℕ)
  parse_layers [] = some []
  parse_layers (part ∷ parts) = if length part == 0 then none else elim (stoi part) [
    | some (some v, pos) ↦
        if pos == length part
        then elim (parse_layers parts) [ none ↦ none | some vs ↦ some (v ∷ vs) ]
        else none
    | _ ↦ none
  ]

  pub parse_layer_split : Str → Option (List ℕ)
  unfolding split_list parse_layers
  parse_layer_split value = parse_layers (split_list value)

-- `not_positive v` is `v <= 0.0f`.
module _ {F : Type 0} (stof : Str → Option (F × ℕ)) (not_positive : F → Bool) where
  pub parse_speeds : List Str → Option (List F)
  parse_speeds [] = some []
  parse_speeds (part ∷ parts) = if length part == 0 then none else elim (stof part) [
    | some (v, pos) ↦
        if pos == length part && not (not_positive v)
        then elim (parse_speeds parts) [ none ↦ none | some vs ↦ some (v ∷ vs) ]
        else none
    | none ↦ none
  ]

  pub parse_device_speed : Str → Option (List F)
  unfolding split_list parse_speeds
  parse_device_speed value = parse_speeds (split_list value)

-- The loop of `parse_csv_row`: the field read so far, and whether a quote is open. The last character
-- has none behind it that a quote could escape.
pub csv_loop : Str → Bool → Str → List Str
csv_loop field in_quotes [] = field ∷ []
csv_loop field in_quotes (c ∷ []) = elim (c == b'"') [
  | true ↦ elim in_quotes [
    | true ↦ csv_loop field false []
    | false ↦ elim (length field == 0) [
      | true ↦ csv_loop field true []
      | false ↦ csv_loop (field ++ b'"' ∷ []) false []
    ]
  ]
  | false ↦ elim (c == b',' && not in_quotes) [
    | true ↦ field ∷ csv_loop [] false []
    | false ↦ csv_loop (field ++ c ∷ []) in_quotes []
  ]
]
csv_loop field in_quotes (c ∷ d ∷ cs) = elim (c == b'"') [
  | true ↦ elim in_quotes [
    | true ↦ elim (d == b'"') [
      | true ↦ csv_loop (field ++ b'"' ∷ []) true cs
      | false ↦ csv_loop field false (d ∷ cs)
    ]
    | false ↦ elim (length field == 0) [
      | true ↦ csv_loop field true (d ∷ cs)
      | false ↦ csv_loop (field ++ b'"' ∷ []) false (d ∷ cs)
    ]
  ]
  | false ↦ elim (c == b',' && not in_quotes) [
    | true ↦ field ∷ csv_loop [] false (d ∷ cs)
    | false ↦ csv_loop (field ++ c ∷ []) in_quotes (d ∷ cs)
  ]
]

pub parse_csv_row : Str → List Str
unfolding csv_loop
parse_csv_row input = csv_loop [] false input
