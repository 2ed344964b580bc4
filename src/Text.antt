-- ===== src/Text.antt =====
-- The string helpers of code/source/common/common.cpp. A string is the list of its bytes.
pub mod Split
pub mod Escapes
pub mod Override
mod Tests
use gfx906_mixed_cuda_rocm_r.Base.{
  ℕ, zero, suc, ◌+◌, ◌-◌, ◌*◌, ◌%◌, Bool, true, false, not, ◌&&◌, ◌||◌, Option, none, some, List,
  [], ◌∷◌, ◌++◌, ltb, leb, ◌==◌, if◌then◌else◌, is_some, length, set, take, drop, get_or,
}

abbrev pub Str : Type 0
Str = List ℕ

-- `std::isspace` of the C locale: tab to carriage return, and the space.
unfoldable pub is_space : ℕ → Bool
is_space c = c == b' ' || (leb 9 c && leb c 13)

-- `strncmp(s, p, strlen(p)) == 0`, or what `compare` tests at a place of a string.
unfoldable pub starts_with : Str → Str → Bool
starts_with [] s = true
starts_with (c ∷ cs) [] = false
starts_with (c ∷ cs) (d ∷ ds) = c == d && starts_with cs ds

-- `std::string::find`: the place of the first occurrence of `needle`.
unfoldable pub find : Str → Str → Option ℕ
unfolding starts_with
find needle [] = if starts_with needle [] then some 0 else none
find needle (c ∷ cs) =
    let later : Option ℕ = find needle cs in
    if starts_with needle (c ∷ cs)
    then some 0
    else elim later [ none ↦ none | some i ↦ some (suc i) ]

-- The two loops of `string_strip`.
pub skip_spaces : Str → Str
unfolding is_space
skip_spaces [] = []
skip_spaces (c ∷ cs) = let rest : Str = skip_spaces cs in if is_space c then rest else c ∷ cs

pub keep_spaces : ℕ → Str → Str
unfolding is_space
keep_spaces c [] = if is_space c then [] else c ∷ []
keep_spaces c (d ∷ rest) = c ∷ d ∷ rest

pub trim_end : Str → Str
unfolding keep_spaces
trim_end [] = []
trim_end (c ∷ cs) = keep_spaces c (trim_end cs)

pub string_strip : Str → Str
unfolding skip_spaces trim_end
string_strip s = trim_end (skip_spaces s)

unfoldable pub string_join : List Str → Str → Str
string_join [] separator = []
string_join (v ∷ []) separator = v
string_join (v ∷ w ∷ vs) separator = v ++ (separator ++ string_join (w ∷ vs) separator)

-- The loops of `string_split` and `string_replace_all` over what is left of the string. With no fuel
-- left they give `none`; the string's length and one more is enough for a separator that is not
-- empty.
pub split_loop : ℕ → Str → Str → Option (List Str)
unfolding find
split_loop zero delimiter rest = none
split_loop (suc fuel) delimiter rest = elim (find delimiter rest) [
  | none ↦ some (rest ∷ [])
  | some i ↦ elim (split_loop fuel delimiter (drop (i + length delimiter) rest)) [
    | none ↦ none
    | some parts ↦ some (take i rest ∷ parts)
  ]
]

pub string_split : Str → Str → Option (List Str)
unfolding split_loop
string_split s delimiter = split_loop (suc (length s)) delimiter s

pub replace_loop : ℕ → Str → Str → Str → Option Str
unfolding find
replace_loop zero search replacement rest = none
replace_loop (suc fuel) search replacement rest = elim (find search rest) [
  | none ↦ some rest
  | some i ↦ elim (replace_loop fuel search replacement (drop (i + length search) rest)) [
    | none ↦ none
    | some tail ↦ some (take i rest ++ (replacement ++ tail))
  ]
]

pub string_replace_all : Str → Str → Str → Option Str
unfolding replace_loop
string_replace_all s [] replacement = some s
string_replace_all s (c ∷ cs) replacement = replace_loop (suc (length s)) (c ∷ cs) replacement s

pub string_repeat : Str → ℕ → Str
string_repeat s zero = []
string_repeat s (suc n) = s ++ string_repeat s n

unfoldable pub hex_digit : ℕ → Option ℕ
hex_digit c =
    if leb b'0' c && leb c b'9'
    then some (c - b'0')
    else if leb b'a' c && leb c b'f'
    then some (c - 87)
    else if leb b'A' c && leb c b'F'
    then some (c - 55)
    else none

-- `strtol(x, &err_p, 16)` of the two characters `a` and `b`, cut to a `char`, where it reads both: two
-- digits, or one behind a space or a sign.
pub strtol16 : ℕ → ℕ → Option ℕ
unfolding hex_digit is_space
strtol16 a b = elim (hex_digit b) [
  | none ↦ none
  | some y ↦ elim (hex_digit a) [
    | some x ↦ some (x * 16 + y)
    | none ↦
        if is_space a || a == b'+'
        then some y
        else if a == b'-'
        then some ((256 - y) % 256)
        else none
  ]
]

-- The character that a backslash and `c` stand for, but for `x`.
pub simple_escape : ℕ → Option ℕ
simple_escape c =
    if c == b'n'
    then some 10
    else if c == b'r'
    then some 13
    else if c == b't'
    then some 9
    else if c == b'\''
    then some b'\''
    else if c == b'"'
    then some b'"'
    else if c == b'\\'
    then some b'\\'
    else none

-- `\x` and two digits, where `i` is the place of the `x`.
pub hex_escape : Str → ℕ → Option ℕ
unfolding strtol16
hex_escape input i =
    if get_or input i 0 == b'x' && ltb (i + 2) (length input)
    then strtol16 (get_or input (i + 1) 0) (get_or input (i + 2) 0)
    else none

-- The loop of `string_process_escapes`, in place: `i` reads and `o` writes. The result is the input
-- and the place where it is cut.
pub escapes_loop : ℕ → ℕ → ℕ → Str → Str × ℕ
unfolding simple_escape hex_escape
escapes_loop zero i o input = (input, o)
escapes_loop (suc fuel) i o input = elim (ltb i (length input)) [
  | false ↦ (input, o)
  | true ↦ elim (get_or input i 0 == b'\\' && ltb (i + 1) (length input)) [
    | false ↦ escapes_loop fuel (i + 1) (o + 1) (set input o (get_or input i 0))
    | true ↦ elim (simple_escape (get_or input (i + 1) 0)) [
      | some c ↦ escapes_loop fuel (i + 2) (o + 1) (set input o c)
      | none ↦ elim (hex_escape input (i + 1)) [
        | some c ↦ escapes_loop fuel (i + 4) (o + 1) (set input o c)
        | none ↦
            let marked : Str = set input o b'\\' in
            escapes_loop fuel (i + 2) (o + 2) (set marked (o + 1) (get_or marked (i + 1) 0))
      ]
    ]
  ]
]

pub string_process_escapes : Str → Str
unfolding escapes_loop
string_process_escapes input =
    let (buffer, o) = escapes_loop (length input) 0 0 input in take o buffer
