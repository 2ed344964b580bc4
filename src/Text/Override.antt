-- ===== src/Text/Override.antt =====
-- `string_parse_kv_override` of code/source/common/common.cpp: metadata overrides written as
-- `key=type:value`. `std::atol` and `std::atof` are parameters.
use gfx906_mixed_cuda_rocm_r.Base.{
  ℕ, suc, ◌<◌, ◌≤◌, ◌≡◌, refl, ap, Bool, true, false, Option, none, some, List, [], ◌∷◌, ◌++◌, ltb,
  leb, ◌==◌, if◌then◌else◌, length, take, drop, bytes_eq, arith, Bool-cases, Option-cases, inl, inr,
}
use gfx906_mixed_cuda_rocm_r.Text.{Str, starts_with, find}

pub data KvValue (I F : Type 0) : Type 0 where
  int_value : I → KvValue I F
  float_value : F → KvValue I F
  bool_value : Bool → KvValue I F
  str_value : Str → KvValue I F

pub record KvOverride (I F : Type 0) : Type 0 where
  pub key : Str
  pub value : KvValue I F

abbrev pub true_text : Str
true_text = b't' ∷ b'r' ∷ b'u' ∷ b'e' ∷ []

abbrev pub false_text : Str
false_text = b'f' ∷ b'a' ∷ b'l' ∷ b's' ∷ b'e' ∷ []

abbrev pub int_tag : Str
int_tag = b'i' ∷ b'n' ∷ b't' ∷ b':' ∷ []

abbrev pub float_tag : Str
float_tag = b'f' ∷ b'l' ∷ b'o' ∷ b'a' ∷ b't' ∷ b':' ∷ []

abbrev pub bool_tag : Str
bool_tag = b'b' ∷ b'o' ∷ b'o' ∷ b'l' ∷ b':' ∷ []

abbrev pub str_tag : Str
str_tag = b's' ∷ b't' ∷ b'r' ∷ b':' ∷ []

module _ {I F : Type 0} (atol : Str → I) (atof : Str → F) where
  pub parse_bool_text : Str → Option Bool
  parse_bool_text s =
      if bytes_eq s true_text then some true else if bytes_eq s false_text then some false else none

  -- What stands behind the `=`.
  pub parse_kv_value : Str → Option (KvValue I F)
  unfolding starts_with parse_bool_text
  parse_kv_value s =
      if starts_with int_tag s
      then some (int_value (atol (drop 4 s)))
      else if starts_with float_tag s
      then some (float_value (atof (drop 6 s)))
      else if starts_with bool_tag s
      then elim (parse_bool_text (drop 5 s)) [ none ↦ none | some b ↦ some (bool_value b) ]
      else if starts_with str_tag s
      then if ltb 127 (length (drop 4 s)) then none else some (str_value (drop 4 s))
      else none

  -- `data` is a C string, with no zero in it. `none` is the result `false`, which adds nothing.
  pub string_parse_kv_override : Str → List (KvOverride I F) → Option (List (KvOverride I F))
  unfolding find parse_kv_value
  string_parse_kv_override data_text overrides = elim (find (b'=' ∷ []) data_text) [
    | none ↦ none
    | some i ↦ if leb 128 i then none else elim (parse_kv_value (drop (suc i) data_text)) [
      | none ↦ none
      | some v ↦ some (overrides ++ record { key = take i data_text; value = v } ∷ [])
    ]
  ]

take-append : (key rest : Str) → take (length key) (key ++ rest) ≡ key
take-append [] rest = refl
take-append (c ∷ cs) rest = ap (λ r. c ∷ r) (take-append cs rest)

drop-append : (key rest : Str) (c : ℕ) → drop (suc (length key)) (key ++ c ∷ rest) ≡ rest
drop-append [] rest c = refl
drop-append (d ∷ ds) rest c = drop-append ds rest c

find-append :
    (c : ℕ) (key rest : Str)
    → find (c ∷ []) key ≡ none
    → find (c ∷ []) (key ++ c ∷ rest) ≡ some (length key)
unfolding find starts_with
find-append c [] rest h = ground arith
find-append c (d ∷ ds) rest h = elim (Bool-cases (c == d)) [
  | inl t ↦ cc (rw t at h)
  | inr f ↦ elim (Option-cases (find (c ∷ []) ds)) [
    | inl q ↦ rw (f, find-append c ds rest q) refl
    | inr (i, q) ↦ cc (rw (f, q) at h)
  ]
]

module _ {I F : Type 0} (atol : Str → I) (atof : Str → F) (print_int : I → Str)
    (print_float : F → Str) where
  -- A writer of values.
  abbrev pub print_kv_value : KvValue I F → Str
  print_kv_value (int_value i) = int_tag ++ print_int i
  print_kv_value (float_value f) = float_tag ++ print_float f
  print_kv_value (bool_value b) = bool_tag ++ (if b then true_text else false_text)
  print_kv_value (str_value s) = str_tag ++ s

  abbrev pub value_length : KvValue I F → ℕ
  value_length (str_value s) = length s
  value_length v = 0

  parse_kv_value-print_kv_value :
      (v : KvValue I F)
      → ((i : I) → atol (print_int i) ≡ i)
      → ((f : F) → atof (print_float f) ≡ f)
      → value_length v ≤ 127
      → parse_kv_value atol atof (print_kv_value v) ≡ some v
  unfolding parse_kv_value starts_with parse_bool_text
  parse_kv_value-print_kv_value (int_value i) ints floats h = rw (ints i) refl
  parse_kv_value-print_kv_value (float_value f) ints floats h = rw (floats f) refl
  parse_kv_value-print_kv_value (bool_value true) ints floats h = refl
  parse_kv_value-print_kv_value (bool_value false) ints floats h = refl
  parse_kv_value-print_kv_value (str_value s) ints floats h = ground arith

  -- An override that is written as its key, `=`, its type and its value is read back, where numbers
  -- are written so that `atol` and `atof` read them back: the key has no `=` and less than 128 bytes,
  -- and a string has at most 127.
  pub string_parse_kv_override_lem :
      (key : Str) (v : KvValue I F) (overrides : List (KvOverride I F))
      → ((i : I) → atol (print_int i) ≡ i)
      → ((f : F) → atof (print_float f) ≡ f)
      → find (b'=' ∷ []) key ≡ none
      → length key < 128
      → value_length v ≤ 127
      → string_parse_kv_override atol atof (key ++ b'=' ∷ print_kv_value v) overrides
        ≡ some (overrides ++ record { key = key; value = v } ∷ [])
  unfolding string_parse_kv_override
  string_parse_kv_override_lem key v overrides ints floats no_eq short fits =
      let f : leb 128 (length key) ≡ false = ground (arith, short) in
      rw
        (
          string_parse_kv_override,
          find-append b'=' key (print_kv_value v) no_eq,
          f,
          drop-append key (print_kv_value v) b'=',
          parse_kv_value-print_kv_value v ints floats fits,
          take-append key (b'=' ∷ print_kv_value v),
        )
        refl
