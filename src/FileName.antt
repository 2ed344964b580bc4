-- ===== src/FileName.antt =====
-- `fs_validate_filename` of code/source/common/common.cpp. The parser `common_parse_utf8_codepoint` is
-- a parameter: of the string and an offset it gives the codepoint and the bytes that it takes, or
-- `none` for every status but SUCCESS.
pub mod Accepted
mod Tests
use gfx906_mixed_cuda_rocm_r.Base.{
  ℕ, zero, suc, ◌+◌, Bool, true, false, not, ◌&&◌, ◌||◌, Option, none, some, List, [], ◌∷◌, ltb,
  leb, ◌==◌, if◌then◌else◌, is_some, length,
}
use gfx906_mixed_cuda_rocm_r.Text.{Str, find}

-- More bytes than the codepoint needs.
pub overlong : ℕ → ℕ → Bool
overlong c consumed =
    (consumed == 2 && ltb c 128)
    || ((consumed == 3 && ltb c 2048) || (consumed == 4 && ltb c 65536))

pub forbidden : ℕ → Bool
forbidden c =
    leb c 31
    || (c == 127
        || ((leb 128 c && leb c 159)
            || (c == 65294
                || (c == 8725
                    || (c == 8726
                        || ((leb 55296 c && leb c 57343)
                            || (ltb 1114111 c
                                || (c == 65533
                                    || (c == 65279
                                        || (c == b':'
                                            || (c == b'*'
                                                || (c == b'?'
                                                    || (c == b'"'
                                                        || (c == b'<'
                                                            || (c == b'>'
                                                            || c == b'|')))))))))))))))

pub is_separator : ℕ → Bool
is_separator c = c == b'/' || c == b'\\'

abbrev pub last_is : ℕ → Str → Bool
last_is d [] = false
last_is d (c ∷ []) = c == d
last_is d (c ∷ e ∷ cs) = last_is d (e ∷ cs)

abbrev pub first_is : ℕ → Str → Bool
first_is d [] = false
first_is d (c ∷ cs) = c == d

-- The tests on the whole name. A name that is "." ends in a '.' already.
pub check_ends : Str → Bool
unfolding find
check_ends filename =
    if first_is b' ' filename || (last_is b' ' filename || last_is b'.' filename)
    then false
    else if is_some (find (b'.' ∷ b'.' ∷ []) filename)
    then false
    else not (first_is b'.' filename && length filename == 1)

module _ (parse : Str → ℕ → Option (ℕ × ℕ)) where
  -- The loop over the codepoints; `none` when the fuel is used up, which the length of the name and
  -- one more prevents if the parser takes at least a byte.
  pub check_codepoints : ℕ → Bool → Str → ℕ → Option Bool
  unfolding overlong forbidden is_separator
  check_codepoints zero allow_subdirs filename offset = none
  check_codepoints (suc fuel) allow_subdirs filename offset = elim (ltb offset (length filename)) [
    | false ↦ some true
    | true ↦ elim (parse filename offset) [
      | none ↦ some false
      | some (c, consumed) ↦
          elim (overlong c consumed || (forbidden c || (not allow_subdirs && is_separator c))) [
            | true ↦ some false
            | false ↦ check_codepoints fuel allow_subdirs filename (offset + consumed)
          ]
    ]
  ]

  pub fs_validate_filename : Str → Bool → Option Bool
  unfolding check_codepoints check_ends
  fs_validate_filename filename allow_subdirs =
      if length filename == 0
      then some false
      else if ltb 255 (length filename)
      then some false
      else elim (check_codepoints (suc (length filename)) allow_subdirs filename 0) [
        | none ↦ none
        | some false ↦ some false
        | some true ↦ some (check_ends filename)
      ]
