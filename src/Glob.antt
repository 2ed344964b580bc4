-- ===== src/Glob.antt =====
-- `glob_match` and `glob_class_match` of code/source/common/common.cpp. The pointers into the
-- pattern and the string are the rests of two C strings, which have no zero in them.
pub mod Literal
pub mod Fuel
pub mod Wildcards
mod Tests
use gfx906_mixed_cuda_rocm_r.Base.{
  ℕ, zero, suc, ◌+◌, ◌%◌, Bool, true, false, not, ◌&&◌, ◌||◌, Option, none, some, List, [], ◌∷◌,
  leb, ◌==◌, if◌then◌else◌, length, take, drop,
}
use gfx906_mixed_cuda_rocm_r.Text.{Str, starts_with}

-- A `char` is signed: the order of its bytes.
pub char_le : ℕ → ℕ → Bool
char_le a b = leb ((a + 128) % 256) ((b + 128) % 256)

-- The loop over the members and ranges of a class, up to `class_end`.
pub class_loop : ℕ → Str → Bool
unfolding char_le
class_loop c [] = false
class_loop c (x ∷ []) = x == c
class_loop c (x ∷ y ∷ []) = x == c || y == c
class_loop c (x ∷ y ∷ z ∷ rest) =
    let behind_range : Bool = class_loop c rest in
    let behind_member : Bool = class_loop c (y ∷ z ∷ rest) in
    if y == b'-' && not (z == b']')
    then (char_le x c && char_le c z) || behind_range
    else x == c || behind_member

-- A first `]` or `-` is a member.
pub class_members : ℕ → Bool → Str → Bool
unfolding class_loop
class_members c negated [] = negated
class_members c negated (x ∷ rest) =
    let matched : Bool =
      if x == b']' || x == b'-' then class_loop c rest else class_loop c (x ∷ rest) in
    if (x == b']' || x == b'-') && x == c
    then not negated
    else if negated
    then not matched
    else matched

pub glob_class_match : ℕ → Str → Bool
unfolding class_members
glob_class_match c [] = false
glob_class_match c (x ∷ rest) =
    if x == b'!' then class_members c true rest else class_members c false (x ∷ rest)

-- The place of the `]` that ends a class.
pub close_at : Str → Option ℕ
close_at [] = none
close_at (c ∷ cs) =
    let later : Option ℕ = close_at cs in
    if c == b']' then some 0 else elim later [ none ↦ none | some n ↦ some (suc n) ]

pub class_end : Str → Option ℕ
unfolding close_at
class_end [] = none
class_end (c ∷ cs) =
    if c == b']' || c == b'-'
    then elim (close_at cs) [ none ↦ none | some n ↦ some (suc n) ]
    else close_at (c ∷ cs)

-- `**`: the rest of the pattern at any place of the string.
pub any_suffix : (Str → Bool) → Str → Bool
any_suffix f [] = f []
any_suffix f (c ∷ cs) = f (c ∷ cs) || any_suffix f cs

-- `*`: at any place up to the next `/`.
pub any_within : (Str → Bool) → Str → Bool
any_within f [] = f []
any_within f (c ∷ cs) = if c == b'/' then f (c ∷ cs) else f (c ∷ cs) || any_within f cs

abbrev pub within : Str → Bool
within [] = false
within (c ∷ cs) = not (c == b'/')

abbrev pub is_empty : Str → Bool
is_empty [] = true
is_empty (c ∷ cs) = false

abbrev pub tail : Str → Str
tail [] = []
tail (c ∷ cs) = cs

abbrev pub head_is : (ℕ → Bool) → Str → Bool
head_is f [] = false
head_is f (c ∷ cs) = f c

-- The recursion, on fuel: one more than the length of the pattern is enough.
pub glob_from : ℕ → Str → Str → Bool
unfolding glob_class_match class_end any_suffix any_within starts_with
glob_from zero p s = false
glob_from (suc fuel) [] s = is_empty s
glob_from (suc fuel) (c ∷ p) s = elim (starts_with (b'*' ∷ b'*' ∷ []) (c ∷ p)) [
  | true ↦ any_suffix (glob_from fuel (drop 1 p)) s
  | false ↦ elim (c == b'*') [
    | true ↦ any_within (glob_from fuel p) s
    | false ↦ elim (c == b'?' && within s) [
      | true ↦ glob_from fuel p (tail s)
      | false ↦ elim (if c == b'[' then class_end p else none) [
        | some n ↦
            head_is (λ d. glob_class_match d (take n p)) s
            && glob_from fuel (drop (suc n) p) (tail s)
        | none ↦ head_is (λ d. c == d) s && glob_from fuel p (tail s)
      ]
    ]
  ]
]

pub glob_match : Str → Str → Bool
unfolding glob_from
glob_match p s = glob_from (suc (length p)) p s
