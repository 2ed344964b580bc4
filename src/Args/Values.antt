-- ===== src/Args/Values.antt =====
-- `string_split<std::string>` (code/source/common/common.h) and `parse_device_list`
-- (code/source/common/arg.cpp).
use gfx906_mixed_cuda_rocm_r.Base.{
  ℕ, ◌≡◌, ◌≢◌, ◌⊎◌, inl, inr, refl, sym, ap, ◌∙◌, Bool, true, false, Option, none, some, List, [],
  ◌∷◌, ◌++◌, map, ◌==◌, Bool-cases, Option-cases, bytes_eq, All, arith,
}
use gfx906_mixed_cuda_rocm_r.Text.{Str, string_join}
use gfx906_mixed_cuda_rocm_r.Args.{
  with_first, split_char, find_devices, devices_of, parse_device_list,
}
use mathlib.Core.Option.{some-injective}

split_char_cons : (d : ℕ) (s : Str) → (p : Str) × (ps : List Str) × (split_char d s ≡ p ∷ ps)
unfolding split_char with_first
split_char_cons d [] = ([], [], refl)
split_char_cons d (c ∷ cs) = elim (Bool-cases (c == d)) [
  | inl t ↦ ([], split_char d cs, rw (split_char, t) refl)
  | inr f ↦ let r = split_char_cons d cs in (c ∷ r.0, r.1, rw (split_char, f, r.2) refl)
]

string_join-with_first :
    (c : ℕ) (p : Str) (ps : List Str) (sep : Str)
    → string_join ((c ∷ p) ∷ ps) sep ≡ c ∷ string_join (p ∷ ps) sep
unfolding string_join
string_join-with_first c p [] sep = refl
string_join-with_first c p (q ∷ ps) sep = refl

-- The parts of a value that is split at a character do not have it, and joined by it they are the
-- value.
pub split_char_lem :
    (d : ℕ) (s : Str)
    → (string_join (split_char d s) (d ∷ []) ≡ s) × All (All (λ c. c ≢ d)) (split_char d s)
unfolding split_char string_join with_first
split_char_lem d [] = (refl, (tt, tt))
split_char_lem d (c ∷ cs) =
    let r = split_char_cons d cs in
    let later = split_char_lem d cs in
    elim (Bool-cases (c == d)) [
      | inl t ↦
          let e : c ≡ d = ground (arith, t) in
          rw (split_char, t, r.2)
            (rw e (ap (λ x. d ∷ x) (rw r.2 at later.0)), (tt, rw r.2 at later.1))
      | inr f ↦
          let n : c ≢ d = ground (arith, f) in
          let parts = rw r.2 at later.1 in
          rw (split_char, f, r.2)
            (
              string_join-with_first c r.0 r.1 (d ∷ []) ∙ ap (λ x. c ∷ x) (rw r.2 at later.0),
              ((n, parts.0), parts.1),
            )
    ]

bytes_eq→eq : (a b : Str) → bytes_eq a b ≡ true → a ≡ b
bytes_eq→eq [] [] h = refl
bytes_eq→eq [] (d ∷ ds) h = cc
bytes_eq→eq (c ∷ cs) [] h = cc
bytes_eq→eq (c ∷ cs) (d ∷ ds) h = elim (Bool-cases (c == d)) [
  | inl t ↦
      let e : c ≡ d = ground (arith, t) in
      let same : bytes_eq cs ds ≡ true = ground (arith, t, h) in rw (e, bytes_eq→eq cs ds same) refl
  | inr f ↦ ground (arith, f, h)
]

abbrev pub none_text : Str
none_text = b'n' ∷ b'o' ∷ b'n' ∷ b'e' ∷ []

module _ (dev_by_name : Str → Option (ℕ × Bool)) where
  -- The device of a name, one that is not the CPU.
  abbrev pub Named : Str → ℕ → Type 0
  Named s dev = dev_by_name s ≡ some (dev, false)

  abbrev pub AllNamed : List Str → List ℕ → Type 0
  AllNamed [] [] = Unit
  AllNamed [] (d ∷ ds) = ⊥
  AllNamed (s ∷ ss) [] = ⊥
  AllNamed (s ∷ ss) (d ∷ ds) = Named s d × AllNamed ss ds

  find_devices_lem :
      (ss : List Str) (devs : List (Option ℕ))
      → find_devices dev_by_name ss ≡ some devs
      → (ds : List ℕ) × AllNamed ss ds × (devs ≡ map some ds ++ none ∷ [])
  unfolding find_devices
  find_devices_lem [] devs h = ([], tt, sym (some-injective _ _ h))
  find_devices_lem (s ∷ ss) devs h = elim (Option-cases (dev_by_name s)) [
    | inl q ↦ cc (rw (find_devices, q) at h)
    | inr ((dev, is_cpu), q) ↦ elim (Bool-cases is_cpu) [
      | inl t ↦ cc (rw (find_devices, q, t) at h)
      | inr f ↦ elim (Option-cases (find_devices dev_by_name ss)) [
        | inl p ↦ cc (rw (find_devices, q, f, p) at h)
        | inr (devs', p) ↦
            let r = find_devices_lem ss devs' p in
            let e = some-injective _ _ (rw (find_devices, q, f, p) at h) in
            (dev ∷ r.0, (rw f at q, r.1), sym e ∙ ap (λ x. some dev ∷ x) r.2)
      ]
    ]
  ]

  devices_of_lem :
      (ss : List Str) (devs : List (Option ℕ))
      → devices_of dev_by_name ss ≡ some devs
      → ((ss ≡ none_text ∷ []) × (devs ≡ none ∷ []))
        ⊎ ((ds : List ℕ) × AllNamed ss ds × (devs ≡ map some ds ++ none ∷ []))
  unfolding devices_of
  devices_of_lem [] devs h = cc
  devices_of_lem (s ∷ []) devs h = elim (Bool-cases (bytes_eq s none_text)) [
    | inl t ↦ inl (
      ap (λ x. x ∷ []) (bytes_eq→eq s none_text t),
      sym (some-injective _ _ (rw (devices_of, t) at h)),
    )
    | inr f ↦ inr (find_devices_lem (s ∷ []) devs (rw (devices_of, f) at h))
  ]
  devices_of_lem (s ∷ t ∷ ss) devs h = inr (find_devices_lem (s ∷ t ∷ ss) devs h)

  -- A device list that parses is the `nullptr` alone, for "none", or the devices of the names in the
  -- value, none of them the CPU, in their order and with a `nullptr` at the end.
  pub parse_device_list_lem :
      (value : Str) (devs : List (Option ℕ))
      → parse_device_list dev_by_name value ≡ some devs
      → ((value ≡ none_text) × (devs ≡ none ∷ []))
        ⊎ ((ds : List ℕ) × AllNamed (split_char b',' value) ds × (devs ≡ map some ds ++ none ∷ []))
  unfolding parse_device_list string_join
  parse_device_list_lem value devs h = elim (devices_of_lem (split_char b',' value) devs h) [
    | inl p ↦ inl (sym (split_char_lem b',' value).0 ∙ ap (λ x. string_join x (b',' ∷ [])) p.0, p.1)
    | inr r ↦ inr r
  ]
