-- ===== src/Naming/Sanitized.antt =====
-- What sanitizeVolumeName makes of a name, and what ResolveVolumeName accepts.
use tns_csi.Common.{
  ℕ, zero, suc, ◌≤◌, Str, contains, has_prefix, has_suffix, str_eq, trim_right, ◌≡◌, refl, sym, ap,
  Bool, true, false, ◌&&◌, [], ◌∷◌, ◌++◌, map, length, take, drop, All, Bool-cases, if◌then◌else◌,
  ◌==◌, take-append-drop, length-take, ltb, arith, inl, inr,
}
use tns_csi.Naming.{
  is_invalid, replace_byte, trim_left_hyphens, halve_hyphens, collapse_hyphens, double_hyphen,
  truncate_name, sanitize_volume_name, max_name_length,
}
use tns_csi.Naming.Collapse.{collapse_hyphens-contains}

abbrev Unreplaced : Str → Type 0
Unreplaced = All (λ c. is_invalid c ≡ false)

-- No byte to be replaced, no leading hyphen, no two hyphens in a row.
abbrev Tidy : Str → Type 0
Tidy s = Unreplaced s × (has_prefix s (b'-' ∷ []) ≡ false) × (contains s double_hyphen ≡ false)

-- A tidy name of at most 63 bytes without a trailing hyphen.
abbrev pub Sanitary : Str → Type 0
Sanitary s = Tidy s × (has_suffix s (b'-' ∷ []) ≡ false) × (length s ≤ max_name_length)

if-Unreplaced :
    (b : Bool) (s t : Str) → Unreplaced s → Unreplaced t → Unreplaced (if b then s else t)
if-Unreplaced true s t hs ht = hs
if-Unreplaced false s t hs ht = ht

replace_byte_lem : (c : ℕ) → is_invalid (replace_byte c) ≡ false
replace_byte_lem c = elim (Bool-cases (is_invalid c)) [ inl h ↦ rw h refl | inr h ↦ rw h h ]

map-replace_byte : (s : Str) → Unreplaced (map replace_byte s)
map-replace_byte [] = tt
map-replace_byte (c ∷ s) = (replace_byte_lem c, map-replace_byte s)

trim_left_hyphens-Unreplaced : (s : Str) → Unreplaced s → Unreplaced (trim_left_hyphens s)
unfolding trim_left_hyphens
trim_left_hyphens-Unreplaced [] h = tt
trim_left_hyphens-Unreplaced (c ∷ s) h =
    if-Unreplaced (c == b'-') (trim_left_hyphens s) (c ∷ s) (trim_left_hyphens-Unreplaced s h.1) h

trim_left_hyphens-has_prefix : (s : Str) → has_prefix (trim_left_hyphens s) (b'-' ∷ []) ≡ false
unfolding trim_left_hyphens has_prefix
trim_left_hyphens-has_prefix [] = refl
trim_left_hyphens-has_prefix (c ∷ s) = ground (arith, trim_left_hyphens-has_prefix s)

halve_hyphens-Unreplaced : (s : Str) → Unreplaced s → Unreplaced (halve_hyphens s)
unfolding halve_hyphens
halve_hyphens-Unreplaced [] h = tt
halve_hyphens-Unreplaced (a ∷ []) h = h
halve_hyphens-Unreplaced (a ∷ b ∷ s) h =
    if-Unreplaced ((a == b'-') && (b == b'-')) (b'-' ∷ halve_hyphens s) (a ∷ halve_hyphens (b ∷ s))
      (refl, halve_hyphens-Unreplaced s h.1.1) (h.0, halve_hyphens-Unreplaced (b ∷ s) h.1)

halve_hyphens-has_prefix :
    (s : Str) → has_prefix s (b'-' ∷ []) ≡ false → has_prefix (halve_hyphens s) (b'-' ∷ []) ≡ false
unfolding halve_hyphens has_prefix
halve_hyphens-has_prefix [] h = refl
halve_hyphens-has_prefix (a ∷ []) h = h
halve_hyphens-has_prefix (a ∷ b ∷ s) h = ground arith

collapse_hyphens-Unreplaced : (n : ℕ) (s : Str) → Unreplaced s → Unreplaced (collapse_hyphens n s)
unfolding collapse_hyphens
collapse_hyphens-Unreplaced zero s h = h
collapse_hyphens-Unreplaced (suc n) s h =
    if-Unreplaced (contains s double_hyphen) (collapse_hyphens n (halve_hyphens s)) s
      (collapse_hyphens-Unreplaced n (halve_hyphens s) (halve_hyphens-Unreplaced s h)) h

collapse_hyphens-has_prefix :
    (n : ℕ) (s : Str)
    → has_prefix s (b'-' ∷ []) ≡ false
    → has_prefix (collapse_hyphens n s) (b'-' ∷ []) ≡ false
unfolding collapse_hyphens
collapse_hyphens-has_prefix zero s h = h
collapse_hyphens-has_prefix (suc n) s h = elim (Bool-cases (contains s double_hyphen)) [
  | inl e ↦ rw e (collapse_hyphens-has_prefix n (halve_hyphens s) (halve_hyphens-has_prefix s h))
  | inr e ↦ rw e h
]

-- A part at the start of a tidy name is tidy.
append-Unreplaced : (s t : Str) → Unreplaced (s ++ t) → Unreplaced s
append-Unreplaced [] t h = tt
append-Unreplaced (c ∷ s) t h = (h.0, append-Unreplaced s t h.1)

has_prefix_of_append :
    (s t : Str) → has_prefix (s ++ t) (b'-' ∷ []) ≡ false → has_prefix s (b'-' ∷ []) ≡ false
unfolding has_prefix
has_prefix_of_append [] t h = refl
has_prefix_of_append (c ∷ s) t h = h

contains_of_append :
    (s t : Str) → contains (s ++ t) double_hyphen ≡ false → contains s double_hyphen ≡ false
unfolding contains has_prefix
contains_of_append [] t h = refl
contains_of_append (c ∷ []) t h = ground arith
contains_of_append (c ∷ d ∷ s) t h = ground (arith, contains_of_append (d ∷ s) t)

append-Tidy : (s t : Str) → Tidy (s ++ t) → Tidy s
append-Tidy s t h =
    (append-Unreplaced s t h.0, has_prefix_of_append s t h.1, contains_of_append s t h.2)

-- The step of trim_right at a byte, from the rest that is trimmed.
abbrev trim_step : ℕ → ℕ → Str → Str
trim_step b c [] = if c == b then [] else c ∷ []
trim_step b c (x ∷ r) = c ∷ x ∷ r

trim_step-split : (b c : ℕ) (s r t : Str) → s ≡ r ++ t → (u : Str) × (c ∷ s ≡ trim_step b c r ++ u)
trim_step-split b c s [] t e = elim (Bool-cases (c == b)) [
  | inl h ↦ (c ∷ s, rw h refl)
  | inr h ↦ (s, rw h refl)
]
trim_step-split b c s (x ∷ r) t e = (t, ap (λ u. c ∷ u) e)

trim_right-split : (b : ℕ) (s : Str) → (t : Str) × (s ≡ trim_right b s ++ t)
unfolding trim_right
trim_right-split b [] = ([], refl)
trim_right-split b (c ∷ s) =
    let (t, e) = trim_right-split b s in trim_step-split b c s (trim_right b s) t e

trim_right-Tidy : (s : Str) → Tidy s → Tidy (trim_right b'-' s)
trim_right-Tidy s h =
    let (t, e) = trim_right-split b'-' s in append-Tidy (trim_right b'-' s) t (rw (sym e) h)

take-Tidy : (n : ℕ) (s : Str) → Tidy s → Tidy (take n s)
take-Tidy n s h = append-Tidy (take n s) (drop n s) (rw (take-append-drop n s) h)

length-trim_right : (b : ℕ) (s : Str) → length (trim_right b s) ≤ length s
unfolding trim_right
length-trim_right b [] = omega arith
length-trim_right b (c ∷ s) = ground (arith, length-trim_right b s)

has_suffix-trim_right : (b : ℕ) (s : Str) → has_suffix (trim_right b s) (b ∷ []) ≡ false
unfolding trim_right has_suffix str_eq
has_suffix-trim_right b [] = refl
has_suffix-trim_right b (c ∷ s) = ground (arith, has_suffix-trim_right b s)

-- What is trimmed already stays as it is.
trim_right_of_has_suffix : (b : ℕ) (s : Str) → has_suffix s (b ∷ []) ≡ false → trim_right b s ≡ s
unfolding trim_right has_suffix str_eq
trim_right_of_has_suffix b [] h = refl
trim_right_of_has_suffix b (c ∷ []) h = ground arith
trim_right_of_has_suffix b (c ∷ d ∷ s) h =
    ap (trim_step b c) (trim_right_of_has_suffix b (d ∷ s) (ground arith))

truncate_name-Sanitary :
    (s : Str) → Tidy s → has_suffix s (b'-' ∷ []) ≡ false → Sanitary (truncate_name s)
unfolding truncate_name
truncate_name-Sanitary s h r = elim (Bool-cases (ltb max_name_length (length s))) [
  | inl e ↦ rw e (
    trim_right-Tidy (take max_name_length s) (take-Tidy max_name_length s h),
    has_suffix-trim_right b'-' (take max_name_length s),
    omega (arith, length-trim_right b'-' (take max_name_length s), length-take max_name_length s),
  )
  | inr e ↦ rw e (h, r, ground arith)
]

trim_left_hyphens_of_has_prefix :
    (s : Str) → has_prefix s (b'-' ∷ []) ≡ false → trim_left_hyphens s ≡ s
unfolding trim_left_hyphens has_prefix
trim_left_hyphens_of_has_prefix [] h = refl
trim_left_hyphens_of_has_prefix (c ∷ s) h = ground arith

map_of_Unreplaced : (s : Str) → Unreplaced s → map replace_byte s ≡ s
map_of_Unreplaced [] h = refl
map_of_Unreplaced (c ∷ s) h = rw h.0 (ap (λ t. c ∷ t) (map_of_Unreplaced s h.1))

collapse_hyphens_of_contains :
    (n : ℕ) (s : Str) → contains s double_hyphen ≡ false → collapse_hyphens n s ≡ s
unfolding collapse_hyphens
collapse_hyphens_of_contains zero s h = refl
collapse_hyphens_of_contains (suc n) s h = rw h refl

truncate_name_of_length : (s : Str) → length s ≤ max_name_length → truncate_name s ≡ s
unfolding truncate_name
truncate_name_of_length s h = ground arith

collapsed-Tidy :
    (s : Str)
    → Unreplaced s
    → has_prefix s (b'-' ∷ []) ≡ false
    → Tidy (collapse_hyphens (length s) s)
collapsed-Tidy s u p = (
  collapse_hyphens-Unreplaced (length s) s u,
  collapse_hyphens-has_prefix (length s) s p,
  collapse_hyphens-contains (length s) s (omega arith),
)

-- sanitizeVolumeName gives, for every text, a name of at most 63 bytes that has none of the bytes to
-- be replaced, no hyphen at its start or its end, and no two hyphens in a row.
pub sanitize_volume_name-Sanitary : (name : Str) → Sanitary (sanitize_volume_name name)
unfolding sanitize_volume_name
sanitize_volume_name-Sanitary name =
    let trimmed = trim_left_hyphens (map replace_byte name) in
    let tidy =
      collapsed-Tidy trimmed
        (trim_left_hyphens-Unreplaced (map replace_byte name) (map-replace_byte name))
        (trim_left_hyphens-has_prefix (map replace_byte name)) in
    let c = collapse_hyphens (length trimmed) trimmed in
    truncate_name-Sanitary (trim_right b'-' c) (trim_right-Tidy c tidy)
      (has_suffix-trim_right b'-' c)

-- sanitizeVolumeName leaves a name as it is that has at most 63 bytes, none of those to be replaced,
-- no hyphen at its start or its end, and no two hyphens in a row.
pub sanitize_volume_name_of_Sanitary :
    (name : Str) → Sanitary name → sanitize_volume_name name ≡ name
unfolding sanitize_volume_name
sanitize_volume_name_of_Sanitary name h = rw (map_of_Unreplaced name h.0.0) (
    rw (trim_left_hyphens_of_has_prefix name h.0.1) (
      rw (collapse_hyphens_of_contains (length name) name h.0.2)
        (rw (trim_right_of_has_suffix b'-' name h.1) (truncate_name_of_length name h.2))))
