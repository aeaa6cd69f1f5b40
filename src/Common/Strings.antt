-- ===== src/Common/Strings.antt =====
-- Go strings as lists of bytes, with the functions of the package `strings` that the driver calls.
use Prim.Native.Nat.{ℕ, ◌+◌, ◌-◌}
use Prim.Native.Char.{code}
use Prim.Native.String.{String}
use mathlib.Core.Path.{◌≡◌, refl}
use mathlib.Core.Logic.{◌↔◌, ◌≢◌}
use mathlib.Core.Bool.{Bool, true, false, ◌&&◌, ◌||◌}
use mathlib.Core.Option
use mathlib.Core.Option.{Option, none, some}
use mathlib.Core.List.{List, [], ◌∷◌, ◌++◌, map}
use native.Mathlib.Omega.{arith}
use tns_csi.Common.Tests.{leb, ◌==◌, if◌then◌else◌}
use tns_csi.Common.Lists.{length, drop, All}

abbrev pub Str : Type 0
Str = List ℕ

-- A literal of the source: its bytes (the literals of the source are ASCII).
abbrev pub str : String → Str
str String.[] = []
str (String.◌∷◌ c s) = code c ∷ str s

-- s == t
unfoldable pub str_eq : Str → Str → Bool
str_eq [] [] = true
str_eq [] (_ ∷ _) = false
str_eq (_ ∷ _) [] = false
str_eq (a ∷ s) (b ∷ t) = (a == b) && str_eq s t

-- strings.HasPrefix(s, prefix)
unfoldable pub has_prefix : Str → Str → Bool
has_prefix s [] = true
has_prefix [] (_ ∷ _) = false
has_prefix (c ∷ s) (p ∷ prefix) = (c == p) && has_prefix s prefix

-- strings.HasSuffix(s, suffix)
unfoldable pub has_suffix : Str → Str → Bool
unfolding str_eq
has_suffix [] suffix = str_eq [] suffix
has_suffix (c ∷ s) suffix = str_eq (c ∷ s) suffix || has_suffix s suffix

-- strings.Contains(s, sub)
unfoldable pub contains : Str → Str → Bool
unfolding has_prefix
contains [] sub = has_prefix [] sub
contains (c ∷ s) sub = has_prefix (c ∷ s) sub || contains s sub

-- strings.TrimPrefix(s, prefix): the rest after the prefix, or `s` if it has no such prefix.
unfoldable pub trim_prefix : Str → Str → Str
unfolding has_prefix
trim_prefix s prefix = if has_prefix s prefix then drop (length prefix) s else s

-- strings.ToLower(s), on the ASCII letters.
abbrev lower_byte : ℕ → ℕ
lower_byte c = if leb b'A' c && leb c b'Z' then c + 32 else c

unfoldable pub to_lower : Str → Str
to_lower = map lower_byte

-- strings.ToUpper(s), on the ASCII letters.
abbrev upper_byte : ℕ → ℕ
upper_byte c = if leb b'a' c && leb c b'z' then c - 32 else c

unfoldable pub to_upper : Str → Str
to_upper = map upper_byte

-- strings.EqualFold(s, t), on ASCII.
unfoldable pub equal_fold : Str → Str → Bool
unfolding str_eq to_lower
equal_fold s t = str_eq (to_lower s) (to_lower t)

-- The slices s[:i] and s[i+1:] around i = strings.Index(s, b), or `none` where Index is -1.
unfoldable pub cut : ℕ → Str → Option (Str × Str)
cut b [] = none
cut b (c ∷ s) =
    let rest = Option.map (λ (t : Str × Str). (c ∷ t.0, t.1)) (cut b s) in
    if c == b then some ([], s) else rest

-- The same around i = strings.LastIndex(s, b).
unfoldable pub cut_last : ℕ → Str → Option (Str × Str)
cut_last b [] = none
cut_last b (c ∷ s) = elim (cut_last b s) [
  | some (l, r) ↦ some (c ∷ l, r)
  | none ↦ if c == b then some ([], s) else none
]

-- s == ""
abbrev pub is_empty : Str → Bool
is_empty [] = true
is_empty (_ ∷ _) = false

-- strings.TrimRight(s, b), for one byte b.
unfoldable pub trim_right : ℕ → Str → Str
trim_right b [] = []
trim_right b (c ∷ s) = elim (trim_right b s) [
  | [] ↦ if c == b then [] else c ∷ []
  | x ∷ r ↦ c ∷ x ∷ r
]

-- path.Base(s)
abbrev after_slash : Str → Str
after_slash [] = b'/' ∷ []
after_slash (c ∷ s) = elim (cut_last b'/' (c ∷ s)) [ some (l, r) ↦ r | none ↦ c ∷ s ]

unfoldable pub path_base : Str → Str
unfolding trim_right
path_base [] = b'.' ∷ []
path_base (c ∷ s) = after_slash (trim_right b'/' (c ∷ s))

-- The byte does not occur.
abbrev pub Lacks : ℕ → Str → Type 0
Lacks b s = All (λ c. c ≢ b) s

pub str_eq_iff : (s t : Str) → (str_eq s t ≡ true) ↔ (s ≡ t)
unfolding str_eq
str_eq_iff [] [] = (λ _. refl, λ _. refl)
str_eq_iff [] (_ ∷ _) = (λ h. cc, λ h. cc)
str_eq_iff (_ ∷ _) [] = (λ h. cc, λ h. cc)
str_eq_iff (a ∷ s) (b ∷ t) = ground (arith, str_eq_iff s t)

pub str_eq_refl : (s : Str) → str_eq s s ≡ true
str_eq_refl s = (str_eq_iff s s).1 refl

pub cut-append : (b : ℕ) (l r : Str) → Lacks b l → cut b (l ++ b ∷ r) ≡ some (l, r)
unfolding cut
cut-append b [] r h = ground arith
cut-append b (c ∷ l) r h = rw (cut-append b l r h.1) (ground arith)

pub cut_last_of_Lacks : (b : ℕ) (s : Str) → Lacks b s → cut_last b s ≡ none
unfolding cut_last
cut_last_of_Lacks b [] h = refl
cut_last_of_Lacks b (c ∷ s) h = rw (cut_last_of_Lacks b s h.1) (ground arith)

pub cut_last-append : (b : ℕ) (l r : Str) → Lacks b r → cut_last b (l ++ b ∷ r) ≡ some (l, r)
unfolding cut_last
cut_last-append b [] r h = rw (cut_last_of_Lacks b r h) (ground arith)
cut_last-append b (c ∷ l) r h = rw (cut_last-append b l r h)

pub Lacks-of_cut_last : (b : ℕ) (s : Str) → cut_last b s ≡ none → Lacks b s
unfolding cut_last
Lacks-of_cut_last b [] h = tt
Lacks-of_cut_last b (c ∷ s) h = ground (arith, Lacks-of_cut_last b s)

-- Where the two slices come from.
pub cut_last-split :
    (b : ℕ) (s l r : Str) → cut_last b s ≡ some (l, r) → (s ≡ l ++ b ∷ r) × Lacks b r
unfolding cut_last
cut_last-split b [] l r h = cc
cut_last-split b (c ∷ s) [] r h = ground (arith, Lacks-of_cut_last b s)
cut_last-split b (c ∷ s) (x ∷ l) r h = ground (arith, cut_last-split b s l r)

pub cut-split : (b : ℕ) (s l r : Str) → cut b s ≡ some (l, r) → (s ≡ l ++ b ∷ r) × Lacks b l
unfolding cut
cut-split b [] l r h = cc
cut-split b (c ∷ s) [] r h = ground arith
cut-split b (c ∷ s) (x ∷ l) r h = ground (arith, cut-split b s l r)

pub has_prefix-drop :
    (s prefix : Str) → has_prefix s prefix ≡ true → s ≡ prefix ++ drop (length prefix) s
unfolding has_prefix
has_prefix-drop s [] h = refl
has_prefix-drop [] (p ∷ prefix) h = cc
has_prefix-drop (c ∷ s) (p ∷ prefix) h = ground (arith, has_prefix-drop s prefix)

pub append-trim_prefix :
    (s prefix : Str) → has_prefix s prefix ≡ true → s ≡ prefix ++ trim_prefix s prefix
unfolding trim_prefix
append-trim_prefix s prefix h = rw h (has_prefix-drop s prefix h)

pub has_suffix-append : (s t : Str) → has_suffix (s ++ t) t ≡ true
unfolding has_suffix
has_suffix-append [] [] = refl
has_suffix-append [] (c ∷ t) = ground (arith, str_eq_refl (c ∷ t))
has_suffix-append (c ∷ s) t = ground (arith, has_suffix-append s t)

pub contains-append : (s t sub : Str) → contains t sub ≡ true → contains (s ++ t) sub ≡ true
unfolding contains
contains-append [] t sub h = h
contains-append (c ∷ s) t sub h = ground (arith, contains-append s t sub h)
