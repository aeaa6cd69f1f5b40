-- ===== src/Create/Comment.antt =====
-- The comment of an NFS or SMB share, which records the capacity: its two readers,
-- parseCapacityFromComment (pkg/driver/controller_nfs.go) with fmt.Sscanf, and parseNFSShareCapacity
-- (pkg/driver/controller.go).
pub mod RoundTrip
use mathlib.Core.Option
use tns_csi.Common.{
  ℕ, Str, str, has_prefix, trim_prefix, contains, atoi, itoa, ℤ, pos, Option, none, some, Bool,
  true, false, ◌&&◌, ◌||◌, ◌==◌, leb, not, is_empty, [], ◌∷◌, ◌++◌, length, drop, if◌then◌else◌,
}

-- fmt.Sprintf("CSI Volume: %s | Capacity: %d", …)
unfoldable pub share_comment : Str → ℤ → Str
share_comment name capacity = str "CSI Volume: " ++ (name ++ (str " | Capacity: " ++ itoa capacity))

-- unicode.IsSpace on ASCII.
abbrev pub is_space : ℕ → Bool
is_space c = (c == b' ') || (leb 9 c && leb c 13)

abbrev is_blank : ℕ → Bool
is_blank c = is_space c && not (c == 10)

-- The literal text of a format.
abbrev literal : Str → Str → Option Str
literal text s = if has_prefix s text then some (trim_prefix s text) else none

unfoldable drop_blanks : Str → Str
drop_blanks [] = []
drop_blanks (c ∷ s) = let rest = drop_blanks s in if is_blank c then rest else c ∷ s

-- A space of a format: one or more blanks, or the end of the text.
abbrev blanks : Str → Option Str
blanks [] = some []
blanks (c ∷ s) = if is_blank c then some (drop_blanks s) else none

abbrev put_first : ℕ → Str × Str → Str × Str
put_first c (l, r) = (c ∷ l, r)

-- The longest start without a space, and the rest.
unfoldable span_word : Str → Str × Str
span_word [] = ([], [])
span_word (c ∷ s) = if is_space c then ([], c ∷ s) else put_first c (span_word s)

-- %s
abbrev word : Str → Option Str
word s = let (w, rest) = span_word s in if is_empty w then none else some rest

unfoldable span_digits : Str → Str
span_digits [] = []
span_digits (c ∷ s) = let rest = span_digits s in if leb b'0' c && leb c b'9' then c ∷ rest else []

abbrev is_sign : ℕ → Bool
is_sign c = (c == b'+') || (c == b'-')

-- %d: a sign, digits, and what strconv.ParseInt makes of them; the rest is not looked at.
abbrev number : Str → Option ℤ
number [] = none
number (c ∷ s) = if is_sign c then atoi (c ∷ span_digits s) else atoi (span_digits (c ∷ s))

abbrev then_read {ℓ} : {A : Type ℓ} → Option Str → (Str → Option A) → Option A
then_read none f = none
then_read (some s) f = f s

abbrev pub or_zero : Option ℤ → ℤ
or_zero none = pos 0
or_zero (some n) = n

-- fmt.Sscanf(s, "CSI Volume: %s | Capacity: %d", …)
unfoldable scan_comment : Str → Option ℤ
unfolding drop_blanks span_word span_digits
scan_comment s = then_read (literal (str "CSI") s) λ s. then_read (blanks s) λ s.
    then_read (literal (str "Volume:") s) λ s. then_read (blanks s) λ s. then_read (word s) λ s.
      then_read (blanks s) λ s. then_read (literal (str "|") s) λ s.
        then_read (blanks s)
          λ s. then_read (literal (str "Capacity:") s) λ s. then_read (blanks s) number

unfoldable pub parse_capacity_from_comment : Str → ℤ
unfolding scan_comment
parse_capacity_from_comment comment =
    if is_empty comment then pos 0 else or_zero (scan_comment comment)

abbrev separator : Str
separator = str " | Capacity: "

-- The parts around the first separator.
unfoldable cut_at : Str → Str → Option (Str × Str)
cut_at sep [] = none
cut_at sep (c ∷ s) =
    let rest = Option.map (put_first c) (cut_at sep s) in
    if has_prefix (c ∷ s) sep then some ([], drop (length sep) (c ∷ s)) else rest

-- strings.Split has two parts if the separator is not in the second one again.
abbrev capacity_part : Option (Str × Str) → ℤ
capacity_part none = pos 0
capacity_part (some (l, r)) = if contains r separator then pos 0 else or_zero (atoi r)

unfoldable pub parse_nfs_share_capacity : Str → ℤ
unfolding cut_at
parse_nfs_share_capacity comment = capacity_part (cut_at separator comment)
