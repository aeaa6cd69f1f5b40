-- ===== src/Create/Comment/RoundTrip.antt =====
-- The comment of a share, and what its two readers (pkg/driver/controller_nfs.go, controller.go) make
-- of it.
use tns_csi.Common.{
  ℕ, Str, str, has_prefix, trim_prefix, contains, atoi, itoa, digits, digits-first, digits-IsDigit,
  IsDigit, max_int64, atoi-itoa, ℤ, pos, some, false, is_empty, [], ◌∷◌, ◌++◌, All, ◌≡◌, ◌≢◌, ◌≤◌,
  refl, arith,
}
use tns_csi.Create.Comment.{
  share_comment, is_space, drop_blanks, span_word, span_digits, number, scan_comment,
  parse_capacity_from_comment, separator, cut_at, parse_nfs_share_capacity,
}

-- A name with no space, which is not empty and has no bar.
abbrev pub IsPlain : Str → Type 0
IsPlain name = (is_empty name ≡ false) × All (λ c. (is_space c ≡ false) × (c ≢ b'|')) name

span_digits_of_digits : (s : Str) → All IsDigit s → span_digits s ≡ s
unfolding span_digits
span_digits_of_digits [] h = refl
span_digits_of_digits (c ∷ s) h = rw (span_digits_of_digits s h.1) (ground arith)

number_of_digits :
    (t : Str) (v : ℤ)
    → All IsDigit t
    → ((c : ℕ) × (s : Str) × (t ≡ c ∷ s) × (b'0' ≤ c))
    → atoi t ≡ some v
    → number t ≡ some v
number_of_digits [] v h (c, s, e, low) a = cc
number_of_digits (d ∷ t) v h (c, s, e, low) a = ground (arith, span_digits_of_digits (d ∷ t) h)

number-itoa : (n : ℕ) → n ≤ max_int64 → number (itoa (pos n)) ≡ some (pos n)
unfolding itoa
number-itoa n h =
    number_of_digits (digits 20 n) (pos n) (digits-IsDigit 20 n) (digits-first 19 n (omega arith))
      (atoi-itoa (pos n) h)

span_word-append :
    (name r : Str)
    → All (λ c. (is_space c ≡ false) × (c ≢ b'|')) name
    → span_word (name ++ b' ' ∷ r) ≡ (name, b' ' ∷ r)
unfolding span_word
span_word-append [] r h = refl
span_word-append (c ∷ name) r h = rw (h.0.0) (rw (span_word-append name r h.1) refl)

itoa-IsDigit : (n : ℕ) → All IsDigit (itoa (pos n))
unfolding itoa
itoa-IsDigit n = digits-IsDigit 20 n

contains-separator : (s : Str) → All IsDigit s → contains s separator ≡ false
unfolding contains has_prefix
contains-separator [] h = refl
contains-separator (c ∷ s) h = rw (contains-separator s h.1) (ground arith)

drop_blanks_of_digits : (s : Str) → All IsDigit s → drop_blanks s ≡ s
unfolding drop_blanks
drop_blanks_of_digits [] h = refl
drop_blanks_of_digits (c ∷ s) h = ground arith

scan_comment-share_comment :
    (name : Str) (n : ℕ)
    → IsPlain name
    → n ≤ max_int64
    → scan_comment (share_comment name (pos n)) ≡ some (pos n)
unfolding scan_comment share_comment has_prefix trim_prefix drop_blanks span_word itoa
scan_comment-share_comment [] n h le = cc
scan_comment-share_comment (c ∷ name) n h le =
    rw
      (
        h.1.0.0,
        span_word-append name (str "| Capacity: " ++ itoa (pos n)) h.1.1,
        h.1.0.0,
        drop_blanks_of_digits (itoa (pos n)) (digits-IsDigit 20 n),
      )
      (number-itoa n le)

cut_at_miss :
    {l r : Str} (c : ℕ) (s : Str)
    → has_prefix (c ∷ s) separator ≡ false
    → cut_at separator s ≡ some (l, r)
    → cut_at separator (c ∷ s) ≡ some (c ∷ l, r)
unfolding cut_at
cut_at_miss c s miss e = rw (miss, e) refl

cut_at-append :
    (name r : Str)
    → All (λ c. (is_space c ≡ false) × (c ≢ b'|')) name
    → cut_at separator (name ++ (separator ++ r)) ≡ some (name, r)
unfolding cut_at has_prefix
cut_at-append [] r h = refl
cut_at-append (c ∷ name) r h =
    cut_at_miss c (name ++ (separator ++ r)) (ground arith) (cut_at-append name r h.1)

cut_at-share_comment :
    (name : Str) (n : ℕ)
    → IsPlain name
    → cut_at separator (share_comment name (pos n))
      ≡ some (str "CSI Volume: " ++ name, itoa (pos n))
unfolding share_comment has_prefix
cut_at-share_comment [] n h = cc
cut_at-share_comment (c ∷ name) n h = cut_at_miss _ _ refl (
    cut_at_miss _ _ refl (
      cut_at_miss _ _ refl (
        cut_at_miss _ _ refl (
          cut_at_miss _ _ refl (
            cut_at_miss _ _ refl (
              cut_at_miss _ _ refl (
                cut_at_miss _ _ refl (
                  cut_at_miss _ _ refl (
                    cut_at_miss _ _ refl (
                      cut_at_miss _ _ refl (
                        cut_at_miss _ _ (ground arith)
                          (cut_at-append (c ∷ name) (itoa (pos n)) h.1))))))))))))

-- The comment that the driver gives to a share of a name that is not empty, with no space and no bar
-- in it, tells both readers the capacity, if that is a natural number below 2^63.
pub parse_capacity-share_comment :
    (name : Str) (n : ℕ)
    → IsPlain name
    → n ≤ max_int64
    → (parse_capacity_from_comment (share_comment name (pos n)) ≡ pos n)
      × (parse_nfs_share_capacity (share_comment name (pos n)) ≡ pos n)
unfolding parse_capacity_from_comment parse_nfs_share_capacity share_comment
parse_capacity-share_comment name n h le = (
  rw (scan_comment-share_comment name n h le) refl,
  rw
      (
        cut_at-share_comment name n h,
        contains-separator (itoa (pos n)) (itoa-IsDigit n),
        atoi-itoa (pos n) le,
      )
      refl,
)
