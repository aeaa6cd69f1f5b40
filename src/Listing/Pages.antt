-- ===== src/Listing/Pages.antt =====
-- A client that follows the tokens of ListVolumes gets every volume once.
use tns_csi.Common.{
  ℕ, zero, suc, ◌≤◌, ◌<◌, Str, str_eq, str_eq_iff, str_eq_refl, is_empty, ℤ, pos, Bool, true, false,
  ◌&&◌, Option, none, some, List, [], ◌∷◌, ◌++◌, length, take, drop, All, take-append-drop,
  append_assoc, ltb, lt→ltb, Result, ok, err, ◌≡◌, refl, sym, ap, ◌∙◌, ◌≢◌, arith, inl, inr,
  Bool-cases, if◌then◌else◌,
}
use mathlib.Core.Path.{subst}
use tns_csi.Codes.{Code}
use tns_csi.Listing.{Entry, entry_id, after_token, last_id, cut_page, list_volumes}

-- The entries of a page, and of those that its token leads to.
abbrev follow : Result Code (List Entry × Str) → (Str → Option (List Entry)) → Option (List Entry)
follow (err c) next = none
follow (ok (page, token)) next = elim token [
  | [] ↦ some page
  | c ∷ t ↦ elim (next (c ∷ t)) [ none ↦ none | some rest ↦ some (page ++ rest) ]
]

-- Page after page, with a bound on their number.
unfoldable pub collect : ℕ → List Entry → ℤ → Str → Option (List Entry)
collect zero entries max_entries token = none
collect (suc pages) entries max_entries token =
    follow (list_volumes entries max_entries token) (collect pages entries max_entries)

abbrev pub Distinct : List Entry → Type 0
Distinct [] = Unit
Distinct (e ∷ entries) = All (λ f. entry_id e ≢ entry_id f) entries × Distinct entries

abbrev pub Named : List Entry → Type 0
Named entries = All (λ e. is_empty (entry_id e) ≡ false) entries

All_middle :
    (P : Entry → Type 0) (xs : List Entry) (e : Entry) (ys : List Entry)
    → All P (xs ++ e ∷ ys)
    → P e
All_middle P [] e ys h = h.0
All_middle P (x ∷ xs) e ys h = All_middle P xs e ys h.1

after_token_middle :
    (xs : List Entry) (e : Entry) (ys : List Entry)
    → Distinct (xs ++ e ∷ ys)
    → after_token (entry_id e) (xs ++ e ∷ ys) ≡ some ys
unfolding after_token
after_token_middle [] e ys d = rw (str_eq_refl (entry_id e)) refl
after_token_middle (x ∷ xs) e ys d = elim (Bool-cases (str_eq (entry_id x) (entry_id e))) [
  | inl same ↦ absurd (
      All_middle (λ f. entry_id x ≢ entry_id f) xs e ys d.0
        ((str_eq_iff (entry_id x) (entry_id e)).0 same))
  | inr other ↦ rw other (after_token_middle xs e ys d.1)
]

-- A list with an element has a last one.
split_last :
    (x : Entry) (xs : List Entry)
    → (init : List Entry) × (e : Entry) × (x ∷ xs ≡ init ++ e ∷ [])
      × (last_id (x ∷ xs) ≡ entry_id e)
split_last x [] = ([], x, refl, refl)
split_last x (y ∷ xs) = let (init, e, s, l) = split_last y xs in (x ∷ init, e, ap (λ t. x ∷ t) s, l)

follow_next :
    (page rest : List Entry) (token : Str) (next : Str → Option (List Entry))
    → is_empty token ≡ false
    → next token ≡ some rest
    → follow (ok (page, token)) next ≡ some (page ++ rest)
follow_next page rest [] next named h = cc
follow_next page rest (c ∷ t) next named h = rw (h, follow) refl

no_limit {ℓ} : {A : Type ℓ} (b : Bool) (x y : A) → (if b && false then x else y) ≡ y
no_limit true x y = refl
no_limit false x y = refl

no_more : (n : ℕ) → ltb (suc n) 0 ≡ false
no_more n = ground arith

cut_last_page :
    (limit : ℕ) (rest : List Entry)
    → ltb limit (length rest) ≡ false
    → cut_page limit rest ≡ (rest, [])
unfolding cut_page
cut_last_page limit rest h = rw h (no_limit (ltb 0 limit) _ _)

cut_full_page :
    (n : ℕ) (rest : List Entry)
    → ltb (suc n) (length rest) ≡ true
    → cut_page (suc n) rest ≡ (take (suc n) rest, last_id (take (suc n) rest))
unfolding cut_page
cut_full_page n rest h = rw (h, lt→ltb 0 (suc n) (omega arith)) refl

length-drop : (n : ℕ) (xs : List Entry) → length (drop n xs) ≤ length xs
length-drop zero xs = omega arith
length-drop (suc n) [] = omega arith
length-drop (suc n) (x ∷ xs) = omega (arith, length-drop n xs)

shorter : (pages n : ℕ) (xs : List Entry) → suc (length xs) < suc pages → length (drop n xs) < pages
shorter pages n xs h = omega (arith, length-drop n xs)

module _ (entries : List Entry) (n : ℕ) (distinct : Distinct entries) (named : Named entries) where
  -- The token that ends a page leads to what follows the page.
  list_volumes_after :
      (done init : List Entry) (e : Entry) (rest : List Entry)
      → entries ≡ done ++ (init ++ e ∷ rest)
      → (is_empty (entry_id e) ≡ false)
        × (list_volumes entries (pos (suc n)) (entry_id e) ≡ ok (cut_page (suc n) rest))
  unfolding list_volumes
  list_volumes_after done init e rest s =
      let s' : entries ≡ (done ++ init) ++ e ∷ rest = s ∙ sym (append_assoc done init (e ∷ rest)) in
      let some_id : is_empty (entry_id e) ≡ false =
        All_middle (λ f. is_empty (entry_id f) ≡ false) (done ++ init) e rest
          (subst Named s' named) in
      let found : after_token (entry_id e) entries ≡ some rest =
        ap (after_token (entry_id e)) s'
        ∙ after_token_middle (done ++ init) e rest (subst Distinct s' distinct) in
      (some_id, rw (some_id, found) refl)

  collect_rest :
      (pages : ℕ) (done rest : List Entry) (token : Str)
      → entries ≡ done ++ rest
      → list_volumes entries (pos (suc n)) token ≡ ok (cut_page (suc n) rest)
      → length rest < pages
      → collect pages entries (pos (suc n)) token ≡ some rest
  unfolding collect
  collect_rest zero done rest token s h k = absurd (omega arith)
  collect_rest (suc pages) done [] token s h k = rw (h, cut_last_page (suc n) [] (no_more n)) refl
  collect_rest (suc pages) done (x ∷ xs) token s h k =
      elim (Bool-cases (ltb (suc n) (length (x ∷ xs)))) [
        | inr last ↦ rw (h, cut_last_page (suc n) (x ∷ xs) last) refl
        | inl more ↦
            let (init, e, page_is, id_is) = split_last x (take n xs) in
            let whole : x ∷ xs ≡ init ++ e ∷ drop n xs =
              ap (λ t. x ∷ t) (sym (take-append-drop n xs))
              ∙ ap (λ t. t ++ drop n xs) page_is
              ∙ append_assoc init (e ∷ []) (drop n xs) in
            let (some_id, next) =
              list_volumes_after done init e (drop n xs) (s ∙ ap (λ t. done ++ t) whole) in
            let rest_is : collect pages entries (pos (suc n)) (entry_id e) ≡ some (drop n xs) =
              collect_rest pages (done ++ (x ∷ take n xs)) (drop n xs) (entry_id e)
                (s
                  ∙ ap (λ t. done ++ (x ∷ t)) (sym (take-append-drop n xs))
                  ∙ sym (append_assoc done (x ∷ take n xs) (drop n xs)))
                next (shorter pages n xs k) in
            rw (h, cut_full_page n (x ∷ xs) more, id_is)
              (follow_next (x ∷ take n xs) (drop n xs) (entry_id e)
                  (collect pages entries (pos (suc n))) some_id rest_is
                ∙ ap (λ t. some (x ∷ t)) (take-append-drop n xs))
      ]

-- With a positive limit, and volumes whose IDs are distinct and not empty, a client that asks for
-- page after page, each time with the token of the page before, gets after at most one page more
-- than there are volumes a page without a token, and the pages put together are all the volumes,
-- each once and in order.
pub collect-list_volumes :
    (entries : List Entry) (n : ℕ)
    → Distinct entries
    → Named entries
    → collect (suc (length entries)) entries (pos (suc n)) [] ≡ some entries
unfolding list_volumes
collect-list_volumes entries n distinct named =
    collect_rest entries n distinct named (suc (length entries)) [] entries [] refl refl
      (omega arith)
