-- ===== src/Errors/Laws.antt =====
-- Classification is stable under wrapping an error with `fmt.Errorf("... %w ...")`.
use tns_csi.Common.{
  Str, str, has_prefix, contains, to_lower, some, Bool, true, ◌||◌, List, [], ◌∷◌, ◌++◌, any, ◌≡◌,
  arith,
}
use mathlib.Core.List.{map-append}
use tns_csi.Errors.{
  Sentinel, dataset_not_found, Err, is, same, classify, is_not_found, errorf, not_found_fragments,
}

pub has_prefix-append : (s t p : Str) → has_prefix s p ≡ true → has_prefix (s ++ t) p ≡ true
unfolding has_prefix
has_prefix-append s t [] h = ground arith
has_prefix-append [] t (p ∷ ps) h = cc
has_prefix-append (c ∷ s) t (p ∷ ps) h = ground (arith, has_prefix-append s t ps)

contains-append_left : (s t sub : Str) → contains s sub ≡ true → contains (s ++ t) sub ≡ true
unfolding contains
contains-append_left [] [] sub h = h
contains-append_left [] (c ∷ t) sub h = rw (has_prefix-append [] (c ∷ t) sub h)
contains-append_left (c ∷ s) t sub h =
    ground (arith, has_prefix-append (c ∷ s) t sub, contains-append_left s t sub)

contains-append_right : (p s sub : Str) → contains s sub ≡ true → contains (p ++ s) sub ≡ true
unfolding contains
contains-append_right [] s sub h = h
contains-append_right (c ∷ p) s sub h = ground (arith, contains-append_right p s sub)

-- A text that contains a fragment still contains it between a prefix and a suffix.
pub contains-wrap :
    (pre s post sub : Str) → contains s sub ≡ true → contains (pre ++ s ++ post) sub ≡ true
contains-wrap pre s post sub h =
    contains-append_left (pre ++ s) post sub (contains-append_right pre s sub h)

or_mono : (a b b' : Bool) → (a || b) ≡ true → (b ≡ true → b' ≡ true) → (a || b') ≡ true
or_mono a b b' h f = ground arith

any_mono {ℓ} :
    {A : Type ℓ} (p q : A → Bool) (xs : List A)
    → ((x : A) → p x ≡ true → q x ≡ true)
    → any p xs ≡ true
    → any q xs ≡ true
any_mono p q [] f h = cc
any_mono p q (x ∷ xs) f h = ground (arith, f x, any_mono p q xs f)

any-append_right {ℓ} :
    {A : Type ℓ} (p : A → Bool) (xs ys : List A) → any p ys ≡ true → any p (xs ++ ys) ≡ true
any-append_right p [] ys h = h
any-append_right p (x ∷ xs) ys h = ground (arith, any-append_right p xs ys)

lower_wrap :
    (pre s post : Str) → to_lower (pre ++ s ++ post) ≡ to_lower pre ++ to_lower s ++ to_lower post
unfolding to_lower
lower_wrap pre s post = simp map-append

contains-lower_wrap :
    (pre s post sub : Str)
    → contains (to_lower s) sub ≡ true
    → contains (to_lower (pre ++ s ++ post)) sub ≡ true
contains-lower_wrap pre s post sub h =
    rw (lower_wrap pre s post) (contains-wrap (to_lower pre) (to_lower s) (to_lower post) sub h)

-- An error that a classifier recognises, by an errno name or by its text, is recognised in the
-- same way after it is wrapped, whatever names and fragments the classifier has.
pub classify-errorf :
    (pre post : Str) (extra : List Sentinel) (e : Err) (names fragments : List Str)
    → classify (some e) names fragments ≡ true
    → classify (some (errorf pre extra e post)) names fragments ≡ true
unfolding classify
classify-errorf pre post extra e names fragments h = or_mono _ _ _ h λ texts.
    any_mono _ _ fragments (λ f found. contains-lower_wrap pre e.text post (to_lower f) found) texts

is-errorf :
    (pre post : Str) (extra : List Sentinel) (e : Err) (s : Sentinel)
    → is e s ≡ true
    → is (errorf pre extra e post) s ≡ true
unfolding is
is-errorf pre post extra e s h = any-append_right (same s) extra e.chain h

-- An error that IsNotFound recognises, by its sentinel, an errno name or its text, is recognised
-- after it is wrapped.
pub is_not_found-errorf :
    (pre post : Str) (extra : List Sentinel) (e : Err)
    → is_not_found (some e) ≡ true
    → is_not_found (some (errorf pre extra e post)) ≡ true
unfolding is_not_found
is_not_found-errorf pre post extra e h = ground (
  arith,
  is-errorf pre post extra e dataset_not_found,
  classify-errorf pre post extra e (str "ENOENT" ∷ []) not_found_fragments,
)
