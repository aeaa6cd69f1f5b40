-- ===== src/Retry/Deletion.antt =====
-- Retries of deletions: which errors are tried again, and the bound on calls and waiting.
use tns_csi.Common.{
  ℕ, ◌*◌, ◌≤◌, ◌≡◌, refl, Str, str, Option, none, some, Bool, true, ◌||◌, List, [], ◌∷◌, ◌++◌, any,
  All, has_prefix, contains, to_lower, Result, arith, Bool-cases, inl, inr,
}
use tns_csi.Errors.{Err, classify, is_busy}
use tns_csi.Retry.{Float64, Context, second, with_defaults, with_retry}
use tns_csi.Retry.Attempts.{metered, metered_fn, with_retry_meter}
use tns_csi.Retry.Predicates.{
  contains_any, api_fragments, busy_fragments, is_busy_resource_error, is_retryable_network_error,
  is_retryable_api_error, is_retryable_error, is_retryable_deletion_error, deletion_config,
}

contains_of_has_prefix : (s sub : Str) → has_prefix s sub ≡ true → contains s sub ≡ true
unfolding contains
contains_of_has_prefix [] sub h = h
contains_of_has_prefix (c ∷ s) sub h = ground arith

contains_tail : (c : ℕ) (s sub : Str) → contains s sub ≡ true → contains (c ∷ s) sub ≡ true
unfolding contains
contains_tail c s sub h = ground arith

has_prefix-append_contains :
    (p s sub : Str) → has_prefix s (p ++ sub) ≡ true → contains s sub ≡ true
unfolding has_prefix
has_prefix-append_contains [] s sub h = contains_of_has_prefix s sub h
has_prefix-append_contains (x ∷ p) [] sub h = cc
has_prefix-append_contains (x ∷ p) (c ∷ s) sub h =
    contains_tail c s sub (has_prefix-append_contains p s sub (ground arith))

-- A text that contains a string contains every end of that string.
contains_end : (p s sub : Str) → contains s (p ++ sub) ≡ true → contains s sub ≡ true
unfolding contains
contains_end p [] sub h = has_prefix-append_contains p [] sub h
contains_end p (c ∷ s) sub h = elim (Bool-cases (has_prefix (c ∷ s) (p ++ sub))) [
  | inl here ↦ has_prefix-append_contains p (c ∷ s) sub here
  | inr not_here ↦ contains_tail c s sub (contains_end p s sub (rw not_here at h))
]

busy_end :
    (s : Str) (fragments : List Str)
    → All (λ f. (p : Str) × (f ≡ p ++ str "busy")) fragments
    → contains_any s fragments ≡ true
    → contains s (str "busy") ≡ true
unfolding contains_any
busy_end s [] a h = cc
busy_end s (f ∷ fs) ((p, e), a) h = elim (Bool-cases (contains s f)) [
  | inl here ↦ contains_end p s (str "busy") (rw e at here)
  | inr not_here ↦ busy_end s fs a (rw not_here at h)
]

busy_fragments_end : All (λ f. (p : Str) × (f ≡ p ++ str "busy")) busy_fragments
busy_fragments_end = (
  (str "dataset is ", refl),
  (
    (str "target is ", refl),
    (
      (str "resource ", refl),
      (
        (str "e", refl),
        (
          (str "ezfs_", refl),
          (
            (str "device or resource ", refl),
            ((str "pool is ", refl), ((str "filesystem is ", refl), tt)),
          ),
        ),
      ),
    ),
  ),
)

contains_any-api : (s : Str) → contains s (str "busy") ≡ true → contains_any s api_fragments ≡ true
unfolding contains_any
contains_any-api s h = ground arith

busy_retryable :
    (e : Option Err) → is_busy_resource_error e ≡ true → is_retryable_api_error e ≡ true
unfolding is_busy_resource_error is_retryable_api_error
busy_retryable none h = h
busy_retryable (some e) h =
    contains_any-api (to_lower e.text)
      (busy_end (to_lower e.text) busy_fragments busy_fragments_end h)

absorb : (b n a d : Bool) → (b ≡ true → a ≡ true) → (b || (n || a) || d) ≡ ((n || a) || d)
absorb b n a d f = ground arith

-- The busy test adds nothing to the retry decision of deletions: an error is tried again exactly
-- when it is a retryable network or API error, or says that the deletion was not confirmed.
pub is_retryable_deletion_error_lem :
    (e : Err)
    → is_retryable_deletion_error (some e) ≡ (
        is_retryable_error (some e)
        || contains (to_lower e.text) (str "deletion was not confirmed"))
unfolding is_retryable_deletion_error is_retryable_error
is_retryable_deletion_error_lem e =
    absorb (is_busy_resource_error (some e)) (is_retryable_network_error (some e))
      (is_retryable_api_error (some e))
      (contains (to_lower e.text) (str "deletion was not confirmed")) (busy_retryable (some e))

or_right : (a b : Bool) → b ≡ true → (a || b) ≡ true
or_right a b h = ground arith

any-contains :
    (s : Str) (fragments : List Str) → contains_any s fragments ≡ any (λ f. contains s f) fragments
unfolding contains_any
any-contains s [] = refl
any-contains s (f ∷ fs) = rw (any-contains s fs)

-- Every error that the retry package takes for busy, the API classifier does too.
pub is_busy_of_busy_resource : (e : Option Err) → is_busy_resource_error e ≡ true → is_busy e ≡ true
unfolding is_busy classify is_busy_resource_error to_lower
is_busy_of_busy_resource none h = h
is_busy_of_busy_resource (some e) h =
    or_right _ _ (rw (any-contains (to_lower e.text) busy_fragments) at h)

-- Whatever the context and the function do, a deletion is tried at most 12 times, with at most 55
-- seconds of waiting.
pub deletion_config_bounds {ℓ κ} :
    {S : Type ℓ} {T : Type κ} (R : Float64) (ctx : Context S) (name : Str)
    (fn : S → Result Err T × S) (s : S)
    → let end =
        (with_retry R
          (metered ctx)
          (deletion_config R name)
          (metered_fn fn)
          (record { state = s; calls = 0; waited = 0 })).1 in
      (end.calls ≤ 12) × (end.waited ≤ 55 * second)
unfolding with_defaults deletion_config
deletion_config_bounds R ctx name fn s = omega (
  arith,
  with_retry_meter R ctx (deletion_config R name) fn s 11 (5 * second) (5 * second) (5 * second)
      (inl (refl, omega arith)) (inl (refl, omega arith)) (inl (refl, omega arith)) (omega arith)
      (omega arith),
)
