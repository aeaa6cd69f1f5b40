-- ===== src/Retry/Outcome.antt =====
-- What WithRetry keeps of the state, and where its success comes from.
use tns_csi.Common.{
  ℕ, zero, suc, ◌≡◌, refl, Option, none, some, Result, ok, err, Bool-cases, Option-cases, inl, inr,
}
use mathlib.Core.Path.{subst}
use tns_csi.Errors.{Err}
use tns_csi.Retry.{
  Float64, Context, Config, Settings, with_defaults, may_retry, next_backoff, attempt, retry_loop,
  with_retry, with_retry_no_result, after_call, after_wait, error_only, error_of,
}

module _ {ℓ κ ι} (R : Float64) {S : Type ℓ} {T : Type κ} (ctx : Context S) (P : S → Type ι)
    (fn : S → Result Err T × S) (keep : (s : S) → P s → P (fn s).1)
    (wait : (d : ℕ) (s : S) → P s → P (ctx.wait d s).1) where
  after_call_inv :
      (c : Settings R.F) (later : Err → S → Result Err T × S)
      → ((e : Err) (s : S) → P s → P (later e s).1)
      → (r : Result Err T × S) → P r.1
      → P (after_call R ctx c later r).1
  after_call_inv c later k (ok t, s) h = h
  after_call_inv c later k (err e, s) h = elim (Bool-cases (may_retry c.retryable e)) [
    | inl again ↦ rw again (k e s h)
    | inr refused ↦ rw refused h
  ]

  attempt_inv :
      (c : Settings R.F) (later : Err → S → Result Err T × S)
      → ((e : Err) (s : S) → P s → P (later e s).1)
      → (s : S) → P s
      → P (attempt R ctx c fn later s).1
  unfolding attempt
  attempt_inv c later k s h = elim (Option-cases (ctx.ctx_err s)) [
    | inr (e, stop) ↦ rw (stop, attempt) h
    | inl go ↦ rw (go, attempt) (after_call_inv c later k (fn s) (keep s h))
  ]

  after_wait_inv :
      (next : S → Result Err T × S)
      → ((s : S) → P s → P (next s).1)
      → (r : Option Err × S) → P r.1
      → P (after_wait R ctx next r).1
  after_wait_inv next k (some e, s) h = h
  after_wait_inv next k (none, s) h = k s h

  retry_loop_inv :
      (c : Settings R.F) (left backoff : ℕ) (s : S)
      → P s
      → P (retry_loop R ctx c fn left backoff s).1
  unfolding retry_loop
  retry_loop_inv c zero backoff s h = attempt_inv c _ (λ e s p. p) s h
  retry_loop_inv c (suc left) backoff s h =
      attempt_inv c _
        (λ e s p.
          after_wait_inv (retry_loop R ctx c fn left (next_backoff R c backoff))
            (retry_loop_inv c left (next_backoff R c backoff)) (ctx.wait backoff s)
            (wait backoff s p))
        s h

  -- A property of the state that the function and the waiting keep, WithRetry keeps.
  pub with_retry_inv : (config : Config R.F) (s : S) → P s → P (with_retry R ctx config fn s).1
  unfolding with_retry
  with_retry_inv config s h = retry_loop_inv (with_defaults R config) _ _ s h

module _ {ℓ κ ι} (R : Float64) {S : Type ℓ} {T : Type κ} (ctx : Context S) (Q : T → S → Type ι)
    (fn : S → Result Err T × S) (good : (s : S) (t : T) → (fn s).0 ≡ ok t → Q t (fn s).1) where
  abbrev Good : Result Err T × S → Type ι
  Good (ok t, s) = Q t s
  Good (err e, s) = Unit

  after_call-Good :
      (c : Settings R.F) (later : Err → S → Result Err T × S)
      → ((e : Err) (s : S) → Good (later e s))
      → (r : Result Err T × S) → Good r
      → Good (after_call R ctx c later r)
  after_call-Good c later k (ok t, s) g = g
  after_call-Good c later k (err e, s) g = elim (Bool-cases (may_retry c.retryable e)) [
    | inl again ↦ rw again (k e s)
    | inr refused ↦ rw refused tt
  ]

  fn-Good : (r : Result Err T × S) → ((t : T) → r.0 ≡ ok t → Q t r.1) → Good r
  fn-Good (ok t, s) g = g t refl
  fn-Good (err e, s) g = tt

  attempt-Good :
      (c : Settings R.F) (later : Err → S → Result Err T × S)
      → ((e : Err) (s : S) → Good (later e s))
      → (s : S) → Good (attempt R ctx c fn later s)
  unfolding attempt
  attempt-Good c later k s = elim (Option-cases (ctx.ctx_err s)) [
    | inr (e, stop) ↦ rw (stop, attempt) tt
    | inl go ↦ rw (go, attempt) (after_call-Good c later k (fn s) (fn-Good (fn s) (good s)))
  ]

  after_wait-Good :
      (next : S → Result Err T × S)
      → ((s : S) → Good (next s))
      → (r : Option Err × S) → Good (after_wait R ctx next r)
  after_wait-Good next k (some e, s) = tt
  after_wait-Good next k (none, s) = k s

  retry_loop-Good :
      (c : Settings R.F) (left backoff : ℕ) (s : S) → Good (retry_loop R ctx c fn left backoff s)
  unfolding retry_loop
  retry_loop-Good c zero backoff s = attempt-Good c _ (λ e s. tt) s
  retry_loop-Good c (suc left) backoff s =
      attempt-Good c _
        (λ e s.
          after_wait-Good (retry_loop R ctx c fn left (next_backoff R c backoff))
            (retry_loop-Good c left (next_backoff R c backoff)) (ctx.wait backoff s))
        s

  of_good : (r : Result Err T × S) (t : T) → Good r → r.0 ≡ ok t → Q t r.1
  of_good (ok t', s) t g e = subst (λ x. Q x s) (ok_inj t' t e) g
    where
      ok_inj : (a b : T) → ◌≡◌ {A = Result Err T} (ok a) (ok b) → a ≡ b
      ok_inj a b e = cc
  of_good (err x, s) t g e = cc

  -- A success of WithRetry is a success of the call that was made last: what holds after every
  -- successful call holds at the end.
  pub with_retry_good :
      (config : Config R.F) (s : S) (t : T)
      → (with_retry R ctx config fn s).0 ≡ ok t
      → Q t (with_retry R ctx config fn s).1
  unfolding with_retry
  with_retry_good config s t e = of_good _ t (retry_loop-Good (with_defaults R config) _ _ s) e

abbrev lifted {ℓ} : {S : Type ℓ} → (S → Option Err × S) → S → Result Err (Unit {0}) × S
lifted fn t = let (e, t') = fn t in (error_only e, t')

error_only_ok : (e : Option Err) (u : Unit {0}) → error_only e ≡ ok u → e ≡ none
error_only_ok none u h = refl
error_only_ok (some e) u h = cc

error_of-none : (r : Result Err (Unit {0})) → error_of r ≡ none → r ≡ ok tt
error_of-none (ok tt) h = refl
error_of-none (err e) h = cc

module _ {ℓ ι} (R : Float64) {S : Type ℓ} (ctx : Context S) (fn : S → Option Err × S)
    (config : Config R.F) where
  pub with_retry_no_result_inv :
      (P : S → Type ι)
      → ((s : S) → P s → P (fn s).1)
      → ((d : ℕ) (s : S) → P s → P (ctx.wait d s).1)
      → (s : S) → P s
      → P (with_retry_no_result R ctx config fn s).1
  unfolding with_retry_no_result
  with_retry_no_result_inv P keep wait s h = with_retry_inv R ctx P (lifted fn) keep wait config s h

  pub with_retry_no_result_good :
      (Q : S → Type ι)
      → ((s : S) → (fn s).0 ≡ none → Q (fn s).1)
      → (s : S) → (with_retry_no_result R ctx config fn s).0 ≡ none
      → Q (with_retry_no_result R ctx config fn s).1
  unfolding with_retry_no_result
  with_retry_no_result_good Q good s h =
      with_retry_good R ctx (λ _. Q) (lifted fn) (λ s u e. good s (error_only_ok (fn s).0 u e))
        config s tt (error_of-none _ h)
