-- ===== src/Retry.antt =====
-- pkg/retry/retry.go: WithRetry with its configuration, and the predicates that decide which
-- errors are tried again. Logging is left out.
pub mod Attempts
pub mod Predicates
pub mod Deletion
pub mod Outcome
use tns_csi.Common.{
  ℕ, zero, suc, ◌-◌, ◌*◌, Str, str, ℤ, pos, negsuc, itoa, Option, none, some, Bool, true, false,
  ◌||◌, List, [], ◌∷◌, ◌++◌, any, ltb, contains, to_lower, Result, ok, err, if◌then◌else◌,
}
use tns_csi.Errors.{
  Err, Sentinel, errorf, is, max_retries_exceeded, econnrefused, econnreset, epipe, enetunreach,
  ehostunreach, etimedout, eof, unexpected_eof, net_closed,
}

-- float64, as far as the retry loop uses it: a multiplier `m`, the test `m <= 0`, two constants,
-- and time.Duration(float64(d) * m).
pub record Float64 : Type 1 where
  pub F : Type 0
  pub le_zero : F → Bool
  pub one : F
  pub two : F
  pub scale : F → ℕ → ℕ

-- context.Context and the clock, seen from a state that the environment changes: ctx.Err(), and
-- the select on time.After(d) and ctx.Done(), which gives ctx.Err() in the second case.
pub record Context {ℓ} (S : Type ℓ) : Type ℓ where
  pub ctx_err : S → Option Err
  pub wait : ℕ → S → Option Err × S

-- time.Second, in nanoseconds
abbrev pub second : ℕ
second = 1_000_000_000

-- Config; a RetryableFunc of nil is `none`.
pub record Config (F : Type 0) : Type 0 where
  pub max_attempts : ℤ
  pub initial_backoff : ℤ
  pub max_backoff : ℤ
  pub backoff_multiplier : F
  pub retryable_func : Option (Option Err → Bool)
  pub operation_name : Str

abbrev default_operation_name : Str
default_operation_name = str "operation"

abbrev pub positive_or : ℤ → ℕ → ℕ
positive_or (pos zero) d = d
positive_or (pos (suc n)) d = suc n
positive_or (negsuc n) d = d

abbrev name_or : Str → Str → Str
name_or [] d = d
name_or (c ∷ s) d = c ∷ s

-- The configuration after the defaults are applied, when every number is positive. The loop is
-- counted by the attempts that remain after the first one.
pub record Settings (F : Type 0) : Type 0 where
  pub more_attempts : ℕ
  pub initial : ℕ
  pub most : ℕ
  pub multiplier : F
  pub retryable : Option (Option Err → Bool)
  pub name : Str

unfoldable pub with_defaults : (R : Float64) → Config R.F → Settings R.F
with_defaults R c = record {
  more_attempts = positive_or c.max_attempts 3 - 1;
  initial = positive_or c.initial_backoff second;
  most = positive_or c.max_backoff (30 * second);
  multiplier = if R.le_zero c.backoff_multiplier then R.two else c.backoff_multiplier;
  retryable = c.retryable_func;
  name = name_or c.operation_name default_operation_name;
}

unfoldable pub default_config : (R : Float64) → Config R.F
default_config R = record {
  max_attempts = pos 3;
  initial_backoff = pos second;
  max_backoff = pos (30 * second);
  backoff_multiplier = R.two;
  retryable_func = none;
  operation_name = default_operation_name;
}

-- fmt.Errorf("%w: %s failed after %d attempts: %w", ErrMaxRetriesExceeded, …, lastErr)
unfoldable pub exhausted : Str → ℕ → Err → Err
exhausted name attempts last =
    errorf
      (str "max retries exceeded: "
        ++ (name ++ (str " failed after " ++ (itoa (pos attempts) ++ str " attempts: "))))
      (max_retries_exceeded ∷ []) last []

-- `config.RetryableFunc != nil && !config.RetryableFunc(err)` is false
unfoldable pub may_retry : Option (Option Err → Bool) → Err → Bool
may_retry none e = true
may_retry (some f) e = f (some e)

-- The next backoff, after one wait.
unfoldable pub next_backoff : (R : Float64) → Settings R.F → ℕ → ℕ
next_backoff R c backoff =
    let b = R.scale c.multiplier backoff in if ltb c.most b then c.most else b

module _ {ℓ κ} (R : Float64) {S : Type ℓ} {T : Type κ} (ctx : Context S) where
  abbrev after_call :
      Settings R.F → (Err → S → Result Err T × S) → Result Err T × S → Result Err T × S
  after_call c later (ok t, s) = (ok t, s)
  after_call c later (err e, s) = if may_retry c.retryable e then later e s else (err e, s)

  abbrev after_wait : (S → Result Err T × S) → Option Err × S → Result Err T × S
  after_wait next (some stop, s) = (err stop, s)
  after_wait next (none, s) = next s

  -- One round of the loop; `later` is what follows a failure that may be retried.
  unfoldable pub attempt :
      Settings R.F → (S → Result Err T × S) → (Err → S → Result Err T × S) → S → Result Err T × S
  attempt c fn later s = elim (ctx.ctx_err s) [
    | some e ↦ (err e, s)
    | none ↦ after_call c later (fn s)
  ]

  -- The rounds with `left` more attempts to come after the current one.
  unfoldable pub retry_loop : Settings R.F → (S → Result Err T × S) → ℕ → ℕ → S → Result Err T × S
  retry_loop c fn zero backoff =
      attempt c fn (λ e s. (err (exhausted c.name (suc c.more_attempts) e), s))
  retry_loop c fn (suc left) backoff =
      attempt c fn
        λ e s. after_wait (retry_loop c fn left (next_backoff R c backoff)) (ctx.wait backoff s)

  -- WithRetry
  unfoldable pub with_retry : Config R.F → (S → Result Err T × S) → S → Result Err T × S
  unfolding with_defaults
  with_retry config fn s =
      let c = with_defaults R config in retry_loop c fn c.more_attempts c.initial s

-- WithRetryNoResult: the function's error alone, nil being `none`.
abbrev error_only : Option Err → Result Err (Unit {0})
error_only none = ok tt
error_only (some e) = err e

abbrev error_of : Result Err (Unit {0}) → Option Err
error_of (ok _) = none
error_of (err e) = some e

unfoldable pub with_retry_no_result {ℓ} :
    {S : Type ℓ} (R : Float64) → Context S → Config R.F → (S → Option Err × S) → S → Option Err × S
with_retry_no_result R ctx config fn s =
    let (r, s') = with_retry R ctx config (λ t. let (e, t') = fn t in (error_only e, t')) s in
    (error_of r, s')
