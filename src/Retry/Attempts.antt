-- ===== src/Retry/Attempts.antt =====
-- How often WithRetry calls its function, how long it waits, and what it returns.
use tns_csi.Common.{
  ℤ, pos, negsuc, is_positive, str, itoa, ◌<◌, ◌⊎◌, inl, inr, false, Str, append-nil, ℕ, zero, suc,
  ◌+◌, ◌*◌, ◌≤◌, ◌≡◌, refl, ◌∙◌, ap, sym, none, true, false, List, [], ◌∷◌, ◌++◌, length, All,
  Result, ok, err, arith,
}
use native.Mathlib.Nat.{le_trans}
use tns_csi.Errors.{Err, max_retries_exceeded}
use tns_csi.Retry.{
  second, positive_or, Float64, Context, Config, Settings, with_defaults, exhausted, may_retry,
  next_backoff, attempt, retry_loop, with_retry,
}

-- A state with a meter: the calls of the function and the time spent waiting.
pub record Metered {ℓ} (S : Type ℓ) : Type ℓ where
  pub state : S
  pub calls : ℕ
  pub waited : ℕ

module _ {ℓ κ} {S : Type ℓ} {T : Type κ} where
  abbrev pub metered_fn : (S → Result Err T × S) → Metered S → Result Err T × Metered S
  metered_fn fn m = let (r, s) = fn m.state in (r, record m { state = s; calls = suc m.calls })

abbrev pub metered {ℓ} : {S : Type ℓ} → Context S → Context (Metered S)
metered ctx = record {
  ctx_err = λ m. ctx.ctx_err m.state;
  wait =
      λ d m. let (o, s) = ctx.wait d m.state in (o, record m { state = s; waited = m.waited + d });
}

-- A setting as WithRetry takes it: the number given, if it is positive, else the default.
abbrev pub Given : ℤ → ℕ → ℕ → Type 0
Given v default n = ((v ≡ pos n) × (1 ≤ n)) ⊎ ((is_positive v ≡ false) × (n ≡ default))

positive_or-Given : (v : ℤ) (d n : ℕ) → Given v d n → positive_or v d ≡ n
positive_or-Given (pos zero) d n (inl (e, h)) = ground arith
positive_or-Given (pos zero) d n (inr (e, h)) = sym h
positive_or-Given (pos (suc k)) d n (inl (e, h)) = ground arith
positive_or-Given (pos (suc k)) d n (inr (e, h)) = ground arith
positive_or-Given (negsuc k) d n (inl (e, h)) = cc
positive_or-Given (negsuc k) d n (inr (e, h)) = sym h

attempts-Given :
    (R : Float64) (config : Config R.F) (n : ℕ)
    → Given config.max_attempts 3 n
    → suc (with_defaults R config).more_attempts ≡ n
unfolding with_defaults
attempts-Given R config n (inl (e, h)) =
    omega (arith, positive_or-Given config.max_attempts 3 n (inl (e, h)))
attempts-Given R config n (inr (e, h)) =
    omega (arith, positive_or-Given config.max_attempts 3 n (inr (e, h)))

next_backoff-le : (R : Float64) (c : Settings R.F) (backoff : ℕ) → next_backoff R c backoff ≤ c.most
unfolding next_backoff
next_backoff-le R c backoff = ground arith

module _ {ℓ κ} (R : Float64) {S : Type ℓ} {T : Type κ} (ctx : Context S) (c : Settings R.F)
    (fn : S → Result Err T × S) where
  abbrev loop : ℕ → ℕ → Metered S → Result Err T × Metered S
  loop = retry_loop R (metered ctx) c (metered_fn fn)

  retry_loop_meter :
      (left backoff most : ℕ) (m : Metered S)
      → backoff ≤ most
      → c.most ≤ most
      → ((loop left backoff m).1.calls ≤ m.calls + suc left)
        × ((loop left backoff m).1.waited ≤ m.waited + left * most)
  unfolding retry_loop attempt
  retry_loop_meter zero backoff most m h k = ground arith
  retry_loop_meter (suc left) backoff most m h k =
      let s' = (ctx.wait backoff (fn m.state).1).1 in
      let m' : Metered S = record {
        state = s';
        calls = suc m.calls;
        waited = m.waited + backoff;
      } in
      let b = next_backoff R c backoff in
      ground (
        arith,
        next_backoff-le R c backoff,
        retry_loop_meter left b most m' (le_trans (next_backoff-le R c backoff) k) k,
      )

with_retry_bounded {ℓ κ} :
    {S : Type ℓ} {T : Type κ} (R : Float64) (ctx : Context S) (config : Config R.F)
    (fn : S → Result Err T × S) (s : S) (most n : ℕ)
    → let c = with_defaults R config in
      let end =
        (with_retry R
          (metered ctx)
          config
          (metered_fn fn)
          (record { state = s; calls = 0; waited = 0 })).1 in
      suc c.more_attempts ≡ suc n
      → c.initial ≤ most
      → c.most ≤ most
      → (end.calls ≤ suc n) × (end.waited ≤ n * most)
unfolding with_retry
with_retry_bounded R ctx config fn s most n e h k =
    let c = with_defaults R config in
    let more : c.more_attempts ≡ n = omega arith in
    let bound : (m : ℕ) → m ≡ n → m * most ≡ n * most = λ m. ap (λ k. k * most) in
    omega (
      arith,
      more,
      bound c.more_attempts more,
      retry_loop_meter R ctx c fn c.more_attempts c.initial most
          (record { state = s; calls = 0; waited = 0 }) h k,
    )

-- WithRetry calls its function at most MaxAttempts times, and the time that it waits is in all at
-- most MaxAttempts - 1 times a time that neither InitialBackoff nor MaxBackoff is longer than, where
-- a setting that is not positive has its default, 3 attempts, 1 s and 30 s.
pub with_retry_meter {ℓ κ} :
    {S : Type ℓ} {T : Type κ} (R : Float64) (ctx : Context S) (config : Config R.F)
    (fn : S → Result Err T × S) (s : S) (n initial maximal most : ℕ)
    → Given config.max_attempts 3 (suc n)
    → Given config.initial_backoff second initial
    → Given config.max_backoff (30 * second) maximal
    → let end =
        (with_retry R
          (metered ctx)
          config
          (metered_fn fn)
          (record { state = s; calls = 0; waited = 0 })).1 in
      initial ≤ most → maximal ≤ most → (end.calls ≤ suc n) × (end.waited ≤ n * most)
unfolding with_defaults
with_retry_meter R ctx config fn s n initial maximal most a i m h k =
    with_retry_bounded R ctx config fn s most n (attempts-Given R config (suc n) a)
      (rw (positive_or-Given config.initial_backoff second initial i) h)
      (rw (positive_or-Given config.max_backoff (30 * second) maximal m) k)

-- A context that is never cancelled, over any state.
abbrev pub calm {ℓ} : {S : Type ℓ} → Context S
calm = record { ctx_err = λ s. none; wait = λ d s. (none, s) }

-- A function that gives the results of a script, one for each call.
abbrev pub replay {ℓ} :
    {T : Type ℓ} → Err → List (Result Err T) → Result Err T × List (Result Err T)
replay e [] = (err e, [])
replay e (r ∷ rest) = (r, rest)

abbrev pub failures {ℓ} : {T : Type ℓ} → List Err → List (Result Err T) → List (Result Err T)
failures [] rest = rest
failures (e ∷ es) rest = err e ∷ failures es rest

module _ {ℓ} {T : Type ℓ} (R : Float64) (c : Settings R.F) (e₀ : Err) where
  abbrev scripted : ℕ → ℕ → List (Result Err T) → Result Err T × List (Result Err T)
  scripted = retry_loop R calm c (replay e₀)

  scripted_succeeds :
      (es : List Err) (left backoff : ℕ) (t : T) (rest : List (Result Err T))
      → All (λ e. may_retry c.retryable e ≡ true) es
      → length es ≤ left
      → scripted left backoff (failures es (ok t ∷ rest)) ≡ (ok t, rest)
  unfolding retry_loop attempt
  scripted_succeeds [] zero backoff t rest p h = refl
  scripted_succeeds [] (suc left) backoff t rest p h = refl
  scripted_succeeds (e ∷ es) zero backoff t rest p h = absurd (omega arith)
  scripted_succeeds (e ∷ es) (suc left) backoff t rest p h =
      rw p.0 (scripted_succeeds es left _ t rest p.1 (omega arith))

  scripted_exhausts :
      (es : List Err) (last : Err) (backoff : ℕ) (rest : List (Result Err T))
      → All (λ e. may_retry c.retryable e ≡ true) (es ++ last ∷ [])
      → scripted (length es) backoff (failures es (err last ∷ rest))
        ≡ (err (exhausted c.name (suc c.more_attempts) last), rest)
  unfolding retry_loop attempt
  scripted_exhausts [] last backoff rest p = rw p.0
  scripted_exhausts (e ∷ es) last backoff rest p = rw p.0 (scripted_exhausts es last _ rest p.1)

  scripted_refuses :
      (es : List Err) (e : Err) (left backoff : ℕ) (rest : List (Result Err T))
      → All (λ e. may_retry c.retryable e ≡ true) es
      → may_retry c.retryable e ≡ false
      → length es ≤ left
      → scripted left backoff (failures es (err e ∷ rest)) ≡ (err e, rest)
  unfolding retry_loop attempt
  scripted_refuses [] e zero backoff rest p q h = rw q
  scripted_refuses [] e (suc left) backoff rest p q h = rw q
  scripted_refuses (x ∷ es) e zero backoff rest p q h = absurd (omega arith)
  scripted_refuses (x ∷ es) e (suc left) backoff rest p q h =
      rw p.0 (scripted_refuses es e left _ rest p.1 q (omega arith))

module _ {ℓ} {T : Type ℓ} (R : Float64) (config : Config R.F) (e₀ : Err) where
  -- In a context that is never cancelled: fewer retryable failures than MaxAttempts (3 if it is not
  -- positive), and then a success, give that success, and the function is not called again.
  pub with_retry_succeeds :
      (es : List Err) (t : T) (rest : List (Result Err T)) (attempts : ℕ)
      → Given config.max_attempts 3 attempts
      → All (λ e. may_retry config.retryable_func e ≡ true) es
      → length es < attempts
      → with_retry R calm config (replay e₀) (failures es (ok t ∷ rest)) ≡ (ok t, rest)
  unfolding with_retry
  with_retry_succeeds es t rest attempts a p h =
      let few : length es ≤ (with_defaults R config).more_attempts =
        omega (arith, attempts-Given R config attempts a) in
      scripted_succeeds R (with_defaults R config) e₀ es _ _ t rest p few

  -- The error of the last attempt, wrapped.
  with_retry-exhausted :
      (es : List Err) (last : Err) (rest : List (Result Err T))
      → All (λ e. may_retry config.retryable_func e ≡ true) (es ++ last ∷ [])
      → length es ≡ (with_defaults R config).more_attempts
      → with_retry R calm config (replay e₀) (failures es (err last ∷ rest)) ≡ (
        err (
            exhausted
              (with_defaults R config).name
              (suc (with_defaults R config).more_attempts)
              last),
        rest,
      )
  unfolding with_retry
  with_retry-exhausted es last rest p h =
      ap
        (λ n.
          retry_loop R calm (with_defaults R config) (replay e₀) n (with_defaults R config).initial
            (failures es (err last ∷ rest)))
        (sym h)
      ∙ scripted_exhausts R (with_defaults R config) e₀ es last _ rest p

  -- In a context that is never cancelled: MaxAttempts retryable failures (3 if it is not positive),
  -- of which `last` is the last one, give an error whose chain is ErrMaxRetriesExceeded and then the
  -- chain of `last`, with the API error and the network error of `last`, and with its text at the
  -- end; the function is not called again.
  pub with_retry_exhausts :
      (es : List Err) (last : Err) (rest : List (Result Err T))
      → Given config.max_attempts 3 (suc (length es))
      → All (λ e. may_retry config.retryable_func e ≡ true) (es ++ last ∷ [])
      → (e : Err) × (with_retry R calm config (replay e₀) (failures es (err last ∷ rest))
          ≡ (err e, rest))
        × (e.chain ≡ max_retries_exceeded ∷ last.chain)
        × (e.api ≡ last.api)
        × (e.net_error ≡ last.net_error)
        × ((pre : Str) × (e.text ≡ pre ++ last.text))
  unfolding exhausted
  with_retry_exhausts es last rest a p =
      let c = with_defaults R config in
      (
        exhausted c.name (suc c.more_attempts) last,
        with_retry-exhausted es last rest p
            (omega (arith, attempts-Given R config (suc (length es)) a)),
        refl,
        refl,
        refl,
        (
          str "max retries exceeded: "
              ++ (c.name
                  ++ (str " failed after "
                      ++ (itoa (pos (suc c.more_attempts)) ++ str " attempts: "))),
          append-nil _,
        ),
      )

  -- In a context that is never cancelled: an error that may not be retried is returned at once,
  -- unwrapped, after the call that gave it.
  pub with_retry_refuses :
      (es : List Err) (e : Err) (rest : List (Result Err T))
      → All (λ e. may_retry config.retryable_func e ≡ true) es
      → may_retry config.retryable_func e ≡ false
      → length es ≤ (with_defaults R config).more_attempts
      → with_retry R calm config (replay e₀) (failures es (err e ∷ rest)) ≡ (err e, rest)
  unfolding with_retry
  with_retry_refuses es e rest p q h =
      scripted_refuses R (with_defaults R config) e₀ es e _ _ rest p q h
