-- ===== src/Backend/Keeps.antt =====
-- What every call of a handler satisfies, one rule for each way to build a handler.
use tns_csi.Common.{Str, Bool, true, false, Option, none, All, ◌≡◌, if◌then◌else◌}
use tns_csi.Errors.{Err}
use tns_csi.Retry.Outcome.{with_retry_no_result_inv, with_retry_no_result_good}
use tns_csi.Retry.Predicates.{deletion_config}
use tns_csi.Backend.{
  Backend, Call, Event, did, Driver, M, pure, ◌>>=◌, call, driver_context, with_deletion_retry,
}

abbrev pub OnCall : (Call → Type 0) → Event → Type 0
OnCall P (did c r) = P c

-- `m` makes no call without the property.
pub record Keeps {B : Backend} (P : Call → Type 0) {A : Type 0} (m : M B A) : Type 0 where
  pub at : (s : Driver B) → All (OnCall P) s.log → All (OnCall P) (m s).1.log

module _ {B : Backend} {P : Call → Type 0} where
  pub Keeps-pure : {A : Type 0} (a : A) → Keeps {B = B} P (pure a)
  unfolding pure
  Keeps-pure a = record { at = λ s h. h }

  pub Keeps-call : (c : Call) → P c → Keeps {B = B} P (call c)
  unfolding call
  Keeps-call c p = record { at = λ s h. (p, h) }

  pub Keeps-bind :
      {A C : Type 0} (m : M B A) (f : A → M B C)
      → Keeps P m
      → ((a : A) → Keeps P (f a))
      → Keeps P (m >>= f)
  unfolding ◌>>=◌
  Keeps-bind m f km kf = record { at = λ s h. (kf (m s).0).at (m s).1 (km.at s h) }

  pub Keeps-if :
      {A : Type 0} (b : Bool) (m n : M B A) → Keeps P m → Keeps P n → Keeps P (if b then m else n)
  Keeps-if true m n km kn = km
  Keeps-if false m n km kn = kn

  pub Keeps-with_deletion_retry :
      (name : Str) (fn : M B (Option Err)) → Keeps P fn → Keeps P (with_deletion_retry name fn)
  unfolding with_deletion_retry
  Keeps-with_deletion_retry name fn k = record {
    at = λ s h.
        with_retry_no_result_inv B.float driver_context fn (deletion_config B.float name)
          (λ s. All (OnCall P) s.log) k.at (λ d s h. h) s h;
  }

pub ruleset keeps_rules = (Keeps-pure, Keeps-call, Keeps-bind, Keeps-if, Keeps-with_deletion_retry)

-- What holds after every successful call holds after a successful retry.
pub with_deletion_retry_good {ι} :
    {B : Backend} (Q : Driver B → Type ι) (name : Str) (fn : M B (Option Err))
    → ((s : Driver B) → (fn s).0 ≡ none → Q (fn s).1)
    → (s : Driver B) → (with_deletion_retry name fn s).0 ≡ none
    → Q (with_deletion_retry name fn s).1
unfolding with_deletion_retry
with_deletion_retry_good {B} Q name fn good s h =
    with_retry_no_result_good B.float driver_context fn (deletion_config B.float name) Q good s h
