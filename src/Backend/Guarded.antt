-- ===== src/Backend/Guarded.antt =====
-- Which earlier replies of the server authorize a call: runs whose calls all have their grounds in
-- the log, with one rule for each way to build a handler.
use tns_csi.Common.{
  Str, Bool, true, false, Option, none, some, List, [], ◌∷◌, ◌≡◌, refl, ◌⊎◌, inl, inr,
  if◌then◌else◌,
}
use tns_csi.Errors.{Err}
use tns_csi.Retry.Outcome.{with_retry_no_result_inv}
use tns_csi.Retry.Predicates.{deletion_config}
use tns_csi.Backend.{
  Backend, Call, Reply, Event, did, Driver, M, pure, ◌>>=◌, call, driver_context,
  with_deletion_retry,
}

-- The event is in the log.
abbrev pub Happened : Event → List Event → Type 0
Happened e [] = true ≡ false
Happened e (x ∷ log) = (x ≡ e) ⊎ Happened e log

-- All the events are in the log.
abbrev pub Knows : List Event → List Event → Type 0
Knows [] log = Unit
Knows (e ∷ es) log = Happened e log × Knows es log

-- Each call of the log has its grounds in what the log held before it.
abbrev pub Justified : (Call → List Event → Type 0) → List Event → Type 0
Justified G [] = Unit
Justified G (did c r ∷ log) = G c log × Justified G log

abbrev pub Extends : List Event → List Event → Type 0
Extends old log = (e : Event) → Happened e old → Happened e log

pub Knows-Extends : (es old log : List Event) → Extends old log → Knows es old → Knows es log
Knows-Extends [] old log x k = tt
Knows-Extends (e ∷ es) old log x k = (x e k.0, Knows-Extends es old log x k.1)

-- Run where the log has the events `known`, the handler makes no call without grounds.
pub record Guarded {B : Backend} (G : Call → List Event → Type 0) (known : List Event) {A : Type 0}
    (m : M B A) : Type 0 where
  pub at :
      (s : Driver B)
      → Knows known s.log
      → Justified G s.log
      → Justified G (m s).1.log × Extends s.log (m s).1.log

abbrev pub Grounds : (Call → List Event → Type 0) → List Event → Call → Type 0
Grounds G known c = (log : List Event) → Knows known log → G c log

module _ {B : Backend} {G : Call → List Event → Type 0} {known : List Event} where
  pub Guarded-pure : {A : Type 0} (a : A) → Guarded {B = B} G known (pure a)
  unfolding pure
  Guarded-pure a = record { at = λ s k j. (j, λ e h. h) }

  pub Guarded-bind :
      {A C : Type 0} (m : M B A) (f : A → M B C)
      → Guarded G known m
      → ((a : A) → Guarded G known (f a))
      → Guarded G known (m >>= f)
  unfolding ◌>>=◌
  Guarded-bind m f gm gf = record {
    at = λ s k j.
        let (j1, x1) = gm.at s k j in
        let (j2, x2) = (gf (m s).0).at (m s).1 (Knows-Extends known s.log (m s).1.log x1 k) j1 in
        (j2, λ e h. x2 e (x1 e h));
  }

  pub Guarded-call : (c : Call) → Grounds G known c → Guarded {B = B} G known (call c)
  unfolding call
  Guarded-call c g = record { at = λ s k j. ((g s.log k, j), λ e h. inr h) }

  -- What follows a call may use its reply.
  pub Guarded-learn :
      {C : Type 0} (c : Call) (f : Reply c → M B C)
      → Grounds G known c
      → ((r : Reply c) → Guarded G (did c r ∷ known) (f r))
      → Guarded G known (call c >>= f)
  unfolding ◌>>=◌ call
  Guarded-learn c f g gf = record {
    at = λ s k j.
        let s' = (call c s).1 in
        let r = (call c s).0 in
        let k' = Knows-Extends known s.log s'.log (λ e h. inr h) k in
        let (j2, x2) = (gf r).at s' (inl refl, k') (g s.log k, j) in (j2, λ e h. x2 e (inr h));
  }

  -- A call whose reply only goes into the result.
  pub Guarded-reply :
      {C : Type 0} (c : Call) (f : Reply c → C)
      → Grounds G known c
      → Guarded {B = B} G known (call c >>= λ r. pure (f r))
  Guarded-reply c f g = Guarded-bind _ _ (Guarded-call c g) (λ r. Guarded-pure (f r))

  pub Guarded-if :
      {A : Type 0} (b : Bool) (m n : M B A)
      → (b ≡ true → Guarded G known m)
      → (b ≡ false → Guarded G known n)
      → Guarded G known (if b then m else n)
  Guarded-if true m n gm gn = gm refl
  Guarded-if false m n gm gn = gn refl

  -- A query that is made unless a test answers without it.
  pub Guarded-ask :
      {A C : Type 0} (b : Bool) (a : A) (c : Call) (f : Reply c → A) (next : A → M B C)
      → Grounds G known c
      → Guarded G known (next a)
      → ((r : Reply c) → Guarded G (did c r ∷ known) (next (f r)))
      → Guarded G known ((if b then pure a else (call c >>= λ r. pure (f r))) >>= next)
  unfolding ◌>>=◌ pure
  Guarded-ask true a c f next g ga gf = ga
  Guarded-ask false a c f next g ga gf = Guarded-learn c (λ r. next (f r)) g gf

  pub Guarded-with_deletion_retry :
      (name : Str) (fn : M B (Option Err))
      → Guarded G known fn
      → Guarded G known (with_deletion_retry name fn)
  unfolding with_deletion_retry
  Guarded-with_deletion_retry name fn g = record {
    at = λ s k j.
        let keep =
          with_retry_no_result_inv B.float driver_context fn (deletion_config B.float name)
            (λ t. Justified G t.log × Extends s.log t.log)
            (λ t p.
              let (j1, x1) = g.at t (Knows-Extends known s.log t.log p.1 k) p.0 in
              (j1, λ e h. x1 e (p.1 e h)))
            (λ d t p. p) s (j, λ e h. h) in
        keep;
  }

  -- More may be known than is used.
  pub Guarded-weaken :
      {A : Type 0} {m : M B A} (e : Event) → Guarded G known m → Guarded G (e ∷ known) m
  Guarded-weaken e g = record { at = λ s k j. g.at s k.1 j }

  -- A test on a result.
  pub Guarded-Option :
      {A C : Type 0} (o : Option A) (f : Option A → M B C)
      → Guarded G known (f none)
      → ((a : A) → Guarded G known (f (some a)))
      → Guarded G known (f o)
  Guarded-Option none f gn gs = gn
  Guarded-Option (some a) f gn gs = gs a
