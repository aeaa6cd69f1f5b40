-- ===== src/Backend/Settles.antt =====
-- Handlers that leave the ledger of the created objects as it is, and handlers whose error means that
-- they have deleted all that they have created: one rule for each way to build a handler.
use tns_csi.Common.{
  Bool, true, false, Option, none, some, List, [], Result, ok, err, ◌≡◌, ◌≢◌, refl, sym, ◌∙◌, ap,
  if◌then◌else◌,
}
use mathlib.Core.Path.{subst}
use tns_csi.Codes.{Code}
use tns_csi.Backend.{Backend, Call, Reply, did, Driver, M, pure, ◌>>=◌, call}
use tns_csi.Backend.Ledger.{Object, neutral, effect, settle, ledger}

-- The handler neither creates nor deletes an object.
pub record Quiet {B : Backend} {A : Type 0} (m : M B A) : Type 0 where
  pub at : (s : Driver B) → ledger (m s).1.log ≡ ledger s.log

abbrev pub Neutral : Call → Type 0
Neutral c = (r : Reply c) → effect (did c r) ≡ neutral

settle-neutral : (l : Option (List Object)) → settle neutral l ≡ l
unfolding settle
settle-neutral none = refl
settle-neutral (some os) = refl

module _ {B : Backend} where
  pub Quiet-pure : {A : Type 0} (a : A) → Quiet {B = B} (pure a)
  unfolding pure
  Quiet-pure a = record { at = λ s. refl }

  pub Quiet-call : (c : Call) → Neutral c → Quiet {B = B} (call c)
  unfolding call ledger
  Quiet-call c n = record {
    at = λ s. ap (λ e. settle e (ledger s.log)) (n (call c s).0) ∙ settle-neutral (ledger s.log);
  }

  pub Quiet-bind :
      {A C : Type 0} (m : M B A) (f : A → M B C)
      → Quiet m
      → ((a : A) → Quiet (f a))
      → Quiet (m >>= f)
  unfolding ◌>>=◌
  Quiet-bind m f qm qf = record { at = λ s. (qf (m s).0).at (m s).1 ∙ qm.at s }

  pub Quiet-if :
      {A : Type 0} (b : Bool) (m n : M B A) → Quiet m → Quiet n → Quiet (if b then m else n)
  Quiet-if true m n qm qn = qm
  Quiet-if false m n qm qn = qn

pub ruleset quiet_rules = (Quiet-pure, Quiet-call, Quiet-bind, Quiet-if)

-- An error leaves nothing behind; after a success nothing was deleted that this run has not created.
abbrev pub Settled : {A : Type 0} → Result Code A → Option (List Object) → Type 0
Settled (ok a) l = l ≢ none
Settled (err c) l = l ≡ some []

-- Run where the ledger is `l`, the handler ends with the ledger settled.
pub record Settles {B : Backend} {A : Type 0} (l : Option (List Object)) (m : M B (Result Code A))
    : Type 0 where
  pub at : (s : Driver B) → ledger s.log ≡ l → Settled (m s).0 (ledger (m s).1.log)

module _ {B : Backend} {A : Type 0} {l : Option (List Object)} where
  pub Settles-pure : (r : Result Code A) → Settled r l → Settles {B = B} l (pure r)
  unfolding pure
  Settles-pure r q = record { at = λ s h. subst (Settled r) (sym h) q }

  pub Settles-quiet :
      {C : Type 0} (m : M B C) (f : C → M B (Result Code A))
      → Quiet m
      → ((c : C) → Settles l (f c))
      → Settles l (m >>= f)
  unfolding ◌>>=◌
  Settles-quiet m f q e = record { at = λ s h. (e (m s).0).at (m s).1 (q.at s ∙ h) }

  pub Settles-call :
      (c : Call) (f : Reply c → M B (Result Code A))
      → ((r : Reply c) → Settles (settle (effect (did c r)) l) (f r))
      → Settles l (call c >>= f)
  unfolding ◌>>=◌ call ledger
  Settles-call c f e = record {
    at = λ s h. (e (call c s).0).at (call c s).1 (ap (settle (effect (did c (call c s).0))) h);
  }

  pub Settles-if :
      (b : Bool) (m n : M B (Result Code A))
      → Settles l m
      → Settles l n
      → Settles l (if b then m else n)
  Settles-if true m n sm sn = sm
  Settles-if false m n sm sn = sn

  pub Settles-reply :
      {D : Type 0} (c : Call) (f : Reply c → D) (g : D → M B (Result Code A))
      → ((r : Reply c) → Settles (settle (effect (did c r)) l) (g (f r)))
      → Settles l ((call c >>= λ r. pure (f r)) >>= g)
  unfolding ◌>>=◌ pure
  Settles-reply c f g e = Settles-call c (λ r. g (f r)) e

  pub Settles-if_bind :
      {C : Type 0} (b : Bool) (m n : M B C) (f : C → M B (Result Code A))
      → Settles l (m >>= f)
      → Settles l (n >>= f)
      → Settles l ((if b then m else n) >>= f)
  Settles-if_bind true m n f sm sn = sm
  Settles-if_bind false m n f sm sn = sn
