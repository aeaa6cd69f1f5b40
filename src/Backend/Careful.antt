-- ===== src/Backend/Careful.antt =====
-- Handlers that delete nothing but the last object that they have created themselves, whatever they
-- return.
use tns_csi.Common.{
  Bool, true, false, Option, none, some, List, [], Result, ok, err, ◌≡◌, ◌≢◌, ◌∙◌, sym, ap,
  if◌then◌else◌,
}
use tns_csi.Codes.{Code}
use tns_csi.Backend.{Backend, Call, Reply, did, Driver, M, pure, ◌>>=◌, call}
use tns_csi.Backend.Ledger.{Object, effect, settle, ledger}
use tns_csi.Backend.Settles.{Quiet, Settled, Settles}

-- Run where the ledger is `l`, the handler ends with a ledger.
pub record Careful {B : Backend} {A : Type 0} (l : Option (List Object)) (m : M B A) : Type 0 where
  pub at : (s : Driver B) → ledger s.log ≡ l → ledger (m s).1.log ≢ none

some_is_not_none : {A : Type 0} {a : A} → some a ≢ none
some_is_not_none h = cc

of_Settled : {A : Type 0} (r : Result Code A) (l : Option (List Object)) → Settled r l → l ≢ none
of_Settled (ok a) l h = h
of_Settled (err c) l h = λ e. some_is_not_none (sym h ∙ e)

module _ {B : Backend} {A : Type 0} where
  pub Careful-pure : {os : List Object} (a : A) → Careful {B = B} (some os) (pure a)
  unfolding pure
  Careful-pure a = record { at = λ s h e. some_is_not_none (sym h ∙ e) }

  pub Careful-of_Settles : {m : M B (Result Code A)} → Settles (some []) m → Careful (some []) m
  Careful-of_Settles q = record { at = λ s h. of_Settled _ _ (q.at s h) }

  module _ {l : Option (List Object)} where
    pub Careful-Quiet :
        {C : Type 0} (m : M B C) (f : C → M B A)
        → Quiet m
        → ((c : C) → Careful l (f c))
        → Careful l (m >>= f)
    unfolding ◌>>=◌
    Careful-Quiet m f q e = record { at = λ s h. (e (m s).0).at (m s).1 (q.at s ∙ h) }

    pub Careful-call :
        (c : Call) (f : Reply c → M B A)
        → ((r : Reply c) → Careful (settle (effect (did c r)) l) (f r))
        → Careful l (call c >>= f)
    unfolding ◌>>=◌ call ledger
    Careful-call c f e = record {
      at = λ s h. (e (call c s).0).at (call c s).1 (ap (settle (effect (did c (call c s).0))) h);
    }

    pub Careful-reply :
        {D : Type 0} (c : Call) (f : Reply c → D) (g : D → M B A)
        → ((r : Reply c) → Careful (settle (effect (did c r)) l) (g (f r)))
        → Careful l ((call c >>= λ r. pure (f r)) >>= g)
    unfolding ◌>>=◌ pure
    Careful-reply c f g e = Careful-call c (λ r. g (f r)) e

    pub Careful-if :
        (b : Bool) (m n : M B A) → Careful l m → Careful l n → Careful l (if b then m else n)
    Careful-if true m n cm cn = cm
    Careful-if false m n cm cn = cn

    -- The result does not matter.
    pub Careful-result :
        {C : Type 0} (m : M B C) (f : C → A) → Careful l m → Careful l (m >>= λ c. pure (f c))
    unfolding ◌>>=◌ pure
    Careful-result m f c = record { at = c.at }

    pub Careful-if_bind :
        {C : Type 0} (b : Bool) (m n : M B C) (f : C → M B A)
        → Careful l (m >>= f)
        → Careful l (n >>= f)
        → Careful l ((if b then m else n) >>= f)
    Careful-if_bind true m n f cm cn = cm
    Careful-if_bind false m n f cm cn = cn

    pub Careful-pure_bind :
        {C : Type 0} (c : C) (f : C → M B A) → Careful l (f c) → Careful l (pure c >>= f)
    unfolding ◌>>=◌ pure
    Careful-pure_bind c f h = h

    pub Careful-result_bind :
        {C D : Type 0} (m : M B C) (g : C → D) (f : D → M B A)
        → Careful l (m >>= λ c. f (g c))
        → Careful l ((m >>= λ c. pure (g c)) >>= f)
    unfolding ◌>>=◌ pure
    Careful-result_bind m g f h = h
