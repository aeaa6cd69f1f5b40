-- ===== src/Backend/Ends.antt =====
-- What a run has when it ends: a property of its result and its log, with one rule for each way to
-- build a handler. What the log holds is used at once: what is bound first forgets it.
use tns_csi.Common.{Bool, true, false, List, [], ◌∷◌, ◌≡◌, refl, inl, inr, if◌then◌else◌}
use tns_csi.Backend.{Backend, Call, Reply, Event, did, Driver, M, pure, ◌>>=◌, call}
use tns_csi.Backend.Guarded.{Knows, Knows-Extends}

-- Run where the log has the events `known`, the handler ends with the property.
pub record Ends {B : Backend} {A : Type 0} (Q : A → List Event → Type 0) (known : List Event)
    (m : M B A) : Type 0 where
  pub at : (s : Driver B) → Knows known s.log → Q (m s).0 (m s).1.log

module _ {B : Backend} {A : Type 0} {Q : A → List Event → Type 0} {known : List Event} where
  pub Ends-pure :
      (a : A) → ((log : List Event) → Knows known log → Q a log) → Ends {B = B} Q known (pure a)
  unfolding pure
  Ends-pure a q = record { at = λ s k. q s.log k }

  pub Ends-bind :
      {C : Type 0} (m : M B C) (f : C → M B A)
      → ((c : C) → Ends Q [] (f c))
      → Ends Q known (m >>= f)
  unfolding ◌>>=◌
  Ends-bind m f e = record { at = λ s k. (e (m s).0).at (m s).1 tt }

  pub Ends-learn :
      (c : Call) (f : Reply c → M B A)
      → ((r : Reply c) → Ends Q (did c r ∷ known) (f r))
      → Ends Q known (call c >>= f)
  unfolding ◌>>=◌ call
  Ends-learn c f e = record {
    at = λ s k.
        let s' = (call c s).1 in
        (e (call c s).0).at s' (inl refl, Knows-Extends known s.log s'.log (λ v h. inr h) k);
  }

  pub Ends-if :
      (b : Bool) (m n : M B A)
      → (b ≡ true → Ends Q known m)
      → (b ≡ false → Ends Q known n)
      → Ends Q known (if b then m else n)
  Ends-if true m n em en = em refl
  Ends-if false m n em en = en refl

  -- The result of a run, changed by a function.
  pub Ends-result :
      {C : Type 0} (m : M B C) (f : C → A)
      → ((s : Driver B) → Q (f (m s).0) (m s).1.log)
      → Ends Q known (m >>= λ c. pure (f c))
  unfolding ◌>>=◌ pure
  Ends-result m f q = record { at = λ s k. q s }

  pub Ends-weaken : {m : M B A} → Ends Q [] m → Ends Q known m
  Ends-weaken e = record { at = λ s k. e.at s tt }
