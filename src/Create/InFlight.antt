-- ===== src/Create/InFlight.antt =====
-- The guard of CreateVolume (pkg/driver/controller.go) against overlapping calls for one name:
-- createsInFlight with LoadOrStore at the start and the deferred Delete at the end. A step is one
-- call of the map, which is atomic.
use tns_csi.Common.{
  Str, str_eq, str_eq_iff, Bool, true, false, not, ◌&&◌, ◌||◌, List, [], ◌∷◌, Result, ok, err, ◌≡◌,
  refl, sym, ◌∙◌, ap, ◌↔◌, arith, if◌then◌else◌, Bool-cases, inl, inr,
}
use tns_csi.Codes.{Code, aborted}

-- The keys of the map.
unfoldable pub has : Str → List Str → Bool
has name [] = false
has name (n ∷ names) = str_eq n name || has name names

-- s.createsInFlight.LoadOrStore(name, struct{}{}): an error if the name was there.
unfoldable pub begin_create : Str → List Str → Result Code (List Str)
begin_create name in_flight = if has name in_flight then err aborted else ok (name ∷ in_flight)

-- s.createsInFlight.Delete(name)
unfoldable pub end_create : Str → List Str → List Str
end_create name [] = []
end_create name (n ∷ names) =
    let rest = end_create name names in if str_eq n name then rest else n ∷ rest

-- The calls that are past the guard, by their names, and the map.
pub record Creates : Type 0 where
  pub running : List Str
  pub in_flight : List Str

-- One call with the name returns.
unfoldable pub leave : Str → List Str → List Str
leave name [] = []
leave name (n ∷ names) = let rest = leave name names in if str_eq n name then names else n ∷ rest

pub data Step : Creates → Creates → Type 0 where
  enters :
      (name : Str) (c : Creates) (in_flight : List Str)
      → begin_create name c.in_flight ≡ ok in_flight
      → Step c (record { running = name ∷ c.running; in_flight = in_flight })
  is_refused : (name : Str) (c : Creates) → begin_create name c.in_flight ≡ err aborted → Step c c
  leaves :
      (name : Str) (c : Creates)
      → has name c.running ≡ true
      → Step c (record { running = leave name c.running; in_flight = end_create name c.in_flight })

abbrev pub idle : Creates
idle = record { running = []; in_flight = [] }

pub data Reach : Creates → Type 0 where
  at_start : Reach idle
  after : {c d : Creates} → Reach c → Step c d → Reach d

-- No name twice.
abbrev pub NoRepeat : List Str → Type 0
NoRepeat [] = Unit
NoRepeat (n ∷ names) = (has n names ≡ false) × NoRepeat names

has-end_create : (m n : Str) (l : List Str) → has n (end_create m l) ≡ (has n l && not (str_eq m n))
unfolding has end_create
has-end_create m n [] = refl
has-end_create m n (x ∷ l) =
    ground (arith, has-end_create m n l, str_eq_iff x m, str_eq_iff x n, str_eq_iff m n)

has-leave :
    (m n : Str) (l : List Str) → NoRepeat l → has n (leave m l) ≡ (has n l && not (str_eq m n))
unfolding has leave
has-leave m n [] h = refl
has-leave m n (x ∷ l) h =
    ground (arith, has-leave m n l h.1, str_eq_iff x m, str_eq_iff x n, str_eq_iff m n)

leave-NoRepeat : (m : Str) (l : List Str) → NoRepeat l → NoRepeat (leave m l)
unfolding leave has
leave-NoRepeat m [] h = tt
leave-NoRepeat m (x ∷ l) h = elim (Bool-cases (str_eq x m)) [
  | inl same ↦ rw same h.1
  | inr other ↦ rw other (has-leave m x l h.1 ∙ rw (h.0) refl, leave-NoRepeat m l h.1)
]

-- The running calls have different names, and the map has exactly their names.
abbrev Guarded : Creates → Type 0
Guarded c = NoRepeat c.running × ((n : Str) → has n c.in_flight ≡ has n c.running)

begin_create-ok :
    (name : Str) (l l' : List Str)
    → begin_create name l ≡ ok l'
    → (has name l ≡ false) × (l' ≡ name ∷ l)
unfolding begin_create
begin_create-ok name l l' h = elim (Bool-cases (has name l)) [
  | inl there ↦ cc (rw there at h)
  | inr fresh ↦ (fresh, ground arith)
]

refused_iff :
    (name : Str) (l : List Str) → (begin_create name l ≡ err aborted) ↔ (has name l ≡ true)
unfolding begin_create
refused_iff name l = elim (Bool-cases (has name l)) [
  | inl there ↦ rw there (λ _. refl, λ _. refl)
  | inr fresh ↦ rw fresh (λ h. cc, λ h. cc)
]

Step-Guarded : {c d : Creates} → Step c d → Guarded c → Guarded d
unfolding has
Step-Guarded (enters name c l b) (distinct, same) =
    let (fresh, e) = begin_create-ok name c.in_flight l b in
    ((sym (same name) ∙ fresh, distinct), λ n. rw e (ap (λ b. str_eq name n || b) (same n)))
Step-Guarded (is_refused name c b) g = g
Step-Guarded (leaves name c h) (distinct, same) = (
  leave-NoRepeat name c.running distinct,
  λ n.
      has-end_create name n c.in_flight
      ∙ ap (λ b. b && not (str_eq name n)) (same n)
      ∙ sym (has-leave name n c.running distinct),
)

Reach-Guarded : {c : Creates} → Reach c → Guarded c
unfolding has
Reach-Guarded at_start = (tt, λ n. refl)
Reach-Guarded (after r s) = Step-Guarded s (Reach-Guarded r)

-- In every state that steps of the guard reach from the start, the calls of CreateVolume that are
-- running have different names, and a further call is refused exactly if one with its name is running.
pub create_volume-exclusive :
    (c : Creates)
    → Reach c
    → NoRepeat c.running
      × ((name : Str) → (begin_create name c.in_flight ≡ err aborted) ↔ (has name c.running ≡ true))
unfolding begin_create
create_volume-exclusive c r =
    let (distinct, same) = Reach-Guarded r in
    (distinct, λ name. rw (sym (same name)) (refused_iff name c.in_flight))
