-- ===== src/Publish/Attached.antt =====
-- The map of published volumes says of each volume and node what the answers to the callers say.
use tns_csi.Common.{
  ℕ, Str, str_eq, str_eq_iff, str_eq_refl, is_empty, Map, lookup, lookup-insert, lookup-erase,
  cut_last, cut_last-append, Lacks, Bool, true, false, not, ◌&&◌, Option, none, some, List, [], ◌∷◌,
  ◌⊎◌, All, ◌≡◌, refl, sym, ap, ◌∙◌, arith, Bool-cases, inl, inr, if◌then◌else◌,
}
use tns_csi.Codes.{Code}
use tns_csi.Publish.{
  register, unregister, Controller, publish_key, differ, unknown_node, track,
  controller_publish_volume, controller_unpublish_volume,
}

pub data Request : Type 0 where
  publish : (volume node : Str) (has_capability readonly : Bool) → Request
  unpublish : (volume node : Str) → Request
  node_registered : (node : Str) (now : ℕ) → Request
  node_unregistered : (node : Str) → Request

-- A change of the registry, if there is one.
abbrev in_registry : (Map ℕ → Map ℕ) → Controller → Controller
in_registry f c = elim c.node_registry [
  | none ↦ c
  | some nodes ↦ record c { node_registry = some (f nodes) }
]

unfoldable pub serve : Controller → Request → Option Code × Controller
serve c (publish volume node has_capability readonly) =
    controller_publish_volume c volume node has_capability readonly
serve c (unpublish volume node) = controller_unpublish_volume c volume node
serve c (node_registered node now) = (none, in_registry (register node now) c)
serve c (node_unregistered node) = (none, in_registry (unregister node) c)

-- The runs of a new controller, with their answers, the last one first.
pub data Run : List (Request × Option Code) → Controller → Type 0 where
  started :
      (registry : Option (Map ℕ))
      → Run [] (record { node_registry = registry; published_volumes = [] })
  served :
      {log : List (Request × Option Code)} {c : Controller}
      → Run log c
      → (r : Request) → Run ((r, (serve c r).0) ∷ log) (serve c r).1

-- What an answer says of how a volume is published to a node.
effect : Str → Str → Request → Option Code → Option Bool → Option Bool
effect volume node (publish v n cap readonly) (some e) before = before
effect volume node (publish v n cap readonly) none before =
    if str_eq v volume && str_eq n node then some readonly else before
effect volume node (unpublish v n) (some e) before = before
effect volume node (unpublish v n) none before =
    if str_eq v volume && str_eq n node then none else before
effect volume node (node_registered n now) e before = before
effect volume node (node_unregistered n) e before = before

-- How a volume is published to a node, as the answers say: a publication that was accepted holds
-- until an accepted withdrawal.
unfoldable pub attached : Str → Str → List (Request × Option Code) → Option Bool
unfolding effect
attached volume node [] = none
attached volume node ((r, e) ∷ log) = effect volume node r e (attached volume node log)

-- No node's name in the requests has a colon.
abbrev pub NodeLacksColon : Request → Type 0
NodeLacksColon (publish v n cap readonly) = Lacks b':' n
NodeLacksColon (unpublish v n) = Lacks b':' n
NodeLacksColon (node_registered n now) = Unit
NodeLacksColon (node_unregistered n) = Unit

publish_key_injective :
    (v v' n n' : Str)
    → Lacks b':' n
    → Lacks b':' n'
    → publish_key v n ≡ publish_key v' n'
    → (v ≡ v') × (n ≡ n')
unfolding publish_key
publish_key_injective v v' n n' h h' e =
    let split : some (v, n) ≡ some (v', n') =
      sym (cut_last-append b':' v n h) ∙ ap (cut_last b':') e ∙ cut_last-append b':' v' n' h' in
    (cc split, cc split)

key_eq :
    (v volume n node : Str)
    → Lacks b':' n
    → Lacks b':' node
    → str_eq (publish_key v n) (publish_key volume node) ≡ (str_eq v volume && str_eq n node)
key_eq v volume n node h h' =
    elim (Bool-cases (str_eq (publish_key v n) (publish_key volume node))) [
      | inl e ↦
          let (ev, en) =
            publish_key_injective v volume n node h h'
              ((str_eq_iff (publish_key v n) (publish_key volume node)).0 e) in
          rw (e, ev, en, str_eq_refl volume, str_eq_refl node) refl
      | inr e ↦ rw e (
          not_both (str_eq v volume) (str_eq n node) λ ev en.
            sym (str_eq_refl (publish_key volume node))
            ∙ ap (λ k. str_eq k (publish_key volume node)) (sym (same_key ev en))
            ∙ e)
    ]
  where
    same_key :
        str_eq v volume ≡ true → str_eq n node ≡ true → publish_key v n ≡ publish_key volume node
    same_key ev en = rw ((str_eq_iff v volume).0 ev, (str_eq_iff n node).0 en) refl

    not_both : (a b : Bool) → (a ≡ true → b ≡ true → true ≡ false) → false ≡ (a && b)
    not_both a b f = ground (arith, f)

empty_other : (n node : Str) → is_empty n ≡ true → is_empty node ≡ false → str_eq n node ≡ false
unfolding str_eq
empty_other [] [] h k = cc
empty_other [] (c ∷ node) h k = refl
empty_other (c ∷ n) node h k = cc

module _ (volume node : Str) (clean : Lacks b':' node) where
  abbrev seen : Controller → Option Bool
  seen c = lookup (publish_key volume node) c.published_volumes

  track-effect :
      (c : Controller) (v n : Str) (cap readonly : Bool) (o : Option Bool)
      → Lacks b':' n
      → lookup (publish_key v n) c.published_volumes ≡ o
      → seen (track c (publish_key v n) readonly o).1
        ≡ effect volume node
            (publish v n cap readonly)
            (track c (publish_key v n) readonly o).0
            (seen c)
  unfolding track effect
  track-effect c v n cap readonly none h e =
      lookup-insert (publish_key volume node) (publish_key v n) readonly c.published_volumes
      ∙ rw (key_eq v volume n node h clean) refl
  track-effect c v n cap readonly (some existing) h e =
      elim (Bool-cases (differ existing readonly)) [
        | inl other ↦ rw other refl
        | inr same ↦ rw same (unchanged same (Bool-cases (str_eq v volume && str_eq n node)))
      ]
    where
      equal : (a b : Bool) → differ a b ≡ false → a ≡ b
      equal a b h = ground arith

      unchanged :
          differ existing readonly ≡ false
          → ((str_eq v volume && str_eq n node) ≡ true)
            ⊎ ((str_eq v volume && str_eq n node) ≡ false)
          → seen c ≡ (if str_eq v volume && str_eq n node then some readonly else seen c)
      unchanged same (inr b) = rw b refl
      unchanged same (inl b) = rw b (
          sym (
            ap (λ k. lookup k c.published_volumes)
              ((str_eq_iff (publish_key v n) (publish_key volume node)).0
                (key_eq v volume n node h clean ∙ b)))
          ∙ e
          ∙ ap some (equal existing readonly same))

  publish-effect :
      (c : Controller) (v n : Str) (cap readonly : Bool)
      → Lacks b':' n
      → seen (controller_publish_volume c v n cap readonly).1
        ≡ effect volume node
            (publish v n cap readonly)
            (controller_publish_volume c v n cap readonly).0
            (seen c)
  unfolding controller_publish_volume effect
  publish-effect c v n cap readonly h = elim (Bool-cases (is_empty v)) [
    | inl e ↦ rw e refl
    | inr e₁ ↦ elim (Bool-cases (is_empty n)) [
      | inl e ↦ rw (e₁, e) refl
      | inr e₂ ↦ elim (Bool-cases (not cap)) [
        | inl e ↦ rw (e₁, e₂, e) refl
        | inr e₃ ↦ elim (Bool-cases (unknown_node c.node_registry n)) [
          | inl e ↦ rw (e₁, e₂, e₃, e) refl
          | inr e₄ ↦ rw (e₁, e₂, e₃, e₄) (track-effect c v n cap readonly _ h refl)
        ]
      ]
    ]
  ]

  unpublish-effect :
      (c : Controller) (v n : Str)
      → Lacks b':' n
      → is_empty node ≡ false
      → seen (controller_unpublish_volume c v n).1
        ≡ effect volume node (unpublish v n) (controller_unpublish_volume c v n).0 (seen c)
  unfolding controller_unpublish_volume effect
  unpublish-effect c v n h named = elim (Bool-cases (is_empty v)) [
    | inl e ↦ rw e refl
    | inr e₁ ↦ elim (Bool-cases (is_empty n)) [
      | inl e ↦ rw (e₁, e) (rw (empty_other n node e named) (and_false (str_eq v volume)))
      | inr e₂ ↦
          rw (e₁, e₂)
            (lookup-erase (publish_key volume node) (publish_key v n) c.published_volumes
              ∙ rw (key_eq v volume n node h clean) refl)
    ]
  ]
    where
      and_false : (b : Bool) → seen c ≡ (if b && false then none else seen c)
      and_false b = ground arith

  seen-in_registry : (f : Map ℕ → Map ℕ) (c : Controller) → seen (in_registry f c) ≡ seen c
  seen-in_registry f c = registry_cases c.node_registry refl
    where
      registry_cases : (o : Option (Map ℕ)) → c.node_registry ≡ o → seen (in_registry f c) ≡ seen c
      registry_cases none e = rw e refl
      registry_cases (some nodes) e = rw e refl

  serve-effect :
      is_empty node ≡ false
      → (c : Controller) (r : Request) → NodeLacksColon r
      → seen (serve c r).1 ≡ effect volume node r (serve c r).0 (seen c)
  unfolding serve effect
  serve-effect named c (publish v n cap readonly) h = publish-effect c v n cap readonly h
  serve-effect named c (unpublish v n) h = unpublish-effect c v n h named
  serve-effect named c (node_registered n now) h = seen-in_registry (register n now) c
  serve-effect named c (node_unregistered n) h = seen-in_registry (unregister n) c

-- After every run of a new controller whose requests name nodes without a colon, the map of
-- published volumes says of each volume and node exactly what the answers say: that it is published
-- to the node in the mode of the last accepted publication, if none was withdrawn since.
pub published_volumes-attached :
    {log : List (Request × Option Code)} {c : Controller} (volume node : Str)
    → Run log c
    → All (λ e. NodeLacksColon e.0) log
    → Lacks b':' node
    → is_empty node ≡ false
    → lookup (publish_key volume node) c.published_volumes ≡ attached volume node log
unfolding attached lookup
published_volumes-attached volume node (started registry) h clean named = refl
published_volumes-attached volume node (served {log} {c} run r) h clean named =
    serve-effect volume node clean named c r h.0
    ∙ ap (effect volume node r (serve c r).0)
        (published_volumes-attached volume node run h.1 clean named)
