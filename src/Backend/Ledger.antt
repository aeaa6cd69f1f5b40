-- ===== src/Backend/Ledger.antt =====
-- The objects that a run has created and not asked to delete, read off the log of its calls: a stack,
-- which a request of deletion may only pop, whatever the server answers to it. An object whose ID is zero or empty is none, as for the driver.
use tns_csi.Common.{
  ℕ, Str, str_eq, str_eq_refl, is_empty, ℤ, pos, negsuc, int_eq, is_zero, Option, none, some, Bool,
  true, false, ◌&&◌, ◌==◌, List, [], ◌∷◌, ok, ◌≡◌, refl, inl, inr, Bool-cases, arith, if◌then◌else◌,
}
use tns_csi.Backend
use tns_csi.Backend.{Event, did}

pub data Kind : Type 0 where
  extent target association subsystem namespace nfs smb other : Kind

pub data Object : Type 0 where
  volume : Str → Object
  numbered : Kind → ℤ → Object

abbrev rank : Kind → ℕ
rank extent = 0
rank target = 1
rank association = 2
rank subsystem = 3
rank namespace = 4
rank nfs = 5
rank smb = 6
rank other = 7

abbrev pub is_none : Object → Bool
is_none (volume id) = is_empty id
is_none (numbered k id) = is_zero id

abbrev same_object : Object → Object → Bool
same_object (volume a) (volume b) = str_eq a b
same_object (volume a) (numbered l b) = false
same_object (numbered k a) (volume b) = false
same_object (numbered k a) (numbered l b) = (rank k == rank l) && int_eq a b

pub data Effect : Type 0 where
  neutral : Effect
  opens closes : Object → Effect

-- What a call with its reply does to the objects. A deletion counts whatever the server answers.
unfoldable pub effect : Event → Effect
effect (did (Backend.create_dataset p) (ok d)) = opens (volume d.id)
effect (did (Backend.create_zvol p) (ok d)) = opens (volume d.id)
effect (did (Backend.create_iscsi_extent p) (ok e)) = opens (numbered extent e.id)
effect (did (Backend.create_iscsi_target p) (ok t)) = opens (numbered target t.id)
effect (did (Backend.create_iscsi_target_extent p) (ok id)) = opens (numbered association id)
effect (did (Backend.create_nvmeof_subsystem p) (ok s)) = opens (numbered subsystem s.id)
effect (did (Backend.create_nvmeof_namespace p) (ok n)) = opens (numbered namespace n.id)
effect (did (Backend.create_nfs_share p) (ok s)) = opens (numbered nfs s.id)
effect (did (Backend.create_smb_share p) (ok s)) = opens (numbered smb s.id)
effect (did (Backend.delete_dataset id) r) = closes (volume id)
effect (did (Backend.delete_iscsi_extent id) r) = closes (numbered extent id)
effect (did (Backend.delete_iscsi_target id) r) = closes (numbered target id)
effect (did (Backend.delete_iscsi_target_extent id) r) = closes (numbered association id)
effect (did (Backend.delete_nvmeof_subsystem id) r) = closes (numbered subsystem id)
effect (did (Backend.delete_nvmeof_namespace id) r) = closes (numbered namespace id)
effect (did (Backend.delete_nfs_share id) r) = closes (numbered nfs id)
effect (did (Backend.delete_smb_share id) r) = closes (numbered smb id)
effect (did (Backend.delete_snapshot id) r) = closes (numbered other (pos 1))
effect (did (Backend.remove_subsystem_from_port id) r) = closes (numbered other (pos 1))
effect e = neutral

unfoldable pub push : Object → List Object → List Object
push o os = if is_none o then os else o ∷ os

unfoldable pub pop : Object → List Object → Option (List Object)
pop o os =
    if is_none o
    then some os
    else elim os [ [] ↦ none | x ∷ xs ↦ if same_object x o then some xs else none ]

unfoldable pub settle : Effect → Option (List Object) → Option (List Object)
settle e none = none
settle neutral (some os) = some os
settle (opens o) (some os) = some (push o os)
settle (closes o) (some os) = pop o os

-- `none` where something else than the last object was deleted.
unfoldable pub ledger : List Event → Option (List Object)
unfolding settle effect
ledger [] = some []
ledger (e ∷ log) = settle (effect e) (ledger log)

int_eq_refl : (n : ℤ) → int_eq n n ≡ true
int_eq_refl (pos n) = ground arith
int_eq_refl (negsuc n) = ground arith

same_object_refl : (o : Object) → same_object o o ≡ true
same_object_refl (volume id) = str_eq_refl id
same_object_refl (numbered extent id) = int_eq_refl id
same_object_refl (numbered target id) = int_eq_refl id
same_object_refl (numbered association id) = int_eq_refl id
same_object_refl (numbered subsystem id) = int_eq_refl id
same_object_refl (numbered namespace id) = int_eq_refl id
same_object_refl (numbered nfs id) = int_eq_refl id
same_object_refl (numbered smb id) = int_eq_refl id
same_object_refl (numbered other id) = int_eq_refl id

pub pop-first : (o : Object) (os : List Object) → is_none o ≡ false → pop o (o ∷ os) ≡ some os
unfolding pop
pop-first o os there = rw there (rw (same_object_refl o) refl)

pub pop-push : (o : Object) (os : List Object) → pop o (push o os) ≡ some os
unfolding pop push
pop-push o os = elim (Bool-cases (is_none o)) [
  | inl nothing ↦ rw nothing refl
  | inr there ↦ rw there (rw (same_object_refl o) refl)
]
