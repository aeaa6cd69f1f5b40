-- ===== src/Create/Settled/Datasets.antt =====
-- Steps that the handlers of several protocols share, with what they leave behind.
use tns_csi.Common.{Str, Option, none, some, Map, List, [], Result, ok, err, ◌≢◌, refl}
use tns_csi.Codes.{Code}
use tns_csi.Errors.{Err}
use tns_csi.Backend
use tns_csi.Backend.{
  DatasetInfo, DatasetOptions, NfsShare, SmbShare, Event, did, Backend, Driver, M, pure, ◌>>=◌,
  ◌>>◌, call,
}
use tns_csi.Backend.Ledger.{Object, volume, effect, push, settle, pop-push}
use tns_csi.Backend.Settles.{
  Quiet, Quiet-pure, Quiet-call, Quiet-bind, Quiet-if, quiet_rules, Settles, Settles-pure,
  Settles-quiet, Settles-reply,
}
use tns_csi.Create.Request.{
  Setup, VolumeSettings, query_exact_dataset, recover_if, ensure_properties, record_properties,
}
use tns_csi.Create.Files.{
  MadeDataset, existing, new, made, dataset_create_params, get_or_create_dataset, cleanup_dataset,
}

-- What the step of the dataset has created.
abbrev pub made_objects : MadeDataset → List Object
made_objects (existing d) = []
made_objects (new d) = push (volume d.id) []

pub query_exact_dataset-Quiet : {B : Backend} (id : Str) → Quiet {B = B} (query_exact_dataset id)
unfolding query_exact_dataset effect
query_exact_dataset-Quiet id = search quiet_rules

pub record_properties-Quiet :
    {B : Backend} (id : Str) (props : Str → Map Str) → Quiet {B = B} (record_properties id props)
unfolding record_properties effect
record_properties-Quiet id props = search quiet_rules

module _ {B : Backend} (write : M B (Unit {0})) (q : Quiet write) (keys : List Str) where
  recover_if-Quiet : (r : Result Err (Map Str)) → Quiet (recover_if write keys r)
  recover_if-Quiet (err e) = search quiet_rules
  recover_if-Quiet (ok props) = Quiet-if _ _ _ (Quiet-pure tt) q

  pub ensure_properties-Quiet : (id : Str) → Quiet (ensure_properties id keys write)
  unfolding ensure_properties effect
  ensure_properties-Quiet id =
      Quiet-bind _ _ (Quiet-call (Backend.get_dataset_properties id keys) (λ r. refl))
        recover_if-Quiet

pub some_is_not_none : {A : Type 0} {a : A} → some a ≢ none
some_is_not_none h = cc

pub cleanup_dataset-Settles :
    {B : Backend} {A : Type 0} (m : MadeDataset) (c : Code)
    → Settles {B = B} {A = A} (some (made_objects m)) (cleanup_dataset m >> pure (err c))
unfolding cleanup_dataset effect settle
cleanup_dataset-Settles (existing d) c =
    Settles-quiet _ _ (Quiet-pure tt) (λ _. Settles-pure _ refl)
cleanup_dataset-Settles (new d) c =
    Settles-reply (Backend.delete_dataset d.id) _ _
      (λ r. Settles-pure _ (pop-push (volume d.id) []))

-- After a quiet step, a success.
pub Settles-success :
    {B : Backend} {A C : Type 0} {os : List Object} (m : M B C) (f : C → A)
    → Quiet m
    → Settles (some os) (m >>= λ c. pure (ok (f c)))
Settles-success m f q = Settles-quiet _ _ q (λ c. Settles-pure _ some_is_not_none)

-- The step of the dataset, and what follows it.
pub get_or_create_dataset-Settles :
    {B : Backend} {A : Type 0} (env : Setup) (s : VolumeSettings)
    (zfs_props : Option DatasetOptions) (share_type : Str) (old : Option DatasetInfo)
    (f : Result Code MadeDataset → M B (Result Code A))
    → ((c : Code) → Settles (some []) (f (err c)))
    → ((m : MadeDataset) → Settles (some (made_objects m)) (f (ok m)))
    → Settles (some []) (get_or_create_dataset env s zfs_props share_type old >>= f)
unfolding get_or_create_dataset effect settle pure ◌>>=◌
get_or_create_dataset-Settles env s zfs_props share_type (some d) f fe fo = fo (existing d)
get_or_create_dataset-Settles {B} env s zfs_props share_type none f fe fo =
    Settles-reply (Backend.create_dataset _) made f created
  where
    created :
        (r : Result Err DatasetInfo)
        → Settles {B = B}
            (settle
              (effect
                (did (Backend.create_dataset (dataset_create_params env s zfs_props share_type)) r))
              (some []))
            (f (made r))
    created (err e) = fe _
    created (ok d) = fo (new d)

-- A volume that is already there, an error, or the creation.
pub Settles-existing :
    {B : Backend} {A C : Type 0} (m : M B (Result Code (Option C)))
    (f : Result Code (Option C) → M B (Result Code A))
    → Quiet m
    → ((c : Code) → Settles (some []) (f (err c)))
    → ((a : C) → Settles (some []) (f (ok (some a))))
    → Settles (some []) (f (ok none))
    → Settles (some []) (m >>= f)
Settles-existing {B} m f q fe fs fn = Settles-quiet m f q next
  where
    next : (r : Result Code (Option _)) → Settles {B = B} (some []) (f r)
    next (err c) = fe c
    next (ok (some a)) = fs a
    next (ok none) = fn
