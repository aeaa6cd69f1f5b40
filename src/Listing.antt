-- ===== src/Listing.antt =====
-- pkg/driver/controller.go: ListVolumes with listManagedVolumes and buildVolumeEntry, from the
-- datasets that FindManagedDatasets returns. The capacity of an entry is left out.
pub mod Pages
use tns_csi.Common.{
  ℕ, Str, str_eq, is_empty, Map, lookup, ℤ, pos, negsuc, Bool, true, false, ◌&&◌, Option, none,
  some, List, [], ◌∷◌, length, take, ltb, Result, ok, err, if◌then◌else◌,
}
use tns_csi.Codes.{Code, aborted}
use tns_csi.Properties.{property_detached_snapshot, property_snapshot_id}
use tns_csi.Backend.{Dataset}
use tns_csi.Volume.{extract_volume_metadata, VolumeMetadata}
use tns_csi.Volume.Context.{build_volume_context}

-- ListVolumesResponse_Entry: the volume's ID and its context.
abbrev pub Entry : Type 0
Entry = Str × Map Str

abbrev pub entry_id : Entry → Str
entry_id (id, context) = id

abbrev is_true : Option Str → Bool
is_true none = false
is_true (some v) = str_eq v (b't' ∷ b'r' ∷ b'u' ∷ b'e' ∷ [])

abbrev is_present : Option Str → Bool
is_present none = false
is_present (some v) = true

-- Detached snapshots and snapshots are no volumes.
is_snapshot : Option (Map Str) → Bool
is_snapshot none = false
is_snapshot (some props) =
    if is_true (lookup property_detached_snapshot props)
    then true
    else is_present (lookup property_snapshot_id props)

abbrev add_entry : Dataset → Option VolumeMetadata → List Entry → List Entry
add_entry d none entries = entries
add_entry d (some meta) entries = (d.id, build_volume_context meta) ∷ entries

unfoldable pub list_managed_volumes : List Dataset → List Entry
unfolding is_snapshot
list_managed_volumes [] = []
list_managed_volumes (d ∷ ds) =
    let rest = list_managed_volumes ds in
    if is_snapshot d.user_properties
    then rest
    else add_entry d (extract_volume_metadata d.id d) rest

-- entries[startIdx:], where the token is the ID of the entry before.
unfoldable pub after_token : Str → List Entry → Option (List Entry)
after_token token [] = none
after_token token (e ∷ entries) =
    if str_eq (entry_id e) token then some entries else after_token token entries

-- A limit of zero is none.
abbrev pub limit_of : ℤ → ℕ
limit_of (pos n) = n
limit_of (negsuc n) = 0

abbrev pub last_id : List Entry → Str
last_id [] = []
last_id (e ∷ []) = entry_id e
last_id (e ∷ f ∷ entries) = last_id (f ∷ entries)

-- The page and the token of the next one.
unfoldable pub cut_page : ℕ → List Entry → List Entry × Str
cut_page limit rest =
    if ltb 0 limit && ltb limit (length rest)
    then (take limit rest, last_id (take limit rest))
    else (rest, [])

from_start : ℕ → Option (List Entry) → Result Code (List Entry × Str)
from_start limit none = err aborted
from_start limit (some rest) = ok (cut_page limit rest)

unfoldable pub list_volumes : List Entry → ℤ → Str → Result Code (List Entry × Str)
unfolding from_start
list_volumes entries max_entries starting_token =
    if is_empty starting_token
    then ok (cut_page (limit_of max_entries) entries)
    else from_start (limit_of max_entries) (after_token starting_token entries)
