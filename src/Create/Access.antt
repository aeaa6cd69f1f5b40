-- ===== src/Create/Access.antt =====
-- pkg/driver/controller_nfs_access.go: the hosts and the networks that may use an NFS share.
pub mod Order
use tns_csi.Common.{
  ℕ, Str, str, str_eq, is_empty, has_suffix, contains, get, Map, Option, none, some, Bool, true,
  false, not, ◌&&◌, ◌||◌, ◌==◌, ltb, leb, List, [], ◌∷◌, ◌++◌, ◌-◌, all, any, take, length, Result,
  ok, err, if◌then◌else◌,
}
use tns_csi.Codes.{Code, invalid_argument, failed_precondition}
use tns_csi.Backend.{NfsShare}
use tns_csi.Delete.Datasets.{trim_space, split_comma}
use tns_csi.Create.Request.{Setup}

pub record NfsShareAccess : Type 0 where
  pub hosts : List Str
  pub networks : List Str

abbrev first_to : ℕ → List Str → List Str
first_to c [] = (c ∷ []) ∷ []
first_to c (w ∷ ws) = (c ∷ w) ∷ ws

-- strings.Split(s, "."), for the labels of a host name.
unfoldable split_dot : Str → List Str
split_dot [] = [] ∷ []
split_dot (c ∷ s) = let rest = split_dot s in if c == b'.' then [] ∷ rest else first_to c rest

abbrev is_digit : ℕ → Bool
is_digit c = leb b'0' c && leb c b'9'

abbrev is_label_byte : ℕ → Bool
is_label_byte c =
    (leb b'a' c && leb c b'z') || (leb b'A' c && leb c b'Z') || is_digit c || (c == b'-')

abbrev starts_with_hyphen : Str → Bool
starts_with_hyphen [] = false
starts_with_hyphen (c ∷ s) = c == b'-'

unfoldable is_label : Str → Bool
is_label s =
    not (is_empty s)
    && leb (length s) 63
    && not (starts_with_hyphen s)
    && not (has_suffix s (str "-"))
    && all is_label_byte s

abbrev without_dot : Str → Str
without_dot s = if has_suffix s (str ".") then take (length s - 1) s else s

unfoldable valid_nfs_hostname : Str → Bool
unfolding split_dot is_label
valid_nfs_hostname s =
    let host = without_dot s in
    if is_empty host || ltb 253 (length host)
    then false
    else if contains host (str ".") && all (λ c. (c == b'.') || is_digit c) host
    then false
    else all is_label (split_dot host)

module _ (env : Setup) where
  -- The entry as it is kept.
  abbrev read_entry : Bool → Str → Option Str
  read_entry true value = env.masked_prefix value
  read_entry false value =
      if env.is_address value || valid_nfs_hostname value then some value else none

  -- The loop: `values` are those that were seen.
  unfoldable read_entries : Bool → List Str → List Str → Result Code (List Str)
  read_entries networks [] values = ok values
  read_entries networks (part ∷ parts) values =
      if is_empty (trim_space part)
      then err invalid_argument
      else elim (read_entry networks (trim_space part)) [
        | none ↦ err invalid_argument
        | some value ↦
            read_entries networks parts
              (if any (str_eq value) values then values else (values ++ value ∷ []))
      ]

  unfoldable parse_nfs_access_list : Str → Bool → Result Code (List Str)
  unfolding read_entries
  parse_nfs_access_list raw networks =
      if is_empty raw then ok [] else read_entries networks (split_comma raw) []

  unfoldable pub parse_nfs_share_access : Map Str → Result Code NfsShareAccess
  unfolding parse_nfs_access_list valid_nfs_hostname
  parse_nfs_share_access params = elim (parse_nfs_access_list (get (str "nfsHosts") params) false) [
    | err c ↦ err c
    | ok hosts ↦ elim (parse_nfs_access_list (get (str "nfsNetworks") params) true) [
      | err c ↦ err c
      | ok networks ↦ ok (record { hosts = hosts; networks = networks })
    ]
  ]

-- s <= t, byte by byte.
unfoldable pub str_leb : Str → Str → Bool
str_leb [] t = true
str_leb (a ∷ s) [] = false
str_leb (a ∷ s) (b ∷ t) = if a == b then str_leb s t else ltb a b

unfoldable pub insert_sorted : Str → List Str → List Str
unfolding str_leb
insert_sorted s [] = s ∷ []
insert_sorted s (t ∷ ts) =
    let rest = insert_sorted s ts in if str_leb s t then s ∷ t ∷ ts else t ∷ rest

-- slices.Sort
unfoldable pub sort : List Str → List Str
unfolding insert_sorted
sort [] = []
sort (s ∷ ss) = insert_sorted s (sort ss)

-- slices.Equal
abbrev pub list_eq : List Str → List Str → Bool
list_eq [] [] = true
list_eq [] (_ ∷ _) = false
list_eq (_ ∷ _) [] = false
list_eq (s ∷ ss) (t ∷ ts) = str_eq s t && list_eq ss ts

unfoldable pub same_nfs_access_entries : List Str → List Str → Bool
unfolding sort
same_nfs_access_entries expected actual = list_eq (sort expected) (sort actual)

abbrev is_nil : List Str → Bool
is_nil [] = true
is_nil (_ ∷ _) = false

-- `none` if the existing share may be used.
unfoldable pub check_existing_nfs_share_access : NfsShareAccess → NfsShare → Option Code
check_existing_nfs_share_access access share =
    if is_nil access.hosts && is_nil access.networks
    then none
    else if same_nfs_access_entries access.hosts share.hosts
        && same_nfs_access_entries access.networks share.networks
    then none
    else some failed_precondition
