-- ===== src/Naming.antt =====
-- pkg/driver/template.go: the name of a volume from the parameters of its StorageClass. The package
-- text/template is a parameter: how it parses a template and executes it in a context.
pub mod Collapse
pub mod Sanitized
pub mod Resolved
use tns_csi.Common.{
  ℕ, zero, suc, Str, str, contains, has_prefix, trim_right, is_empty, Map, get, Bool, true, false,
  ◌&&◌, ◌||◌, not, Option, none, some, List, [], ◌∷◌, ◌++◌, map, length, take, any, all, ltb, leb,
  ◌==◌, Result, ok, err, if◌then◌else◌,
}

abbrev csi_pvc_name : Str
csi_pvc_name = str "csi.storage.k8s.io/pvc/name"

abbrev csi_pvc_namespace : Str
csi_pvc_namespace = str "csi.storage.k8s.io/pvc/namespace"

abbrev pub param_name_template : Str
param_name_template = str "nameTemplate"

abbrev pub param_name_prefix : Str
param_name_prefix = str "namePrefix"

abbrev pub param_name_suffix : Str
param_name_suffix = str "nameSuffix"

abbrev pub param_comment_template : Str
param_comment_template = str "commentTemplate"

pub record VolumeNameContext : Type 0 where
  pub pvc_name : Str
  pub pvc_namespace : Str
  pub pv_name : Str

-- The sentinels of the file, and the errors of text/template that it wraps.
pub data NameError : Type 0 where
  volume_name_empty volume_name_invalid : NameError
  invalid_template failed_template : Str → NameError

pub record NameTemplateConfig (Template : Type 0) : Type 0 where
  pub template : Option Template
  pub prefix : Str
  pub suffix : Str

abbrev pub extract_volume_name_context : Map Str → Str → VolumeNameContext
extract_volume_name_context params pv_name = record {
  pvc_name = get csi_pvc_name params;
  pvc_namespace = get csi_pvc_namespace params;
  pv_name = pv_name;
}

-- The bytes that the replacer of sanitizeVolumeName replaces.
abbrev pub invalid_characters : Str
invalid_characters = str "/\\ @#$%^&*()+=[]{}|;'\"<>,?`~"

abbrev pub is_invalid : ℕ → Bool
is_invalid c = any (λ x. c == x) invalid_characters

abbrev pub replace_byte : ℕ → ℕ
replace_byte c = if is_invalid c then b'-' else c

-- strings.TrimLeft(name, "-")
unfoldable pub trim_left_hyphens : Str → Str
trim_left_hyphens [] = []
trim_left_hyphens (c ∷ s) = let rest = trim_left_hyphens s in if c == b'-' then rest else c ∷ s

abbrev pub double_hyphen : Str
double_hyphen = b'-' ∷ b'-' ∷ []

-- strings.ReplaceAll(name, "--", "-")
unfoldable pub halve_hyphens : Str → Str
halve_hyphens [] = []
halve_hyphens (a ∷ []) = a ∷ []
halve_hyphens (a ∷ b ∷ s) =
    let matched = halve_hyphens s in
    let rest = halve_hyphens (b ∷ s) in
    if (a == b'-') && (b == b'-') then b'-' ∷ matched else a ∷ rest

-- The loop that collapses hyphens, on fuel.
unfoldable pub collapse_hyphens : ℕ → Str → Str
collapse_hyphens zero s = s
collapse_hyphens (suc n) s =
    let rest = collapse_hyphens n (halve_hyphens s) in if contains s double_hyphen then rest else s

abbrev pub max_name_length : ℕ
max_name_length = 63

unfoldable pub truncate_name : Str → Str
truncate_name s =
    if ltb max_name_length (length s) then trim_right b'-' (take max_name_length s) else s

unfoldable pub sanitize_volume_name : Str → Str
sanitize_volume_name name =
    let trimmed = trim_left_hyphens (map replace_byte name) in
    truncate_name (trim_right b'-' (collapse_hyphens (length trimmed) trimmed))

-- [a-zA-Z0-9]
abbrev pub is_alphanumeric : ℕ → Bool
is_alphanumeric c =
    (leb b'a' c && leb c b'z') || (leb b'A' c && leb c b'Z') || (leb b'0' c && leb c b'9')

-- [a-zA-Z0-9._:-]
abbrev pub is_name_byte : ℕ → Bool
is_name_byte c = is_alphanumeric c || (c == b'.') || (c == b'_') || (c == b':') || (c == b'-')

-- validNameRegex
abbrev pub matches_valid_name : Str → Bool
matches_valid_name [] = false
matches_valid_name (c ∷ s) = is_alphanumeric c && all is_name_byte s

unfoldable pub validate_volume_name : Str → Option NameError
validate_volume_name name =
    if is_empty name
    then some volume_name_empty
    else if matches_valid_name name
    then none
    else some volume_name_invalid

module _ {Template : Type 0} (parse : Str → Result Str Template) where
  unfoldable pub parse_name_template_config :
      Map Str → Result NameError (Option (NameTemplateConfig Template))
  parse_name_template_config params =
      let source = get param_name_template params in
      let prefix = get param_name_prefix params in
      let suffix = get param_name_suffix params in
      if is_empty source && is_empty prefix && is_empty suffix
      then ok none
      else if is_empty source
      then ok (some (record { template = none; prefix = prefix; suffix = suffix }))
      else elim (parse source) [
        | err e ↦ err (invalid_template e)
        | ok t ↦ ok (some (record { template = some t; prefix = prefix; suffix = suffix }))
      ]

abbrev validated : Str → Result NameError Str
validated name = elim (validate_volume_name name) [ some e ↦ err e | none ↦ ok name ]

-- The rest of renderVolumeName, after the template or the prefix and the suffix.
abbrev sanitized : Result NameError Str → Result NameError Str
sanitized (err e) = err e
sanitized (ok name) = validated (sanitize_volume_name name)

module _ {Template : Type 0} (execute : Template → VolumeNameContext → Result Str Str) where
  abbrev unsanitized_name : NameTemplateConfig Template → VolumeNameContext → Result NameError Str
  unsanitized_name config ctx = elim config.template [
    | none ↦ ok (config.prefix ++ ctx.pv_name ++ config.suffix)
    | some t ↦ elim (execute t ctx) [ err e ↦ err (failed_template e) | ok name ↦ ok name ]
  ]

  unfoldable pub render_volume_name :
      Option (NameTemplateConfig Template) → VolumeNameContext → Result NameError Str
  render_volume_name none ctx = ok ctx.pv_name
  render_volume_name (some config) ctx = sanitized (unsanitized_name config ctx)

module _ {Template : Type 0} (parse : Str → Result Str Template)
    (execute : Template → VolumeNameContext → Result Str Str) where
  abbrev rendered :
      VolumeNameContext
      → Result NameError (Option (NameTemplateConfig Template))
      → Result NameError Str
  rendered ctx (err e) = err e
  rendered ctx (ok config) = render_volume_name execute config ctx

  unfoldable pub resolve_volume_name : Map Str → Str → Result NameError Str
  resolve_volume_name params pv_name =
      rendered (extract_volume_name_context params pv_name)
        (parse_name_template_config parse params)

  abbrev executed : Result Str Str → Result NameError Str
  executed (err e) = err (failed_template e)
  executed (ok comment) = ok comment

  unfoldable pub resolve_comment : Map Str → Str → Result NameError Str
  resolve_comment params pv_name =
      let source = get param_comment_template params in
      if is_empty source then ok [] else elim (parse source) [
        | err e ↦ err (invalid_template e)
        | ok t ↦ executed (execute t (extract_volume_name_context params pv_name))
      ]
