-- ===== src/Tests/Names.antt =====
-- Volume names at concrete values, with templates that are texts to be taken as they are.
use tns_csi.Common.{
  Str, str, Map, get, lookup, str_eq, contains, has_prefix, has_suffix, trim_right, true, false, [],
  ◌∷◌, ok, Result, ◌≡◌, refl, arith, ◌⊎◌, ℕ, ◌≤◌, length,
}
use tns_csi.Naming.{
  VolumeNameContext, sanitize_volume_name, trim_left_hyphens, halve_hyphens, collapse_hyphens,
  truncate_name, validate_volume_name, parse_name_template_config, render_volume_name,
  resolve_volume_name,
}
use tns_csi.Naming.Collapse.{Rounds, collapse_hyphens-Rounds}
use tns_csi.Naming.Sanitized.{
  Sanitary, sanitize_volume_name-Sanitary, sanitize_volume_name_of_Sanitary,
}
use tns_csi.Naming.Resolved.{Accepted, is_templated, resolve_volume_name-Accepted}

abbrev parse_text : Str → Result Str Str
parse_text source = ok source

abbrev execute_text : Str → VolumeNameContext → Result Str Str
execute_text source ctx = ok source

abbrev prefixed : Map Str
prefixed = (str "namePrefix", str "prod/--") ∷ []

sanitized_text : sanitize_volume_name (str "--prod///a---b- ") ≡ str "prod-a-b"
unfolding sanitize_volume_name trim_left_hyphens halve_hyphens collapse_hyphens truncate_name
    trim_right contains has_prefix
sanitized_text = refl

resolved :
    resolve_volume_name parse_text execute_text prefixed (str "pvc-1") ≡ ok (str "prod-pvc-1")
unfolding resolve_volume_name parse_name_template_config render_volume_name validate_volume_name get
    lookup str_eq sanitize_volume_name trim_left_hyphens halve_hyphens collapse_hyphens
    truncate_name trim_right contains has_prefix
resolved = refl

resolve_volume_name-Accepted_example :
    ((is_templated prefixed ≡ false) × (str "prod-pvc-1" ≡ str "pvc-1"))
    ⊎ ((is_templated prefixed ≡ true) × Accepted (str "prod-pvc-1"))
resolve_volume_name-Accepted_example =
    resolve_volume_name-Accepted parse_text execute_text prefixed (str "pvc-1") (str "prod-pvc-1")
      resolved

sanitize_volume_name-Sanitary_example : Sanitary (sanitize_volume_name (str "--prod///a---b- "))
sanitize_volume_name-Sanitary_example = sanitize_volume_name-Sanitary (str "--prod///a---b- ")

short_name_Sanitary : Sanitary (str "pvc-1")
unfolding contains has_prefix has_suffix str_eq
short_name_Sanitary = (((refl, (refl, (refl, (refl, (refl, tt))))), refl, refl), refl, omega arith)

sanitize_volume_name_of_Sanitary_example : sanitize_volume_name (str "pvc-1") ≡ str "pvc-1"
sanitize_volume_name_of_Sanitary_example =
    sanitize_volume_name_of_Sanitary (str "pvc-1") short_name_Sanitary

collapse_hyphens-Rounds_example :
    (k : ℕ) × (k ≤ 6)
    × Rounds k (str "a----b") (collapse_hyphens (length (str "a----b")) (str "a----b"))
collapse_hyphens-Rounds_example = collapse_hyphens-Rounds (str "a----b")
