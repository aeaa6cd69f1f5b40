-- ===== src/Naming/Resolved.antt =====
-- What ResolveVolumeName accepts as the name of a volume.
use tns_csi.Common.{
  Str, ◌≡◌, refl, sym, Bool, true, false, ◌&&◌, not, is_empty, Bool-cases, arith, inl, inr, ok, err,
  Result, Map, get, Option, none, some, ◌⊎◌, ◌≢◌, ◌↔◌, [], ◌∷◌,
}
use tns_csi.Naming.{
  VolumeNameContext, NameTemplateConfig, NameError, param_name_template, param_name_prefix,
  param_name_suffix, sanitize_volume_name, matches_valid_name, validate_volume_name, validated,
  sanitized, rendered, unsanitized_name, render_volume_name, parse_name_template_config,
  resolve_volume_name, extract_volume_name_context,
}
use tns_csi.Naming.Sanitized.{Sanitary, sanitize_volume_name-Sanitary}

-- The StorageClass configures how volumes are named.
abbrev pub is_templated : Map Str → Bool
is_templated params = not (
    is_empty (get param_name_template params)
    && is_empty (get param_name_prefix params)
    && is_empty (get param_name_suffix params))

-- The names that a ZFS volume may have, as the driver makes them.
abbrev pub Accepted : Str → Type 0
Accepted name = Sanitary name × (matches_valid_name name ≡ true)

validate_volume_name-none :
    (name : Str) → validate_volume_name name ≡ none → matches_valid_name name ≡ true
unfolding validate_volume_name
validate_volume_name-none [] h = cc
validate_volume_name-none (c ∷ s) h = ground arith

validated_ok : (s name : Str) → validated s ≡ ok name → (s ≡ name) × (matches_valid_name s ≡ true)
validated_ok s name e = ground (arith, validate_volume_name-none s)

sanitized-Accepted : (r : Result NameError Str) (name : Str) → sanitized r ≡ ok name → Accepted name
sanitized-Accepted (err e) name h = cc
sanitized-Accepted (ok s) name h =
    let (p, m) = validated_ok (sanitize_volume_name s) name h in
    rw (sym p) (sanitize_volume_name-Sanitary s, m)

module _ {Template : Type 0} (parse : Str → Result Str Template)
    (execute : Template → VolumeNameContext → Result Str Str) where
  -- A parsed configuration is there exactly if one is given.
  parse_name_template_config-Given :
      (params : Map Str) (config : Option (NameTemplateConfig Template))
      → parse_name_template_config parse params ≡ ok config
      → (config ≡ none) ↔ (is_templated params ≡ false)
  unfolding parse_name_template_config
  parse_name_template_config-Given params config h = ground arith

  rendered-Accepted :
      (ctx : VolumeNameContext) (config : Option (NameTemplateConfig Template)) (name : Str)
      → render_volume_name execute config ctx ≡ ok name
      → ((config ≡ none) × (name ≡ ctx.pv_name)) ⊎ ((config ≢ none) × Accepted name)
  unfolding render_volume_name
  rendered-Accepted ctx none name h = inl (refl, cc)
  rendered-Accepted ctx (some config) name h =
      inr (λ e. cc, sanitized-Accepted (unsanitized_name execute config ctx) name h)

  parsed-Accepted :
      (params : Map Str) (pv_name name : Str)
      (r : Result NameError (Option (NameTemplateConfig Template)))
      → parse_name_template_config parse params ≡ r
      → rendered parse execute (extract_volume_name_context params pv_name) r ≡ ok name
      → ((is_templated params ≡ false) × (name ≡ pv_name))
        ⊎ ((is_templated params ≡ true) × Accepted name)
  parsed-Accepted params pv_name name (err e) p h = cc
  parsed-Accepted params pv_name name (ok config) p h =
      let (given, absent) = parse_name_template_config-Given params config p in
      elim (rendered-Accepted (extract_volume_name_context params pv_name) config name h) [
        | inl (n, e) ↦ inl (given n, e)
        | inr (n, a) ↦ elim (Bool-cases (is_templated params)) [
          | inl t ↦ inr (t, a)
          | inr f ↦ elim (n (absent f)) [ ]
        ]
      ]

  -- If ResolveVolumeName gives a name, then either the StorageClass has no template, no prefix and
  -- no suffix and the name is that of the PersistentVolume, or it has one of them, and the name
  -- matches validNameRegex, has at most 63 bytes and is as sanitizeVolumeName leaves it: without
  -- replaced bytes, hyphens at its start or its end, and two hyphens in a row.
  pub resolve_volume_name-Accepted :
      (params : Map Str) (pv_name name : Str)
      → resolve_volume_name parse execute params pv_name ≡ ok name
      → ((is_templated params ≡ false) × (name ≡ pv_name))
        ⊎ ((is_templated params ≡ true) × Accepted name)
  unfolding resolve_volume_name
  resolve_volume_name-Accepted params pv_name name h =
      parsed-Accepted params pv_name name (parse_name_template_config parse params) refl h
