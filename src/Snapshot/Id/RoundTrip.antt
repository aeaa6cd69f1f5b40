-- ===== src/Snapshot/Id/RoundTrip.antt =====
-- Decoding inverts encoding, and encoding inverts decoding.
use tns_csi.Common.{
  Str, str_eq, str_eq_iff, has_prefix, trim_prefix, cut, cut_last, cut_last_of_Lacks,
  append-trim_prefix, cut-append, cut_last-append, cut-split, cut_last-split, Lacks-of_cut_last,
  Lacks, Bool, true, false, ◌++◌, [], ◌∷◌, is_empty, pos, Result, ok, err, if◌then◌else◌, ◌≡◌, refl,
  sym, ap, ◌∙◌, arith, inl, inr, Bool-cases, Option-cases,
}
use tns_csi.Properties.{protocol_nfs, protocol_nvmeof, protocol_iscsi, protocol_smb}
use tns_csi.Snapshot.Id.{
  SnapshotMetadata, detached_snapshot_prefix, IdError, short_name, base_id, encode_snapshot_id,
  is_protocol, decode_parts, decode_protocol, decode_compact_snapshot_id, as_detached,
  decode_snapshot_id,
}

-- What survives in an ID: the protocol, the volume, the short name and the mark.
abbrev pub canonical : SnapshotMetadata → SnapshotMetadata
canonical m = record m {
  snapshot_name = short_name m.snapshot_name;
  dataset_name = [];
  created_at = pos 0;
}

pub short_name-Lacks : (s : Str) → Lacks b'@' (short_name s)
unfolding short_name
short_name-Lacks s = elim (Option-cases (cut_last b'@' s)) [
  | inl e ↦ rw (e, short_name) (Lacks-of_cut_last b'@' s e)
  | inr ((l, r), e) ↦ rw (e, short_name) (cut_last-split b'@' s l r e).1
]

-- To show something of a protocol, show it of the four names.
protocol_elim :
    (P : Str → Type 0)
    → P protocol_nfs
    → P protocol_nvmeof
    → P protocol_iscsi
    → P protocol_smb
    → (p : Str) → is_protocol p ≡ true
    → P p
unfolding is_protocol
protocol_elim P nfs nvmeof iscsi smb p h = elim (Bool-cases (str_eq p protocol_nfs)) [
  | inl e ↦ rw ((str_eq_iff p protocol_nfs).0 e) nfs
  | inr e₁ ↦ elim (Bool-cases (str_eq p protocol_nvmeof)) [
    | inl e ↦ rw ((str_eq_iff p protocol_nvmeof).0 e) nvmeof
    | inr e₂ ↦ elim (Bool-cases (str_eq p protocol_iscsi)) [
      | inl e ↦ rw ((str_eq_iff p protocol_iscsi).0 e) iscsi
      | inr e₃ ↦ elim (Bool-cases (str_eq p protocol_smb)) [
        | inl e ↦ rw ((str_eq_iff p protocol_smb).0 e) smb
        | inr e₄ ↦ cc (rw (e₁, e₂, e₃, e₄) at h)
      ]
    ]
  ]
]

protocol_Lacks : (p : Str) → is_protocol p ≡ true → Lacks b':' p
protocol_Lacks =
    protocol_elim (λ p. Lacks b':' p) (omega arith) (omega arith) (omega arith) (omega arith)

-- The ID of a snapshot that is not detached never reads as that of a detached one.
not_detached :
    (p rest : Str) → is_protocol p ≡ true → has_prefix (p ++ rest) detached_snapshot_prefix ≡ false
unfolding has_prefix
not_detached p rest =
    protocol_elim (λ p. has_prefix (p ++ rest) detached_snapshot_prefix ≡ false) refl refl refl refl
      p

pub decode_compact-base_id :
    (p v n : Str)
    → is_protocol p ≡ true
    → is_empty v ≡ false
    → is_empty n ≡ false
    → Lacks b'@' n
    → decode_compact_snapshot_id (base_id p v n)
      ≡ ok (record {
        snapshot_name = n;
        source_volume = v;
        dataset_name = [];
        protocol = p;
        created_at = pos 0;
        detached = false;
      })
unfolding decode_compact_snapshot_id
decode_compact-base_id p v n hp hv hn lacks =
    rw (cut-append b':' p (v ++ b'@' ∷ n) (protocol_Lacks p hp))
      (rw hp (rw (cut_last-append b'@' v n lacks) (rw (hv, hn))))

trim_detached :
    (id : Str) → trim_prefix (detached_snapshot_prefix ++ id) detached_snapshot_prefix ≡ id
unfolding trim_prefix
trim_detached id = refl

has_prefix_detached :
    (id : Str) → has_prefix (detached_snapshot_prefix ++ id) detached_snapshot_prefix ≡ true
unfolding has_prefix
has_prefix_detached id = refl

abbrev marked : Bool → Str → Str
marked d id = if d then detached_snapshot_prefix ++ id else id

decode-marked :
    (d : Bool) (p v n : Str)
    → is_protocol p ≡ true
    → is_empty v ≡ false
    → is_empty n ≡ false
    → Lacks b'@' n
    → decode_snapshot_id (marked d (base_id p v n))
      ≡ ok (record {
        snapshot_name = n;
        source_volume = v;
        dataset_name = [];
        protocol = p;
        created_at = pos 0;
        detached = d;
      })
unfolding decode_snapshot_id
decode-marked true p v n hp hv hn lacks =
    rw (has_prefix_detached (base_id p v n))
      (rw (trim_detached (base_id p v n)) (rw (decode_compact-base_id p v n hp hv hn lacks)))
decode-marked false p v n hp hv hn lacks =
    rw (not_detached p (b':' ∷ (v ++ b'@' ∷ n)) hp) (decode_compact-base_id p v n hp hv hn lacks)

encode_parts :
    (m : SnapshotMetadata) (id : Str)
    → encode_snapshot_id m ≡ ok id
    → (is_empty m.source_volume ≡ false)
      × (is_empty (short_name m.snapshot_name) ≡ false)
      × (id ≡ marked m.detached (base_id m.protocol m.source_volume (short_name m.snapshot_name)))
unfolding encode_snapshot_id
encode_parts m id h = ground arith

-- An ID that was encoded with one of the four protocols decodes to the protocol, the volume, the
-- part of the snapshot's name after its last '@', and the mark of a detached snapshot.
pub decode-encode_snapshot_id :
    (m : SnapshotMetadata) (id : Str)
    → is_protocol m.protocol ≡ true
    → encode_snapshot_id m ≡ ok id
    → decode_snapshot_id id ≡ ok (canonical m)
decode-encode_snapshot_id m id hp h =
    let (hv, hn, e) = encode_parts m id h in
    rw e (
      decode-marked m.detached m.protocol m.source_volume (short_name m.snapshot_name) hp hv hn
        (short_name-Lacks m.snapshot_name))

short_name_of_Lacks : (n : Str) → Lacks b'@' n → short_name n ≡ n
unfolding short_name
short_name_of_Lacks n h = rw (cut_last_of_Lacks b'@' n h, short_name)

-- What a decoded ID is made of.
record IsBase (id : Str) (m : SnapshotMetadata) : Type 0 where
  known : is_protocol m.protocol ≡ true
  volume : is_empty m.source_volume ≡ false
  name : is_empty m.snapshot_name ≡ false
  lacks : Lacks b'@' m.snapshot_name
  whole : id ≡ base_id m.protocol m.source_volume m.snapshot_name
  plain : m.detached ≡ false

decode_parts-IsBase :
    (p rest id : Str) (m : SnapshotMetadata)
    → is_protocol p ≡ true
    → id ≡ p ++ b':' ∷ rest
    → decode_parts p (cut_last b'@' rest) ≡ ok m
    → IsBase id m
unfolding decode_parts
decode_parts-IsBase p rest id m hp whole h = elim (Option-cases (cut_last b'@' rest)) [
  | inl e ↦ cc (rw e at h)
  | inr ((l, r), e) ↦ ground (arith, cut_last-split b'@' rest l r e)
]

decode_compact-IsBase :
    (id : Str) (m : SnapshotMetadata) → decode_compact_snapshot_id id ≡ ok m → IsBase id m
unfolding decode_compact_snapshot_id decode_protocol
decode_compact-IsBase id m h = elim (Option-cases (cut b':' id)) [
  | inl e ↦ cc (rw e at h)
  | inr ((p, rest), e) ↦ elim (Bool-cases (is_protocol p)) [
    | inl hp ↦
        decode_parts-IsBase p rest id m hp (cut-split b':' id p rest e).0 (rw hp at (rw e at h))
    | inr no_p ↦ cc (rw no_p at (rw e at h))
  ]
]

is_empty_of_protocol : (p : Str) → is_protocol p ≡ true → is_empty p ≡ false
is_empty_of_protocol = protocol_elim (λ p. is_empty p ≡ false) refl refl refl refl

encode-IsBase :
    (d : Bool) (id : Str) (m : SnapshotMetadata)
    → IsBase id m
    → encode_snapshot_id (record m { detached = d }) ≡ ok (marked d id)
unfolding encode_snapshot_id
encode-IsBase d id m b =
    rw
      (
        is_empty_of_protocol m.protocol b.known,
        b.volume,
        short_name_of_Lacks m.snapshot_name b.lacks,
      )
      (rw b.name (rw (← b.whole) (ground arith)))

undo_as_detached :
    (r : Result IdError SnapshotMetadata) (m : SnapshotMetadata)
    → as_detached r ≡ ok m
    → (m' : SnapshotMetadata) × (r ≡ ok m') × (m ≡ record m' { detached = true })
undo_as_detached (err e) m h = cc
undo_as_detached (ok m') m h = (m', refl, ground arith)

unmarked : (m : SnapshotMetadata) → m.detached ≡ false → m ≡ record m { detached = false }
unmarked m h = ground arith

-- Whatever ID decodes to some metadata is the ID that the metadata encodes to.
pub encode-decode_snapshot_id :
    (id : Str) (m : SnapshotMetadata) → decode_snapshot_id id ≡ ok m → encode_snapshot_id m ≡ ok id
unfolding decode_snapshot_id
encode-decode_snapshot_id id m h = elim (Bool-cases (has_prefix id detached_snapshot_prefix)) [
  | inl detached ↦
      let rest = trim_prefix id detached_snapshot_prefix in
      let (m', e, same) = undo_as_detached (decode_compact_snapshot_id rest) m (rw detached at h) in
      rw same (
        encode-IsBase true rest m' (decode_compact-IsBase rest m' e)
        ∙ ap ok (sym (append-trim_prefix id detached_snapshot_prefix detached)))
  | inr plain ↦
      let b = decode_compact-IsBase id m (rw plain at h) in
      ap encode_snapshot_id (unmarked m b.plain) ∙ encode-IsBase false id m b
]
