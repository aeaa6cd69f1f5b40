-- ===== src/Create/Access/Order.antt =====
-- sameNFSAccessEntries (pkg/driver/controller_nfs_access.go): the sorting of the entries forgets their
-- order and nothing else.
use mathlib.Core.List.{Perm, foldr}
use mathlib.Core.List.Perm
use tns_csi.Common.{
  Str, str_eq_iff, ◌≡◌, refl, sym, ap, ◌↔◌, true, false, [], ◌∷◌, List, Bool-cases, arith, inl, inr,
  ◌∙◌,
}
use tns_csi.Create.Access.{str_leb, insert_sorted, sort, list_eq, same_nfs_access_entries}

str_leb_total : (s t : Str) → str_leb s t ≡ false → str_leb t s ≡ true
unfolding str_leb
str_leb_total [] t h = cc
str_leb_total (a ∷ s) [] h = refl
str_leb_total (a ∷ s) (b ∷ t) h = ground (arith, str_leb_total s t)

str_leb_antisym : (s t : Str) → str_leb s t ≡ true → str_leb t s ≡ true → s ≡ t
unfolding str_leb
str_leb_antisym [] [] h k = refl
str_leb_antisym [] (b ∷ t) h k = cc
str_leb_antisym (a ∷ s) [] h k = cc
str_leb_antisym (a ∷ s) (b ∷ t) h k = ground (arith, str_leb_antisym s t)

str_leb_trans : (r s t : Str) → str_leb r s ≡ true → str_leb s t ≡ true → str_leb r t ≡ true
unfolding str_leb
str_leb_trans [] s t h k = refl
str_leb_trans (a ∷ r) [] t h k = cc
str_leb_trans (a ∷ r) (b ∷ s) [] h k = cc
str_leb_trans (a ∷ r) (b ∷ s) (c ∷ t) h k = ground (arith, str_leb_trans r s t)

insert_sorted_comm :
    (s t : Str) (us : List Str)
    → insert_sorted s (insert_sorted t us) ≡ insert_sorted t (insert_sorted s us)
unfolding insert_sorted
insert_sorted_comm s t [] =
    ground (arith, str_leb_total s t, str_leb_total t s, str_leb_antisym s t)
insert_sorted_comm s t (u ∷ us) = ground (
  arith,
  insert_sorted_comm s t us,
  str_leb_total s t,
  str_leb_total t s,
  str_leb_antisym s t,
  str_leb_total s u,
  str_leb_total t u,
  str_leb_total u s,
  str_leb_total u t,
  str_leb_trans s t u,
  str_leb_trans t s u,
)

sort-foldr : (ss : List Str) → sort ss ≡ foldr insert_sorted [] ss
unfolding sort
sort-foldr [] = refl
sort-foldr (s ∷ ss) = ap (insert_sorted s) (sort-foldr ss)

insert_sorted-perm : (s : Str) (ts : List Str) → Perm (insert_sorted s ts) (s ∷ ts)
unfolding insert_sorted
insert_sorted-perm s [] = Perm.rfl
insert_sorted-perm s (t ∷ ts) = elim (Bool-cases (str_leb s t)) [
  | inl e ↦ rw e Perm.rfl
  | inr e ↦ rw e (Perm.trans (Perm.cons t (insert_sorted-perm s ts)) (Perm.swap s t ts))
]

sort-perm : (ss : List Str) → Perm (sort ss) ss
unfolding sort
sort-perm [] = Perm.rfl
sort-perm (s ∷ ss) = Perm.trans (insert_sorted-perm s (sort ss)) (Perm.cons s (sort-perm ss))

list_eq_iff : (ss ts : List Str) → (list_eq ss ts ≡ true) ↔ (ss ≡ ts)
list_eq_iff [] [] = (λ _. refl, λ _. refl)
list_eq_iff [] (_ ∷ _) = (λ h. cc, λ h. cc)
list_eq_iff (_ ∷ _) [] = (λ h. cc, λ h. cc)
list_eq_iff (s ∷ ss) (t ∷ ts) = ground (arith, str_eq_iff s t, list_eq_iff ss ts)

texts_set : IsSet (List Str)
texts_set = hlevel

sort_of_perm : {ss ts : List Str} → Perm ss ts → sort ss ≡ sort ts
sort_of_perm {ss} {ts} p =
    sort-foldr ss
    ∙ Perm.foldr-eq texts_set insert_sorted insert_sorted_comm p []
    ∙ sym (sort-foldr ts)

-- sameNFSAccessEntries accepts two lists of entries exactly if one is a rearrangement of the other.
pub same_nfs_access_entries-perm :
    (expected actual : List Str)
    → (same_nfs_access_entries expected actual ≡ true) ↔ Perm expected actual
unfolding same_nfs_access_entries
same_nfs_access_entries-perm expected actual = (
  λ h.
      let equal = (list_eq_iff (sort expected) (sort actual)).0 h in
      Perm.trans (Perm.symm (sort-perm expected)) (rw equal (sort-perm actual)),
  λ p. (list_eq_iff (sort expected) (sort actual)).1 (sort_of_perm p),
)
