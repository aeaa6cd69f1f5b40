-- ===== src/Naming/Collapse.antt =====
-- The loop of sanitizeVolumeName (pkg/driver/template.go) that collapses hyphens, as rounds that go on
-- while there are two hyphens in a row.
use tns_csi.Common.{
  ℕ, zero, suc, ◌≤◌, ◌<◌, Str, contains, has_prefix, ◌≡◌, refl, Bool-cases, true, false, [], ◌∷◌,
  length, arith, inl, inr,
}
use tns_csi.Naming.{halve_hyphens, collapse_hyphens, double_hyphen}

-- `for strings.Contains(name, "--")`, from a name to the name after the loop, with its rounds.
pub data Rounds : ℕ → Str → Str → Type 0 where
  stops : (s : Str) → contains s double_hyphen ≡ false → Rounds 0 s s
  goes_on :
      (n : ℕ) (s t : Str)
      → contains s double_hyphen ≡ true
      → Rounds n (halve_hyphens s) t
      → Rounds (suc n) s t

length-halve_hyphens : (s : Str) → length (halve_hyphens s) ≤ length s
unfolding halve_hyphens
length-halve_hyphens [] = omega arith
length-halve_hyphens (a ∷ []) = omega arith
length-halve_hyphens (a ∷ b ∷ s) =
    ground (arith, length-halve_hyphens s, length-halve_hyphens (b ∷ s))

halve_hyphens_shrinks :
    (s : Str) → contains s double_hyphen ≡ true → length (halve_hyphens s) < length s
unfolding halve_hyphens contains has_prefix
halve_hyphens_shrinks [] h = cc
halve_hyphens_shrinks (a ∷ []) h = ground arith
halve_hyphens_shrinks (a ∷ b ∷ s) h =
    ground (arith, length-halve_hyphens s, halve_hyphens_shrinks (b ∷ s))

pub collapse_hyphens-contains :
    (n : ℕ) (s : Str) → length s ≤ n → contains (collapse_hyphens n s) double_hyphen ≡ false
unfolding collapse_hyphens contains has_prefix
collapse_hyphens-contains zero [] h = refl
collapse_hyphens-contains zero (c ∷ s) h = ground arith
collapse_hyphens-contains (suc n) s h = elim (Bool-cases (contains s double_hyphen)) [
  | inl e ↦
      rw e
        (collapse_hyphens-contains n (halve_hyphens s) (omega (arith, halve_hyphens_shrinks s e)))
  | inr e ↦ rw e e
]

ends_on_fuel :
    (n : ℕ) (s : Str) → length s ≤ n → (k : ℕ) × (k ≤ length s) × Rounds k s (collapse_hyphens n s)
unfolding collapse_hyphens contains has_prefix
ends_on_fuel zero [] h = (0, omega arith, stops [] refl)
ends_on_fuel zero (c ∷ s) h = absurd (omega arith)
ends_on_fuel (suc n) s h = elim (Bool-cases (contains s double_hyphen)) [
  | inl e ↦
      let shorter = halve_hyphens_shrinks s e in
      let (k, few, run) = ends_on_fuel n (halve_hyphens s) (omega arith) in
      (suc k, omega arith, goes_on k s _ e (rw e run))
  | inr e ↦ (0, omega arith, rw e (stops s e))
]

-- The loop of sanitizeVolumeName that collapses hyphens terminates on every text, within as many
-- rounds as the text has bytes: its rounds end in the text that the model computes, with two hyphens
-- in a row in every text that a round starts from and none in the last.
pub collapse_hyphens-Rounds :
    (s : Str) → (k : ℕ) × (k ≤ length s) × Rounds k s (collapse_hyphens (length s) s)
collapse_hyphens-Rounds s = ends_on_fuel (length s) s (omega arith)
