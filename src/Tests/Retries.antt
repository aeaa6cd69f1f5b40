-- ===== src/Tests/Retries.antt =====
-- The theorems on errors and retries at concrete inputs.
use tns_csi.Retry.Predicates.{
  is_retryable_api_error, is_retryable_network_error, is_retryable_deletion_error,
  is_retryable_error, is_busy_resource_error, deletion_config,
}
use tns_csi.Errors.{
  same, is, Err, errorf, classify, is_not_found, dataset_not_found, max_retries_exceeded,
}
use tns_csi.Common.{
  ℕ, Str, str, ◌≤◌, ◌*◌, suc, true, false, some, List, [], ◌∷◌, Result, ok, err, ◌≡◌, refl, arith,
  contains, to_lower, none, ◌++◌, inl,
}
use tns_csi.Errors.Laws.{classify-errorf}
use tns_csi.Retry.{second, default_config, with_retry, may_retry}
use tns_csi.Retry.Attempts.{
  metered, metered_fn, calm, replay, failures, with_retry_meter, with_retry_succeeds,
  with_retry_exhausts,
}
use tns_csi.Retry.Deletion.{deletion_config_bounds}
use tns_csi.Tests.Server.{failure, whole_numbers}

abbrev missing : Err
missing = record (failure (str "no such dataset")) { chain = dataset_not_found ∷ [] }

abbrev busy : Err
busy = failure (str "Dataset is busy")

abbrev denied : Err
denied = failure (str "permission denied")

missing_found : is_not_found (some missing) ≡ true
unfolding is_not_found is same
missing_found = refl

busy_classified : classify (some busy) (str "EBUSY" ∷ []) (str "dataset is busy" ∷ []) ≡ true
unfolding classify contains to_lower
busy_classified = refl

classify-errorf_example :
    classify
      (some (errorf (str "gave up: ") (max_retries_exceeded ∷ []) busy []))
      (str "EBUSY" ∷ [])
      (str "dataset is busy" ∷ [])
    ≡ true
classify-errorf_example =
    classify-errorf (str "gave up: ") [] (max_retries_exceeded ∷ []) busy (str "EBUSY" ∷ [])
      (str "dataset is busy" ∷ []) busy_classified

busy_resource : is_busy_resource_error (some busy) ≡ true
unfolding is_busy_resource_error contains to_lower
busy_resource = refl

abbrev no_text : List (Result Err Str)
no_text = []

busy_retried : is_retryable_deletion_error (some busy) ≡ true
unfolding is_retryable_deletion_error is_busy_resource_error contains to_lower
busy_retried = refl

denied_refused : is_retryable_deletion_error (some denied) ≡ false
unfolding is_retryable_deletion_error is_busy_resource_error contains to_lower is_retryable_error
    is_retryable_network_error is is_retryable_api_error
denied_refused = refl

with_retry_succeeds_example :
    with_retry whole_numbers calm
      (deletion_config whole_numbers (str "delete-zvol"))
      (replay missing)
      (failures (busy ∷ busy ∷ []) (ok (str "done") ∷ err denied ∷ []))
    ≡ (ok (str "done"), err denied ∷ [])
unfolding deletion_config may_retry
with_retry_succeeds_example =
    with_retry_succeeds whole_numbers (deletion_config whole_numbers (str "delete-zvol")) missing
      (busy ∷ busy ∷ []) (str "done") (err denied ∷ []) 12 (inl (refl, omega arith))
      (busy_retried, (busy_retried, tt)) (omega arith)

with_retry_exhausts_example :
    (e : Err) × (with_retry whole_numbers calm
        (default_config whole_numbers)
        (replay missing)
        (failures (busy ∷ missing ∷ []) (err missing ∷ ok (str "late") ∷ []))
      ≡ (err e, ok (str "late") ∷ []))
    × (e.chain ≡ max_retries_exceeded ∷ dataset_not_found ∷ [])
    × (e.api ≡ none)
    × (e.net_error ≡ none)
    × ((pre : Str) × (e.text ≡ pre ++ str "no such dataset"))
unfolding default_config may_retry
with_retry_exhausts_example =
    with_retry_exhausts whole_numbers (default_config whole_numbers) missing (busy ∷ missing ∷ [])
      missing (ok (str "late") ∷ []) (inl (refl, omega arith)) (refl, (refl, (refl, tt)))

-- A function that counts its calls and fails.
abbrev failing : ℕ → Result Err Str × ℕ
failing n = (err busy, suc n)

with_retry_meter_example :
    let end =
      (with_retry whole_numbers
        (metered calm)
        (default_config whole_numbers)
        (metered_fn failing)
        (record { state = 0; calls = 0; waited = 0 })).1 in
    (end.calls ≤ 3) × (end.waited ≤ 2 * (30 * second))
unfolding default_config
with_retry_meter_example =
    with_retry_meter whole_numbers calm (default_config whole_numbers) failing 0 2 second
      (30 * second) (30 * second) (inl (refl, omega arith)) (inl (refl, omega arith))
      (inl (refl, omega arith)) (omega arith) (omega arith)

deletion_config_bounds_example :
    let end =
      (with_retry whole_numbers
        (metered calm)
        (deletion_config whole_numbers (str "delete-zvol"))
        (metered_fn failing)
        (record { state = 0; calls = 0; waited = 0 })).1 in
    (end.calls ≤ 12) × (end.waited ≤ 55 * second)
deletion_config_bounds_example =
    deletion_config_bounds whole_numbers calm (str "delete-zvol") failing 0
