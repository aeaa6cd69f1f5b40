-- ===== src/Retry/Predicates.antt =====
-- pkg/retry/retry.go: the predicates on errors, and the configuration for deletions.
use tns_csi.Common.{
  ◌*◌, Str, str, pos, Option, none, some, Bool, false, ◌||◌, List, [], ◌∷◌, contains, to_lower,
}
use tns_csi.Errors.{
  Err, is, econnrefused, econnreset, epipe, enetunreach, ehostunreach, etimedout, eof,
  unexpected_eof, net_closed,
}
use tns_csi.Retry.{Float64, Config, second}

-- contains(s, substrings...)
unfoldable pub contains_any : Str → List Str → Bool
contains_any s [] = false
contains_any s (sub ∷ subs) = contains s sub || contains_any s subs

abbrev network_fragments : List Str
network_fragments =
    str "connection refused"
    ∷ str "connection reset"
    ∷ str "broken pipe"
    ∷ str "i/o timeout"
    ∷ str "network is unreachable"
    ∷ str "no route to host"
    ∷ str "connection timed out"
    ∷ str "EOF"
    ∷ str "use of closed network connection"
    ∷ []

abbrev is_timeout : Option Bool → Bool
is_timeout none = false
is_timeout (some b) = b

unfoldable pub is_retryable_network_error : Option Err → Bool
unfolding contains_any
is_retryable_network_error none = false
is_retryable_network_error (some e) =
    is_timeout e.net_error
    || (is e econnrefused
        || is e econnreset
        || is e epipe
        || is e enetunreach
        || is e ehostunreach
        || is e etimedout)
    || (is e eof || is e unexpected_eof)
    || is e net_closed
    || contains_any e.text network_fragments

abbrev pub api_fragments : List Str
api_fragments =
    str "500"
    ∷ str "502"
    ∷ str "503"
    ∷ str "504"
    ∷ str "busy"
    ∷ str "temporarily unavailable"
    ∷ str "try again"
    ∷ []

unfoldable pub is_retryable_api_error : Option Err → Bool
unfolding contains_any
is_retryable_api_error none = false
is_retryable_api_error (some e) = contains_any (to_lower e.text) api_fragments

unfoldable pub is_retryable_error : Option Err → Bool
is_retryable_error e = is_retryable_network_error e || is_retryable_api_error e

abbrev pub busy_fragments : List Str
busy_fragments =
    str "dataset is busy"
    ∷ str "target is busy"
    ∷ str "resource busy"
    ∷ str "ebusy"
    ∷ str "ezfs_busy"
    ∷ str "device or resource busy"
    ∷ str "pool is busy"
    ∷ str "filesystem is busy"
    ∷ []

unfoldable pub is_busy_resource_error : Option Err → Bool
unfolding contains_any
is_busy_resource_error none = false
is_busy_resource_error (some e) = contains_any (to_lower e.text) busy_fragments

unfoldable pub is_retryable_deletion_error : Option Err → Bool
is_retryable_deletion_error none = false
is_retryable_deletion_error (some e) =
    is_busy_resource_error (some e)
    || is_retryable_error (some e)
    || contains (to_lower e.text) (str "deletion was not confirmed")

-- DeletionConfig(operationName)
unfoldable pub deletion_config : (R : Float64) → Str → Config R.F
deletion_config R operation_name = record {
  max_attempts = pos 12;
  initial_backoff = pos (5 * second);
  max_backoff = pos (5 * second);
  backoff_multiplier = R.one;
  retryable_func = some is_retryable_deletion_error;
  operation_name = operation_name;
}
