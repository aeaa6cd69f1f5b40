-- ===== src/Errors.antt =====
-- pkg/tnsapi/errors.go: Go's `error` values as the driver inspects them, and the classifiers of
-- TrueNAS API errors. A nil error is `none`.
pub mod Laws
use tns_csi.Common.{
  ℕ, ◌==◌, Str, str, str_eq, contains, to_lower, Option, none, some, Bool, true, false, ◌||◌, List,
  [], ◌∷◌, ◌++◌, any, if◌then◌else◌,
}

-- The error values that `errors.Is` looks for in a chain.
pub data Sentinel : Type 0 where
  dataset_not_found max_retries_exceeded : Sentinel
  econnrefused econnreset epipe enetunreach ehostunreach etimedout : Sentinel
  eof unexpected_eof net_closed : Sentinel

-- The fields of `Error` and `ErrorData` (pkg/tnsapi/client.go) that the classifiers read.
pub record ErrorData : Type 0 where
  pub error_name : Str

pub record ApiError : Type 0 where
  pub error_name : Str
  pub data_ : Option ErrorData

-- What can be seen of an error: its text, the sentinels in its chain, the first *Error in the
-- chain, and the first net.Error in it with the answer of its Timeout method.
pub record Err : Type 0 where
  pub text : Str
  pub chain : List Sentinel
  pub api : Option ApiError
  pub net_error : Option Bool

-- fmt.Errorf("pre %w post", err), where the format has the sentinels `extra` under %w too.
abbrev pub errorf : Str → List Sentinel → Err → Str → Err
errorf pre extra e post = record {
  text = pre ++ e.text ++ post;
  chain = extra ++ e.chain;
  api = e.api;
  net_error = e.net_error;
}

tag : Sentinel → ℕ
tag dataset_not_found = 0
tag max_retries_exceeded = 1
tag econnrefused = 2
tag econnreset = 3
tag epipe = 4
tag enetunreach = 5
tag ehostunreach = 6
tag etimedout = 7
tag eof = 8
tag unexpected_eof = 9
tag net_closed = 10

unfoldable pub same : Sentinel → Sentinel → Bool
unfolding tag
same a b = tag a == tag b

-- errors.Is(err, sentinel)
unfoldable pub is : Err → Sentinel → Bool
is e s = any (same s) e.chain

-- `if name != "" { names = append(names, name) }`
abbrev non_empty : Str → List Str
non_empty [] = []
non_empty (c ∷ s) = (c ∷ s) ∷ []

data_names : Option ErrorData → List Str
data_names none = []
data_names (some d) = non_empty d.error_name

api_names : Option ApiError → List Str
unfolding data_names
api_names none = []
api_names (some a) = non_empty a.error_name ++ data_names a.data_

unfoldable pub err_names : Err → List Str
unfolding api_names
err_names e = api_names e.api

unfoldable pub classify : Option Err → List Str → List Str → Bool
unfolding err_names
classify none names fragments = false
classify (some e) names fragments =
    any (λ n. any (str_eq n) names) (err_names e)
    || any (λ f. contains (to_lower e.text) (to_lower f)) fragments

abbrev not_found_fragments : List Str
not_found_fragments = str "not found" ∷ str "does not exist" ∷ str "ENOENT" ∷ []

unfoldable pub is_not_found : Option Err → Bool
is_not_found none = classify none (str "ENOENT" ∷ []) not_found_fragments
is_not_found (some e) =
    if is e dataset_not_found
    then true
    else classify (some e) (str "ENOENT" ∷ []) not_found_fragments

unfoldable pub is_already_exists : Option Err → Bool
is_already_exists e = classify e (str "EEXIST" ∷ []) (str "already exists" ∷ [])

abbrev pub busy_fragments : List Str
busy_fragments =
    str "dataset is busy"
    ∷ str "target is busy"
    ∷ str "resource busy"
    ∷ str "ebusy"
    ∷ str "ezfs_busy"
    ∷ str "device or resource busy"
    ∷ str "pool is busy"
    ∷ str "filesystem is busy"
    ∷ []

unfoldable pub is_busy : Option Err → Bool
is_busy e = classify e (str "EBUSY" ∷ []) busy_fragments

unfoldable pub is_dependent_clones : Option Err → Bool
is_dependent_clones e = classify e [] (str "dependent clones" ∷ [])

unfoldable pub is_capacity : Option Err → Bool
is_capacity e = classify e (str "ENOSPC" ∷ str "EDQUOT" ∷ []) (
    str "insufficient space"
    ∷ str "out of space"
    ∷ str "not enough space"
    ∷ str "no space left"
    ∷ str "ENOSPC"
    ∷ str "quota exceeded"
    ∷ [])
