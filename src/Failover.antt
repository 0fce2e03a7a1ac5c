-- ===== src/Failover.antt =====
-- internal/controllers/actionrequest_controller.go: the failover actions of Valkey and MySQL. This
-- file has what the two share: results, the parameters of an action, and the status patch.
pub mod Valkey
pub mod Mysql
use servicer.Prelude.{
  Fallible, ok, err, ◌>>=◌, String, Bool, true, false, List, [], ◌∷◌, Option, none, some, ◌==◌,
  trim_space, equal_fold, if◌then◌else◌,
}
use servicer.Json.{Json, null, str, obj, Fields, end, field}
use servicer.Api.{Lookup, found, not_found, failed}

-- The errors, by the text of the source that they stand for.
pub data Error : Type 0 where
  decode_parameters : Error
  missing_candidate missing_standby missing_target : Error
  wrong_topology primary_unknown already_primary not_ready not_standby : Error
  resync_of_primary : Error
  not_configured_standby no_previous_primary : Error
  read_failed write_failed : Error

abbrev pub Result : Type 0 → Type 0
Result A = Fallible Error A

-- One text field of the struct that `json.Unmarshal` fills: a null leaves it, another kind of value
-- is an error, and names match without case.
unfoldable pub decode_string : String → String → Fields → Result String
decode_string name value end = ok value
decode_string name value (field key (str s) fields) =
    decode_string name (if equal_fold key name then s else value) fields
decode_string name value (field key null fields) = decode_string name value fields
decode_string name value (field key _ fields) =
    let rest = decode_string name value fields in
    if equal_fold key name then err decode_parameters else rest

-- The field of the action's parameters; none are given, or null.
unfoldable pub string_parameter : String → Option Json → Result String
unfolding decode_string
string_parameter name none = ok ""
string_parameter name (some (obj fields)) = decode_string name "" fields
string_parameter name (some null) = ok ""
string_parameter name (some _) = err decode_parameters

unfoldable pub required_parameter : String → Error → Option Json → Result String
required_parameter name missing parameters = do
  value ← string_parameter name parameters
  let trimmed = trim_space value
  if trimmed == "" then err missing else ok trimmed

unfoldable pub failover_candidate : Option Json → Result String
unfolding required_parameter
failover_candidate parameters = required_parameter "candidateCluster" missing_candidate parameters

unfoldable pub standby_target : Option Json → Result String
unfolding required_parameter
standby_target parameters = required_parameter "standbyCluster" missing_standby parameters

-- The API's answer to a patch.
pub data Reply : Type 0 where
  accepted conflict refused : Reply

-- One round of `retry.RetryOnConflict`: what is read, and the answer to the patch.
pub record Attempt (A : Type 0) : Type 0 where
  pub read : Lookup A
  pub reply : Reply

-- The rounds that `retry.RetryOnConflict` grants are the list. `same` is `DeepEqual` of the
-- statuses.
unfoldable pub patch_status :
    {A : Type 0} → (A → A → Bool) → (A → Result A) → List (Attempt A) → Result A
patch_status same mutate [] = err write_failed
patch_status same mutate (attempt ∷ attempts) = elim attempt.read [
  | not_found ↦ err read_failed
  | failed ↦ err read_failed
  | found current ↦ elim (mutate current) [
    | err e ↦ err e
    | ok next ↦ if same current next then ok current else elim attempt.reply [
      | accepted ↦ ok next
      | conflict ↦ patch_status same mutate attempts
      | refused ↦ err write_failed
    ]
  ]
]
