-- ===== src/RtErrors.antt =====
-- rterrors/errors.go, connect.go and http.go. A Go error is its chain of `Unwrap`: what is not an
-- `*Error` of this package is its text. The code of a Connect error is what `connect.CodeOf` returns.
pub mod Laws
mod Tests
use service_runtime.Base.{
  ℕ, Bool, true, false, not, ◌&&◌, ◌||◌, Option, none, some, List, [], ◌∷◌, ◌++◌, if◌then◌else◌,
  Text, codes, is_empty, text_eq, trim_space,
}

-- `nil`, an `*Error` with its code, operation, message and cause, or another error with its cause.
pub data Err : Type 0 where
  nil_error : Err
  runtime_error : Text → Text → Text → Err → Err
  other_error : Text → Err → Err

abbrev pub code_internal : Text
code_internal = codes "internal_error"

unfoldable pub new : Text → Text → Err
new code message = runtime_error code [] (trim_space message) nil_error

wrap_some : Text → Text → Err → Err
wrap_some code op nil_error = nil_error
wrap_some code op err = runtime_error code op [] err

unfoldable pub wrap : Text → Text → Err → Err
unfolding wrap_some
wrap code op err = wrap_some code (trim_space op) err

unfoldable pub make_error : Text → Text → Text → Err → Err
make_error code op message err = runtime_error code (trim_space op) (trim_space message) err

unfoldable pub default_message : Text → Text
default_message code =
    if text_eq code (codes "invalid_input") || text_eq code (codes "invalid_json")
    then codes "invalid input"
    else if text_eq code (codes "not_found")
    then codes "resource not found"
    else if text_eq code (codes "unauthorized")
    then codes "authentication required"
    else if text_eq code (codes "forbidden")
    then codes "forbidden"
    else if text_eq code (codes "conflict") || text_eq code (codes "version_conflict")
    then codes "request conflicts with current state"
    else if text_eq code (codes "rate_limited")
    then codes "rate limit exceeded"
    else if text_eq code (codes "unavailable")
    then codes "service unavailable"
    else if text_eq code code_internal || is_empty code
    then codes "internal error"
    else codes "request failed"

unfoldable pub is_nil : Err → Bool
is_nil nil_error = true
is_nil (runtime_error c o m e) = false
is_nil (other_error t e) = false

-- `message` of an `*Error`, with the text of its cause, none for `nil`
unfoldable pub own_message : Text → Text → Option Text → Text
own_message code message none =
    if not (is_empty (trim_space message)) then trim_space message else default_message code
own_message code message (some text) =
    if not (is_empty (trim_space message))
    then trim_space message
    else if not (text_eq code code_internal) && not (is_empty (trim_space text))
    then trim_space text
    else default_message code

with_op : Text → Text → Text
with_op op message =
    if not (is_empty op) && not (is_empty message)
    then op ++ codes ": " ++ message
    else if not (is_empty op)
    then op
    else message

-- `Error()`; the code calls it on no nil error.
unfoldable pub error_text : Err → Text
unfolding with_op
error_text nil_error = []
error_text (runtime_error code op message cause) =
    let text = error_text cause in
    with_op op (own_message code message (if is_nil cause then none else some text))
error_text (other_error text cause) = text

unfoldable pub text_of : Err → Option Text
text_of e = if is_nil e then none else some (error_text e)

-- What `errors.As` finds for `*Error`: the first one in the chain.
unfoldable pub first_runtime_error : Err → Option (Text × Text × Err)
first_runtime_error nil_error = none
first_runtime_error (runtime_error code op message cause) = some (code, message, cause)
first_runtime_error (other_error text cause) = first_runtime_error cause

unfoldable pub code_of : Err → Text
code_of e = elim (first_runtime_error e) [ none ↦ [] | some r ↦ r.0 ]

plain_message : Text → Text
plain_message text =
    if is_empty (trim_space text) then default_message code_internal else trim_space text

unfoldable pub message_found : Err → Option (Text × Text × Err) → Text
unfolding plain_message
message_found e none =
    if is_nil e then default_message code_internal else plain_message (error_text e)
message_found e (some r) = own_message r.0 r.1 (text_of r.2)

unfoldable pub message_of : Err → Text
message_of e = message_found e (first_runtime_error e)

-- The method `Is`, for the target's dynamic type.
unfoldable pub matches : Err → Err → Bool
matches nil_error target = is_nil target
matches (other_error t e) target = false
matches (runtime_error code op m e) nil_error = false
matches (runtime_error code op m e) (other_error t e') = false
matches (runtime_error code op m e) (runtime_error code' op' m' e') =
    (not (is_empty code') && text_eq code code')
    || (not (is_empty op') && is_empty code' && text_eq op op')

pub data ConnectCode : Type 0 where
  canceled unknown invalid_argument deadline_exceeded not_found already_exists permission_denied :
      ConnectCode
  resource_exhausted failed_precondition aborted out_of_range unimplemented internal unavailable :
      ConnectCode
  data_loss unauthenticated : ConnectCode

-- The switch over the package's own codes.
unfoldable pub own_connect_code : Text → Option ConnectCode
own_connect_code code =
    if text_eq code (codes "invalid_input") || text_eq code (codes "invalid_json")
    then some invalid_argument
    else if text_eq code (codes "unauthorized")
    then some unauthenticated
    else if text_eq code (codes "forbidden")
    then some permission_denied
    else if text_eq code (codes "not_found")
    then some not_found
    else if text_eq code (codes "conflict")
    then some already_exists
    else if text_eq code (codes "version_conflict")
    then some failed_precondition
    else if text_eq code (codes "rate_limited")
    then some resource_exhausted
    else if text_eq code (codes "unavailable")
    then some unavailable
    else if text_eq code code_internal
    then some internal
    else none

known_or_internal : ConnectCode → ConnectCode
known_or_internal unknown = internal
known_or_internal c = c

unfoldable pub status_of : ConnectCode → ℕ
status_of invalid_argument = 400
status_of unauthenticated = 401
status_of permission_denied = 403
status_of not_found = 404
status_of already_exists = 409
status_of failed_precondition = 412
status_of resource_exhausted = 429
status_of unavailable = 503
status_of _ = 500

-- What `ToConnectError` returns: nil, its argument, or a new Connect error around it.
pub data ConnectResult : Type 0 where
  no_error : ConnectResult
  unchanged : Err → ConnectResult
  new_error : ConnectCode → Err → ConnectResult

is_unknown : ConnectCode → Bool
is_unknown unknown = true
is_unknown _ = false

-- `connect.CodeOf`
module _ (connect_code_of : Err → ConnectCode) where
  unfoldable pub connect_code_some : Option ConnectCode → Err → ConnectCode
  unfolding known_or_internal
  connect_code_some (some c) e = c
  connect_code_some none e = known_or_internal (connect_code_of e)

  unfoldable pub connect_code : Err → ConnectCode
  unfolding connect_code_some
  connect_code e = if is_nil e then unknown else connect_code_some (own_connect_code (code_of e)) e

  unfoldable pub to_connect_error : Err → ConnectResult
  unfolding is_unknown
  to_connect_error e =
      if is_nil e
      then no_error
      else if not (is_empty (code_of e))
      then new_error (connect_code e) e
      else if not (is_unknown (connect_code_of e))
      then unchanged e
      else new_error (connect_code e) e

  unfoldable pub http_status : Err → ℕ
  http_status e = status_of (connect_code e)

  -- The status, code and message that are written, if any are.
  unfoldable pub write_error : Err → Option (ℕ × Text × Text)
  write_error e =
      if is_nil e
      then none
      else some
          (http_status e, (if is_empty (code_of e) then code_internal else code_of e), message_of e)
