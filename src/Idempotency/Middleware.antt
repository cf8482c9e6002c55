-- ===== src/Idempotency/Middleware.antt =====
-- `MiddlewareWithOptions` of idempotency/idempotency.go. A request runs in two steps, up to the call
-- of the next handler and after it, so that other requests can run in between.
use service_runtime.Base.{
  ℕ, ◌-◌, ◌*◌, Bool, true, Option, none, some, List, ◌++◌, leb, if◌then◌else◌, ℤ, pos, to_ℕ,
  is_nonpositive, Text, codes, is_empty, trim_space, utf8,
}
use service_runtime.HttpKit.{
  CaptureResponseWriter, WriterOp, fresh, new_capture_response_writer, run_ops,
}
use service_runtime.Idempotency.Store.{
  ReplayResult, Row, Faults, BeginError, BeginResult, started, replay, refused, conflict, pending,
  database_error, begin, complete, cleanup,
}

pub record Options : Type 0 where
  pub ttl : ℤ
  pub cleanup_interval : ℤ

abbrev hour : ℕ
hour = 3600000000000

-- `withDefaults`, for the fields that are no functions
unfoldable pub with_defaults : Options → Options
with_defaults o = record {
  ttl = if is_nonpositive o.ttl then pos (24 * hour) else o.ttl;
  cleanup_interval =
      if is_nonpositive o.cleanup_interval then pos (300 * 1000000000) else o.cleanup_interval;
}

-- A body that cannot be read is `none`; so is an actor that is not there.
pub record Request : Type 0 where
  pub method : Text
  pub path : Text
  pub idempotency_key : Text
  pub body : Option (List ℕ)
  pub organization : Option Text

-- What the client is told; a handler's own response comes with the writes that made it.
pub data Response : Type 0 where
  error_response : ℕ → Text → Response
  replayed : ReplayResult → Response
  handled : CaptureResponseWriter → Response

-- `DefaultScope`; an error is `none`.
default_scope_of : Option Text → Text → Text → Option Text
default_scope_of none method path = none
default_scope_of (some org) method path =
    if is_empty (trim_space org)
    then none
    else some (org ++ codes ":" ++ method ++ codes ":" ++ path)

unfoldable pub default_scope : Request → Option Text
unfolding default_scope_of
default_scope r = default_scope_of r.organization r.method r.path

-- The bytes that `RequestHash` hashes.
unfoldable pub hash_input : Text → Text → List ℕ → List ℕ
hash_input method path body = utf8 (method ++ codes ":" ++ path ++ codes ":") ++ body

-- The store and the time of the last cleanup; none was made yet is `none`.
pub record State : Type 0 where
  pub table : List Row
  pub last_cleanup : Option ℕ

should_cleanup : ℕ → ℕ → Option ℕ → Bool
should_cleanup interval now none = true
should_cleanup interval now (some last) = leb interval (now - last)

unfoldable pub cleanup_if_due : Options → Faults → ℕ → State → State
unfolding should_cleanup
cleanup_if_due o f now s =
    if should_cleanup (to_ℕ o.cleanup_interval) now s.last_cleanup
    then record { table = cleanup f now s.table; last_cleanup = some now }
    else s

-- A request that is let through to the next handler, with its scope and key.
pub data Admission : Type 0 where
  answered : Response → Admission
  through : Text → Text → Admission

unfoldable pub error_of : BeginError → Response
error_of conflict = error_response 409 (codes "idempotency_conflict")
error_of pending = error_response 409 (codes "idempotency_in_progress")
error_of database_error = error_response 500 (codes "idempotency_failed")

unfoldable pub admission : Text → Text → BeginResult → Admission
unfolding error_of
admission scope key started = through scope key
admission scope key (replay r) = answered (replayed r)
admission scope key (refused e) = answered (error_of e)

-- `hash` is SHA-256 in hexadecimal digits, and `scope_func` the configured scope.
module _ (hash : List ℕ → Text) (scope_func : Request → Option Text) where
  unfoldable pub enter_keyed :
      Options
      → Faults
      → ℕ
      → Request
      → Text
      → Option Text
      → Option (List ℕ)
      → State
      → State × Admission
  unfolding cleanup_if_due admission hash_input
  enter_keyed o f now r key none body s =
      (s, answered (error_response 500 (codes "idempotency_scope_failed")))
  enter_keyed o f now r key (some scope) none s =
      (s, answered (error_response 400 (codes "invalid_body")))
  enter_keyed o f now r key (some scope) (some body) s =
      let s' = cleanup_if_due o f now s in
      let h = hash (hash_input r.method r.path body) in
      let (t, result) = begin f scope key h (to_ℕ o.ttl) now s'.table in
      (record s' { table = t }, admission scope key result)

  -- Up to the call of the next handler.
  unfoldable pub enter : Options → Faults → ℕ → Request → State → State × Admission
  unfolding enter_keyed
  enter o f now r s =
      let key = trim_space r.idempotency_key in
      if is_empty key
      then (s, answered (error_response 400 (codes "missing_idempotency_key")))
      else enter_keyed o f now r key (scope_func r) r.body s

-- What is stored of the handler's response.
unfoldable pub result_of : Text → CaptureResponseWriter → ReplayResult
result_of content_type w = record {
  status_code = w.status_code;
  content_type = if is_empty content_type then codes "application/json" else content_type;
  body = w.body;
}

-- After the next handler, which left a content type and made writes; an error is only logged.
unfoldable pub leave : Faults → ℕ → Text → Text → Text → List WriterOp → State → State × Response
unfolding result_of
leave f now scope key content_type ops s =
    let w = run_ops ops (new_capture_response_writer fresh) in
    let (t, stored) = complete f scope key (result_of content_type w) now s.table in
    (record s { table = t }, handled w)
