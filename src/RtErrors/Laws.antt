-- ===== src/RtErrors/Laws.antt =====
-- What the client of a service is told of an error (rterrors/).
use service_runtime.Base.{
  ◌≡◌, refl, ap, true, false, Option, none, some, List, [], ◌∷◌, arith, Text, codes, is_empty,
  text_eq, trim_space,
}
use service_runtime.RtErrors.{
  Err, runtime_error, other_error, code_internal, default_message, is_nil, own_message, text_of,
  first_runtime_error, code_of, message_of, message_found, ConnectCode, own_connect_code, status_of,
  connect_code, connect_code_some, http_status, write_error,
}

default_message-not_empty : (code : Text) → is_empty (default_message code) ≡ false
unfolding default_message
default_message-not_empty code = ground arith

own_message-not_empty :
    (code message : Text) (cause : Option Text) → is_empty (own_message code message cause) ≡ false
unfolding own_message
own_message-not_empty code message none = ground (arith, default_message-not_empty code)
own_message-not_empty code message (some text) = ground (arith, default_message-not_empty code)

message_found-not_empty :
    (e : Err) (r : Option (Text × Text × Err)) → is_empty (message_found e r) ≡ false
unfolding message_found
message_found-not_empty e none = ground (arith, default_message-not_empty code_internal)
message_found-not_empty e (some r) = own_message-not_empty r.0 r.1 (text_of r.2)

-- The message for the client is never empty, whatever the error.
pub message_is_given : (e : Err) → is_empty (message_of e) ≡ false
unfolding message_of
message_is_given e = message_found-not_empty e (first_runtime_error e)

-- Layers of errors of other packages around an error.
unfoldable pub wrapped : List Text → Err → Err
wrapped [] e = e
wrapped (t ∷ ts) e = other_error t (wrapped ts e)

first_runtime_error-wrapped :
    (ts : List Text) (e : Err) → first_runtime_error (wrapped ts e) ≡ first_runtime_error e
unfolding first_runtime_error wrapped
first_runtime_error-wrapped [] e = refl
first_runtime_error-wrapped (t ∷ ts) e = first_runtime_error-wrapped ts e

is_nil-runtime :
    (code op message : Text) (cause : Err) → is_nil (runtime_error code op message cause) ≡ false
unfolding is_nil
is_nil-runtime code op message cause = refl

wrapped-not_nil : (ts : List Text) (e : Err) → is_nil e ≡ false → is_nil (wrapped ts e) ≡ false
unfolding wrapped is_nil
wrapped-not_nil [] e h = h
wrapped-not_nil (t ∷ ts) e h = refl

own_connect_code-not_empty :
    (code : Text) (c : ConnectCode) → own_connect_code code ≡ some c → is_empty code ≡ false
unfolding own_connect_code text_eq
own_connect_code-not_empty [] c h = cc
own_connect_code-not_empty (x ∷ code) c h = refl

write_error-parts :
    (connect_code_of : Err → ConnectCode) (e : Err) (code message : Text) (c : ConnectCode)
    → is_nil e ≡ false
    → code_of e ≡ code
    → message_of e ≡ message
    → own_connect_code code ≡ some c
    → write_error connect_code_of e ≡ some (status_of c, code, message)
unfolding write_error http_status connect_code connect_code_some
write_error-parts connect_code_of e code message c n k m h =
    rw (n, k, m, h, own_connect_code-not_empty code c h)

-- However many layers of other errors are put around an error of the package that has one of its
-- codes, what is written to the client is the status of that code, the code, and that error's message.
pub wrapping_is_transparent :
    (connect_code_of : Err → ConnectCode) (ts : List Text) (code op message : Text) (cause : Err)
    (c : ConnectCode)
    → own_connect_code code ≡ some c
    → write_error connect_code_of (wrapped ts (runtime_error code op message cause))
      ≡ some (status_of c, code, own_message code message (text_of cause))
unfolding code_of message_of message_found first_runtime_error
wrapping_is_transparent connect_code_of ts code op message cause c h =
    let found = first_runtime_error-wrapped ts (runtime_error code op message cause) in
    write_error-parts connect_code_of (wrapped ts (runtime_error code op message cause)) code
      (own_message code message (text_of cause)) c
      (wrapped-not_nil ts (runtime_error code op message cause)
        (is_nil-runtime code op message cause))
      (ap (λ r. elim r [ none ↦ [] | some q ↦ q.0 ]) found)
      (ap (message_found (wrapped ts (runtime_error code op message cause))) found) h

own_message-internal :
    (message : Text) (cause : Option Text)
    → is_empty (trim_space message) ≡ true
    → own_message code_internal message cause ≡ codes "internal error"
unfolding own_message default_message text_eq
own_message-internal message none h = ground (arith, h)
own_message-internal message (some t) h = ground (arith, h)

-- An internal error without a message of its own never shows its cause, in whatever it is wrapped.
pub internal_cause_is_hidden :
    (ts : List Text) (op message : Text) (cause : Err)
    → is_empty (trim_space message) ≡ true
    → message_of (wrapped ts (runtime_error code_internal op message cause))
      ≡ codes "internal error"
unfolding message_of message_found first_runtime_error
internal_cause_is_hidden ts op message cause h =
    rw (first_runtime_error-wrapped ts (runtime_error code_internal op message cause))
      (own_message-internal message (text_of cause) h)
