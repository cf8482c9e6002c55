-- ===== src/HttpKit/Laws.antt =====
-- Whether the captured response is the one that the client got (httpkit/response.go).
use service_runtime.Base.{
  ℕ, ◌≡◌, leb, ltb, Bool, true, false, not, ◌&&◌, none, some, List, [], ◌∷◌, arith, All,
  if◌then◌else◌,
}
use service_runtime.HttpKit.{
  fresh_for, CaptureResponseWriter, new_capture_response_writer, is_informational, client_status,
  body_allowed, WriterOp, op_write_header, op_write, op_read_from, op_write_cut, op_read_from_cut,
  run_op, run_ops,
}

-- The part of a body that a client gets with a status.
abbrev pub visible : Bool → ℕ → List ℕ → List ℕ
visible is_head status body = if body_allowed status && not is_head then body else []

pub record Agrees (is_head : Bool) (w : CaptureResponseWriter) : Type 0 where
  pub same_method : w.inner.is_head ≡ is_head
  pub same_body : w.inner.sent ≡ visible is_head w.status_code w.body
  pub header_known :
      w.wrote_header ≡ false
      → (w.inner.status ≡ none) × (w.status_code ≡ 200) × (w.body ≡ []) × (w.inner.sent ≡ [])
  pub header_sent : w.wrote_header ≡ true → w.inner.status ≡ some w.status_code

-- `WriteHeader` panics for other statuses.
abbrev pub is_valid_status : ℕ → Bool
is_valid_status code = leb 100 code && ltb code 1000

-- The connection works, and the statuses are valid.
abbrev pub Works : WriterOp → Type 0
Works (op_write_header code) = is_valid_status code ≡ true
Works (op_write bytes) = Unit
Works (op_read_from bytes) = Unit
Works (op_write_cut k bytes) = ⊥
Works (op_read_from_cut k bytes) = ⊥

-- The connection works, and the statuses are valid and none is informational.
abbrev pub IsFinal : WriterOp → Type 0
IsFinal (op_write_header code) = (is_valid_status code ≡ true) × (is_informational code ≡ false)
IsFinal (op_write bytes) = Unit
IsFinal (op_read_from bytes) = Unit
IsFinal (op_write_cut k bytes) = ⊥
IsFinal (op_read_from_cut k bytes) = ⊥

run_op-Agrees :
    (h : Bool) (o : WriterOp) (w : CaptureResponseWriter)
    → IsFinal o
    → Agrees h w
    → Agrees h (run_op o w)
unfolding run_op
run_op-Agrees h (op_write_header code) w f a = ground arith
run_op-Agrees h (op_write bytes) w f a = ground arith
run_op-Agrees h (op_read_from []) w f a = a
run_op-Agrees h (op_read_from (b ∷ bs)) w f a = ground arith
run_op-Agrees h (op_write_cut k bytes) w f a = elim f [ ]
run_op-Agrees h (op_read_from_cut k bytes) w f a = elim f [ ]

run_ops-Agrees :
    (h : Bool) (os : List WriterOp) (w : CaptureResponseWriter)
    → All IsFinal os
    → Agrees h w
    → Agrees h (run_ops os w)
unfolding run_ops
run_ops-Agrees h [] w f a = a
run_ops-Agrees h (o ∷ os) w f a = run_ops-Agrees h os (run_op o w) f.1 (run_op-Agrees h o w f.0 a)

Agrees-status :
    (h : Bool) (w : CaptureResponseWriter) → Agrees h w → client_status w.inner ≡ w.status_code
Agrees-status h w a = ground arith

-- Whatever a handler writes and copies, in whatever order, while the connection takes all bytes and
-- the statuses are from 100 to 999 and none is informational: the client gets the status that is captured, and the body that is
-- captured, or no body if the status (1xx, 204, 304) or a HEAD request allows none.
pub capture_agrees :
    (is_head : Bool) (os : List WriterOp)
    → All IsFinal os
    → let w = run_ops os (new_capture_response_writer (fresh_for is_head)) in
      (client_status w.inner ≡ w.status_code)
      × (w.inner.sent ≡ visible is_head w.status_code w.body)
unfolding new_capture_response_writer
capture_agrees is_head os f =
    let w = new_capture_response_writer (fresh_for is_head) in
    let a = run_ops-Agrees is_head os w f (ground arith) in
    (Agrees-status is_head (run_ops os w) a, a.same_body)

-- After an informational status was captured as the final one.
record Misled (is_head : Bool) (early : ℕ) (w : CaptureResponseWriter) : Type 0 where
  same_method : w.inner.is_head ≡ is_head
  header_sent : w.wrote_header ≡ true
  captured : w.status_code ≡ early
  still_200 : client_status w.inner ≡ 200
  same_body : w.inner.sent ≡ (if is_head then [] else w.body)
  one_informational : w.inner.informational ≡ early ∷ []

run_op-Misled :
    (h : Bool) (early : ℕ) (o : WriterOp) (w : CaptureResponseWriter)
    → Works o
    → Misled h early w
    → Misled h early (run_op o w)
unfolding run_op
run_op-Misled h early (op_write_header code) w f a = ground arith
run_op-Misled h early (op_write bytes) w f a = ground arith
run_op-Misled h early (op_read_from []) w f a = a
run_op-Misled h early (op_read_from (b ∷ bs)) w f a = ground arith
run_op-Misled h early (op_write_cut k bytes) w f a = elim f [ ]
run_op-Misled h early (op_read_from_cut k bytes) w f a = elim f [ ]

run_ops-Misled :
    (h : Bool) (early : ℕ) (os : List WriterOp) (w : CaptureResponseWriter)
    → All Works os
    → Misled h early w
    → Misled h early (run_ops os w)
unfolding run_ops
run_ops-Misled h early [] w f a = a
run_ops-Misled h early (o ∷ os) w f a =
    run_ops-Misled h early os (run_op o w) f.1 (run_op-Misled h early o w f.0 a)

-- An informational status that comes first is captured as the final one, whatever the handler sends
-- after it, while the connection takes all bytes and the statuses are from 100 to 999: the client gets that informational status only, then 200, as
-- no later status reaches it, with the body that is captured (or none for a HEAD request).
pub informational_is_final :
    (is_head : Bool) (early : ℕ) (os : List WriterOp)
    → is_informational early ≡ true
    → All Works os
    → let w =
        run_ops (op_write_header early ∷ os) (new_capture_response_writer (fresh_for is_head)) in
      (w.status_code ≡ early)
      × (w.inner.informational ≡ early ∷ [])
      × (client_status w.inner ≡ 200)
      × (w.inner.sent ≡ (if is_head then [] else w.body))
unfolding run_ops run_op new_capture_response_writer
informational_is_final is_head early os h f =
    let w = run_op (op_write_header early) (new_capture_response_writer (fresh_for is_head)) in
    let a = run_ops-Misled is_head early os w f (ground (arith, h)) in
    (a.captured, a.one_informational, a.still_200, a.same_body)
