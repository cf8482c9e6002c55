-- ===== src/HttpKit.antt =====
-- httpkit/response.go: `CaptureResponseWriter`, over a writer that works as net/http's does. An
-- informational status, 1xx but 101, is sent at once and leaves the final status open.
-- The panic of `WriteHeader` for a status outside 100 to 999 is not modelled, nor is a Content-Length
-- that the handler declares.
pub mod Laws
mod Tests
use service_runtime.Base.{
  ℕ, Bool, true, false, not, ◌&&◌, Option, none, some, List, [], ◌∷◌, ◌++◌, ltb, leb, ◌==◌,
  if◌then◌else◌, is_empty, zero, suc,
}

-- net/http's writer, as the client sees it; a HEAD request gets no body.
pub record ResponseWriter : Type 0 where
  pub is_head : Bool
  pub status : Option ℕ
  pub informational : List ℕ
  pub sent : List ℕ

abbrev pub fresh_for : Bool → ResponseWriter
fresh_for is_head = record { is_head = is_head; status = none; informational = []; sent = [] }

abbrev pub fresh : ResponseWriter
fresh = fresh_for false

abbrev pub is_informational : ℕ → Bool
is_informational code = leb 100 code && ltb code 200 && not (code == 101)

final_status : Option ℕ → ℕ → ResponseWriter → ResponseWriter
final_status none code w =
    if is_informational code
    then record w { informational = w.informational ++ code ∷ [] }
    else record w { status = some code }
final_status (some s) code w = w

send_header : ℕ → ResponseWriter → ResponseWriter
unfolding final_status
send_header code w = final_status w.status code w

-- The status of a response that is finished.
abbrev pub client_status : ResponseWriter → ℕ
client_status w = elim w.status [ none ↦ 200 | some s ↦ s ]

abbrev pub body_allowed : ℕ → Bool
body_allowed s = not (leb 100 s && ltb s 200) && not (s == 204) && not (s == 304)

take : ℕ → List ℕ → List ℕ
take zero bytes = []
take (suc k) [] = []
take (suc k) (b ∷ bs) = b ∷ take k bs

-- The bytes that the connection takes: all of them, or those before it fails.
accepted : Option ℕ → List ℕ → List ℕ
unfolding take
accepted none bytes = bytes
accepted (some k) bytes = take k bytes

-- Writing settles the status; the bytes reach the client if the status and the method allow a body.
send : Option ℕ → List ℕ → ResponseWriter → ResponseWriter
unfolding accepted
send cut bytes w =
    let s = client_status w in
    record w {
      status = some s;
      sent = if body_allowed s && not w.is_head then w.sent ++ accepted cut bytes else w.sent;
    }

-- Whether the writer counts any of the bytes as written; those of a HEAD request are counted.
counts_any : Option ℕ → List ℕ → ResponseWriter → Bool
unfolding accepted
counts_any cut bytes w = body_allowed (client_status w) && not (is_empty (accepted cut bytes))

pub record CaptureResponseWriter : Type 0 where
  pub inner : ResponseWriter
  pub status_code : ℕ
  pub wrote_header : Bool
  pub body : List ℕ

unfoldable pub new_capture_response_writer : ResponseWriter → CaptureResponseWriter
new_capture_response_writer w = record {
  inner = w;
  status_code = 200;
  wrote_header = false;
  body = [];
}

unfoldable pub write_header : ℕ → CaptureResponseWriter → CaptureResponseWriter
unfolding send_header
write_header code w =
    if w.wrote_header
    then w
    else record w { wrote_header = true; status_code = code; inner = send_header code w.inner }

-- `cut` tells where the connection fails, if it does; the bytes are captured all the same.
unfoldable pub write : Option ℕ → List ℕ → CaptureResponseWriter → CaptureResponseWriter
unfolding write_header send
write cut bytes w =
    let v = if w.wrote_header then w else write_header 200 w in
    record v { body = v.body ++ bytes; inner = send cut bytes v.inner }

-- The bytes that are read are captured, and go past `Write` to the inner writer; nothing is sent if
-- there is nothing.
unfoldable pub read_from : Option ℕ → List ℕ → CaptureResponseWriter → CaptureResponseWriter
unfolding send counts_any
read_from cut [] w = w
read_from cut (b ∷ bs) w =
    let v = record w { body = w.body ++ b ∷ bs; inner = send cut (b ∷ bs) w.inner } in
    if counts_any cut (b ∷ bs) w.inner && not w.wrote_header
    then record v { wrote_header = true; status_code = 200 }
    else v

-- What a handler does with its writer, on a connection that works or fails after some bytes.
pub data WriterOp : Type 0 where
  op_write_header : ℕ → WriterOp
  op_write op_read_from : List ℕ → WriterOp
  op_write_cut op_read_from_cut : ℕ → List ℕ → WriterOp

unfoldable pub run_op : WriterOp → CaptureResponseWriter → CaptureResponseWriter
unfolding write_header write read_from
run_op (op_write_header code) w = write_header code w
run_op (op_write bytes) w = write none bytes w
run_op (op_read_from bytes) w = read_from none bytes w
run_op (op_write_cut k bytes) w = write (some k) bytes w
run_op (op_read_from_cut k bytes) w = read_from (some k) bytes w

unfoldable pub run_ops : List WriterOp → CaptureResponseWriter → CaptureResponseWriter
unfolding run_op
run_ops [] w = w
run_ops (o ∷ os) w = run_ops os (run_op o w)
