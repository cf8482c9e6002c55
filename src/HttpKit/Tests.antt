-- ===== src/HttpKit/Tests.antt =====
-- The theorems on httpkit/response.go at concrete inputs.
use service_runtime.Base.{◌≡◌, refl, false, [], ◌∷◌, some}
use service_runtime.HttpKit.{
  fresh, fresh_for, new_capture_response_writer, client_status, op_write_header, op_write,
  op_read_from, op_read_from_cut, run_ops,
}
use service_runtime.HttpKit.Laws.{capture_agrees, informational_is_final, visible}

capture_agrees_example :
    let w =
      run_ops
        (op_read_from (7 ∷ []) ∷ op_write_header 404 ∷ op_write (8 ∷ []) ∷ [])
        (new_capture_response_writer (fresh_for false)) in
    (client_status w.inner ≡ w.status_code) × (w.inner.sent ≡ visible false w.status_code w.body)
capture_agrees_example =
    capture_agrees false (op_read_from (7 ∷ []) ∷ op_write_header 404 ∷ op_write (8 ∷ []) ∷ [])
      (tt, ((refl, refl), (tt, tt)))

-- A body that is written with 204 is captured and not sent.
no_content :
    let w =
      run_ops (op_write_header 204 ∷ op_write (8 ∷ []) ∷ []) (new_capture_response_writer fresh) in
    (w.inner.status ≡ some 204) × (w.inner.sent ≡ []) × (w.body ≡ 8 ∷ [])
unfolding run_ops new_capture_response_writer
no_content = (refl, refl, refl)

-- A copy of which no byte gets through leaves the captured status open while the client's is 200.
failed_copy :
    let w =
      run_ops
        (op_read_from_cut 0 (7 ∷ []) ∷ op_write_header 500 ∷ [])
        (new_capture_response_writer fresh) in
    (w.inner.status ≡ some 200) × (w.status_code ≡ 500) × (w.body ≡ 7 ∷ [])
unfolding run_ops new_capture_response_writer
failed_copy = (refl, refl, refl)

informational_is_final_example :
    let w =
      run_ops
        (op_write_header 103 ∷ op_write_header 404 ∷ op_write (7 ∷ []) ∷ [])
        (new_capture_response_writer (fresh_for false)) in
    (w.status_code ≡ 103)
    × (w.inner.informational ≡ 103 ∷ [])
    × (client_status w.inner ≡ 200)
    × (w.inner.sent ≡ w.body)
informational_is_final_example =
    informational_is_final false 103 (op_write_header 404 ∷ op_write (7 ∷ []) ∷ []) refl
      (refl, (tt, tt))
