-- ===== src/Idempotency/Tests.antt =====
-- Tests of idempotency/, and its theorems at concrete inputs, with the bytes as their own hash.
use service_runtime.Base.{
  ℕ, ◌≡◌, refl, none, some, List, [], ◌∷◌, arith, Text, codes, trim_space, pos,
}
use service_runtime.HttpKit.{fresh, new_capture_response_writer, op_write_header, op_write, run_ops}
use service_runtime.Idempotency.Store.{no_faults, begin, select_row, cleanup}
use service_runtime.Idempotency.Middleware.{
  Options, Request, State, answered, replayed, through, default_scope, enter, leave, result_of,
}
use service_runtime.Idempotency.Events.{entering, run}
use service_runtime.Idempotency.Once.{let_through_once}
use service_runtime.Idempotency.Replay.{Ready, replay_after_complete}

abbrev as_text : List ℕ → Text
as_text bytes = bytes

abbrev options : Options
options = record { ttl = pos 100; cleanup_interval = pos 5 }

abbrev payment : Request
payment = record {
  method = codes "POST";
  path = codes "/p";
  idempotency_key = codes " k ";
  body = some (1 ∷ []);
  organization = some (codes "o");
}

abbrev refund : Request
refund = record payment { body = some (2 ∷ []) }

abbrev other : Request
other = record payment { idempotency_key = codes "j" }

abbrev empty : State
empty = record { table = []; last_cleanup = none }

abbrev scope : Text
scope = codes "o:POST:/p"

abbrev key : Text
key = codes "k"

payment_is_through :
    (enter as_text default_scope options no_faults 10 payment empty).1 ≡ through scope key
unfolding enter default_scope trim_space begin select_row cleanup
payment_is_through = refl

let_through_once_example :
    let s' =
      run as_text default_scope options
        (entering no_faults 20 other ∷ [])
        (enter as_text default_scope options no_faults 10 payment empty).0 in
    ¬ ((enter as_text default_scope options no_faults 90 refund s').1 ≡ through scope key)
let_through_once_example =
    let_through_once as_text default_scope options no_faults no_faults 10 90 payment refund empty
      (entering no_faults 20 other ∷ []) scope key payment_is_through (omega arith, tt)
      (omega arith)

refund_is_Ready : Ready as_text default_scope refund scope key (2 ∷ [])
unfolding default_scope trim_space
refund_is_Ready = record { has_key = refl; not_empty = refl; has_scope = refl; has_body = refl }

payment_is_Ready : Ready as_text default_scope payment scope key (1 ∷ [])
unfolding default_scope trim_space
payment_is_Ready = record { has_key = refl; not_empty = refl; has_scope = refl; has_body = refl }

replay_after_complete_example :
    let s' =
      run as_text default_scope options
        (entering no_faults 20 other ∷ [])
        (enter as_text default_scope options no_faults 10 payment empty).0 in
    (enter as_text default_scope options no_faults 90 payment
      (leave no_faults 30 scope key [] (op_write_header 201 ∷ op_write (5 ∷ []) ∷ []) s').0).1
    ≡ answered (
        replayed (
          result_of [] (
            run_ops
              (op_write_header 201 ∷ op_write (5 ∷ []) ∷ [])
              (new_capture_response_writer fresh))))
replay_after_complete_example =
    replay_after_complete as_text default_scope options no_faults no_faults 10 30 90 payment payment
      empty (entering no_faults 20 other ∷ []) scope key (1 ∷ []) (1 ∷ []) []
      (op_write_header 201 ∷ op_write (5 ∷ []) ∷ []) payment_is_through refl (omega arith, tt) refl
      (omega arith) payment_is_Ready refl
