-- ===== src/Idempotency/Events.antt =====
-- The steps of any requests on one store, and what they keep of the row of a scope and key
-- (idempotency/idempotency.go).
use service_runtime.Base.{
  ℕ, ◌<◌, ◌≡◌, ◌∙◌, inl, inr, true, false, Option, none, some, List, [], ◌∷◌, arith, if◌then◌else◌,
  All, Text, codes, is_empty, trim_space, to_ℕ, Bool-cases,
}
use service_runtime.HttpKit.{WriterOp, run_ops, new_capture_response_writer, fresh}
use service_runtime.Idempotency.Store.{
  Row, ReplayResult, Faults, select_row, new_row, begin, complete, cleanup,
}
use service_runtime.Idempotency.Middleware.{
  Options, Request, error_response, State, answered, hash_input, enter, leave, result_of,
  cleanup_if_due, enter_keyed,
}
use service_runtime.Idempotency.Rows.{
  Holds, select_row-append, select_row-delete, select_row-update,
}

module _ (hash : List ℕ → Text) (scope_func : Request → Option Text) where
  pub data Event : Type 0 where
    entering : Faults → ℕ → Request → Event
    leaving : Faults → ℕ → Text → Text → Text → List WriterOp → Event

  unfoldable pub step : Options → Event → State → State
  step o (entering f now r) s = (enter hash scope_func o f now r s).0
  step o (leaving f now scope key content_type ops) s = (leave f now scope key content_type ops s).0

  unfoldable pub run : Options → List Event → State → State
  unfolding step
  run o [] s = s
  run o (e ∷ es) s = run o es (step o e s)

  abbrev pub Before : ℕ → Event → Type 0
  Before until (entering f now r) = now < until
  Before until (leaving f now scope key content_type ops) = Unit

  pub cleanup_if_due-select :
      (o : Options) (f : Faults) (now : ℕ) (s : State) (scope key : Text) (row : Row)
      → now < row.expires_at
      → select_row scope key s.table ≡ some row
      → select_row scope key (cleanup_if_due o f now s).table ≡ some row
  unfolding cleanup_if_due cleanup
  cleanup_if_due-select o f now s scope key row l found =
      ground (arith, found, select_row-delete scope key now s.table {r = row} found l)

  pub cleanup_if_due-Holds :
      (o : Options) (f : Faults) (now : ℕ) (s : State) {scope key h : Text} {until : ℕ}
      → now < until
      → Holds scope key h until s.table
      → Holds scope key h until (cleanup_if_due o f now s).table
  cleanup_if_due-Holds o f now s {scope = scope} {key = key} l k = record {
    row = k.row;
    selected =
        cleanup_if_due-select o f now s scope key k.row (omega (arith, l, k.lasts)) k.selected;
    same_hash = k.same_hash;
    lasts = k.lasts;
  }

  -- `Begin` leaves the table or appends one row.
  begin-Holds :
      (f : Faults) (scope' key' h' : Text) (ttl now : ℕ) (t : List Row) {scope key h : Text}
      {until : ℕ}
      → Holds scope key h until t
      → Holds scope key h until (begin f scope' key' h' ttl now t).0
  unfolding begin
  begin-Holds f scope' key' h' ttl now t {scope = scope} {key = key} k = record {
    row = k.row;
    selected = ground (
      arith,
      k.selected,
      select_row-append scope key t (new_row scope' key' h' ttl now ∷ []) {r = k.row} k.selected,
    );
    same_hash = k.same_hash;
    lasts = k.lasts;
  }

  complete-Holds :
      (f : Faults) (s k' : Text) (result : ReplayResult) (at : ℕ) (t : List Row)
      {scope key h : Text} {until : ℕ}
      → Holds scope key h until t
      → Holds scope key h until (complete f s k' result at t).0
  unfolding complete
  complete-Holds f s k' result at t {scope = scope} {key = key} k =
      let (q, e, g, x) = select_row-update scope key s k' result at t k.row k.selected in
      elim (Bool-cases f.complete_fails) [
        | inl bad ↦ record {
          row = k.row;
          selected = ground (arith, bad, k.selected);
          same_hash = k.same_hash;
          lasts = k.lasts;
        }
        | inr fine ↦ record {
          row = q;
          selected = ground (arith, fine, e);
          same_hash = g ∙ k.same_hash;
          lasts = ground (arith, x, k.lasts);
        }
      ]

  pub enter_keyed-Holds :
      (o : Options) (f : Faults) (now : ℕ) (r : Request) (k : Text) (found : Option Text)
      (body : Option (List ℕ)) (s : State) {scope key h : Text} {until : ℕ}
      → now < until
      → Holds scope key h until s.table
      → Holds scope key h until (enter_keyed hash scope_func o f now r k found body s).0.table
  unfolding enter_keyed
  enter_keyed-Holds o f now r k none body s l held = held
  enter_keyed-Holds o f now r k (some scope') none s l held = held
  enter_keyed-Holds o f now r k (some scope') (some body) s l held =
      begin-Holds f scope' k (hash (hash_input r.method r.path body)) (to_ℕ o.ttl) now
        (cleanup_if_due o f now s).table (cleanup_if_due-Holds o f now s l held)

  pub enter-Holds :
      (o : Options) (f : Faults) (now : ℕ) (r : Request) (s : State) {scope key h : Text}
      {until : ℕ}
      → now < until
      → Holds scope key h until s.table
      → Holds scope key h until (enter hash scope_func o f now r s).0.table
  unfolding enter
  enter-Holds o f now r s {scope = scope} {key = key} {h = h} {until = until} l held =
      elim (is_empty (trim_space r.idempotency_key))
        as (λ b.
          Holds scope key h until
            (if b
              then (s, answered (error_response 400 (codes "missing_idempotency_key")))
              else enter_keyed hash scope_func o f now r (trim_space r.idempotency_key)
                  (scope_func r) r.body s).0.table) [
                    | true ↦ held
                    | false ↦
                        enter_keyed-Holds o f now r (trim_space r.idempotency_key) (scope_func r)
                          r.body s l held
                  ]

  step-Holds :
      (o : Options) (e : Event) (s : State) {scope key h : Text} {until : ℕ}
      → Before until e
      → Holds scope key h until s.table
      → Holds scope key h until (step o e s).table
  unfolding step leave
  step-Holds o (entering f now r) s l held = enter-Holds o f now r s l held
  step-Holds o (leaving f now s' k' content_type ops) s l held =
      complete-Holds f s' k'
        (result_of content_type (run_ops ops (new_capture_response_writer fresh))) now s.table held

  pub run-Holds :
      (o : Options) (es : List Event) (s : State) {scope key h : Text} {until : ℕ}
      → All (Before until) es
      → Holds scope key h until s.table
      → Holds scope key h until (run o es s).table
  unfolding run
  run-Holds o [] s l held = held
  run-Holds o (e ∷ es) s l held = run-Holds o es (step o e s) l.1 (step-Holds o e s l.0 held)
