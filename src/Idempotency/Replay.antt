-- ===== src/Idempotency/Replay.antt =====
-- What a repeated request is answered (idempotency/idempotency.go).
use mathlib.Core.Path.{subst}
use service_runtime.Base.{
  ℕ, ◌+◌, ◌<◌, ◌≡◌, refl, ap, sym, ◌∙◌, Bool, true, false, not, Option, none, some, List, arith,
  if◌then◌else◌, All, Text, codes, text_eq, text_eq_refl, is_empty, trim_space, to_ℕ,
}
use service_runtime.HttpKit.{WriterOp, run_ops, new_capture_response_writer, fresh}
use service_runtime.Idempotency.Store.{
  Row, ReplayResult, Faults, no_faults, BeginResult, refused, conflict, select_row, complete_row,
  update_rows, begin, replay_or_pending, complete,
}
use service_runtime.Idempotency.Middleware.{
  Options, Request, error_response, replayed, State, Admission, answered, through, hash_input,
  enter, leave, result_of, cleanup_if_due, error_of, enter_keyed, admission,
}
use service_runtime.Idempotency.Rows.{Holds, select_row-complete_row}
use service_runtime.Idempotency.Events.{Event, run, Before, cleanup_if_due-select, run-Holds}
use service_runtime.Idempotency.Once.{through-Holds}

module _ (hash : List ℕ → Text) (scope_func : Request → Option Text) where
  -- What a repeated request is answered while its row holds.
  abbrev pub Repeats : Bool → Option ReplayResult → Admission → Type 0
  Repeats false response a = a ≡ answered (error_response 409 (codes "idempotency_conflict"))
  Repeats true none a = a ≡ answered (error_response 409 (codes "idempotency_in_progress"))
  Repeats true (some result) a = a ≡ answered (replayed result)

  begin-Repeats :
      (scope key h : Text) (ttl now : ℕ) (t : List Row) (row : Row)
      → select_row scope key t ≡ some row
      → Repeats
          (text_eq row.request_hash h)
          row.response
          (admission scope key (begin no_faults scope key h ttl now t).1)
  unfolding begin admission error_of replay_or_pending
  begin-Repeats scope key h ttl now t row e = rw e (go (text_eq row.request_hash h) row.response)
    where
      go :
          (b : Bool) (o : Option ReplayResult)
          → Repeats b o (
              admission scope key
                (if◌then◌else◌ {A = List Row × BeginResult}
                  (not b)
                  (t, refused conflict)
                  (t, replay_or_pending no_faults o)).1)
      go false o = refl
      go true none = refl
      go true (some result) = refl

  -- A request whose key is not empty, whose scope is found and whose body is read.
  pub record Ready (r : Request) (scope key : Text) (b : List ℕ) : Type 0 where
    pub has_key : trim_space r.idempotency_key ≡ key
    pub not_empty : is_empty key ≡ false
    pub has_scope : scope_func r ≡ some scope
    pub has_body : r.body ≡ some b

  enter-Ready :
      (o : Options) (f : Faults) (now : ℕ) (r : Request) (s : State) (scope key : Text) (b : List ℕ)
      → Ready r scope key b
      → (enter hash scope_func o f now r s).1
        ≡ admission scope key
            (begin f scope key
              (hash (hash_input r.method r.path b))
              (to_ℕ o.ttl)
              now
              (cleanup_if_due o f now s).table).1
  unfolding enter enter_keyed
  enter-Ready o f now r s scope key b h = rw (h.has_key, h.not_empty, h.has_scope, h.has_body)

  Ready-answers :
      (o : Options) (later : ℕ) (r : Request) (s : State) (scope key : Text) (b : List ℕ)
      (row : Row)
      → Ready r scope key b
      → later < row.expires_at
      → select_row scope key s.table ≡ some row
      → Repeats
          (text_eq row.request_hash (hash (hash_input r.method r.path b)))
          row.response
          (enter hash scope_func o no_faults later r s).1
  Ready-answers o later r s scope key b row ready l found =
      rw (enter-Ready o no_faults later r s scope key b ready) (
        begin-Repeats scope key (hash (hash_input r.method r.path b)) (to_ℕ o.ttl) later
          (cleanup_if_due o no_faults later s).table row
          (cleanup_if_due-select hash scope_func o no_faults later s scope key row l found))

  -- After a request that was let through and before the expiry of its key, a request with the same
  -- scope and key is refused as a conflict if its hash is another, and else it is told that the first
  -- one is in progress or is given a stored response; the database does not fail meanwhile.
  pub enter-Repeats :
      (o : Options) (f : Faults) (now later : ℕ) (r r' : Request) (s : State)
      (es : List (Event hash scope_func)) (scope key : Text) (b b' : List ℕ)
      → (enter hash scope_func o f now r s).1 ≡ through scope key
      → r.body ≡ some b
      → All (Before hash scope_func (now + to_ℕ o.ttl)) es
      → later < now + to_ℕ o.ttl
      → Ready r' scope key b'
      → (response : Option ReplayResult) × Repeats
          (text_eq (hash (hash_input r.method r.path b)) (hash (hash_input r'.method r'.path b')))
          response
          (enter hash scope_func o no_faults later r'
            (run hash scope_func o es (enter hash scope_func o f now r s).0)).1
  enter-Repeats o f now later r r' s es scope key b b' e was_read before l ready =
      let (c, was_read', held) = through-Holds hash scope_func o f now r s scope key e in
      let same : c ≡ b = cc in
      let held' = run-Holds hash scope_func o es (enter hash scope_func o f now r s).0 before (
        subst
          (λ x.
            Holds scope key (hash (hash_input r.method r.path x)) (now + to_ℕ o.ttl)
              (enter hash scope_func o f now r s).0.table)
          same held) in
      (
        held'.row.response,
        subst
            (λ h.
              Repeats (text_eq h (hash (hash_input r'.method r'.path b'))) held'.row.response
                (enter hash scope_func o no_faults later r'
                  (run hash scope_func o es (enter hash scope_func o f now r s).0)).1)
            held'.same_hash
            (Ready-answers o later r'
              (run hash scope_func o es (enter hash scope_func o f now r s).0) scope key b'
              held'.row ready (omega (arith, l, held'.lasts)) held'.selected),
      )

  leave_stores :
      (f : Faults) (at : ℕ) (scope key content_type : Text) (ops : List WriterOp) (s : State)
      → f.complete_fails ≡ false
      → (leave f at scope key content_type ops s).0 ≡ record s {
        table =
            update_rows scope key
              (result_of content_type (run_ops ops (new_capture_response_writer fresh)))
              at
              s.table;
      }
  unfolding leave complete
  leave_stores f at scope key content_type ops s fine = ground (arith, fine)

  complete_replays :
      (o : Options) (f : Faults) (at later until : ℕ) (r : Request) (s : State) (scope key : Text)
      (b : List ℕ) (content_type : Text) (ops : List WriterOp)
      → f.complete_fails ≡ false
      → later < until
      → Ready r scope key b
      → Holds scope key (hash (hash_input r.method r.path b)) until s.table
      → (enter hash scope_func o no_faults later r (leave f at scope key content_type ops s).0).1
        ≡ answered
            (replayed (result_of content_type (run_ops ops (new_capture_response_writer fresh))))
  unfolding complete_row
  complete_replays o f at later until r s scope key b content_type ops fine l ready held =
      let result = result_of content_type (run_ops ops (new_capture_response_writer fresh)) in
      let t = update_rows scope key result at s.table in
      let stored = record s { table = t } in
      rw (leave_stores f at scope key content_type ops s fine) (
        subst
          (λ same. Repeats same (some result) (enter hash scope_func o no_faults later r stored).1)
          (ap (λ h. text_eq h (hash (hash_input r.method r.path b))) held.same_hash
            ∙ text_eq_refl _)
          (Ready-answers o later r stored scope key b (complete_row result at held.row) ready
            (omega (arith, l, held.lasts))
            (select_row-complete_row scope key result at s.table held.row held.selected)))

  -- After a request that was let through, other requests start and finish before the expiry of its
  -- key; then its handler returns and its response is stored. A request with the same scope, key and
  -- hash, before that expiry, is answered by replaying that response and does not run the handler; the
  -- database does not fail on it.
  pub replay_after_complete :
      (o : Options) (f g : Faults) (now at later : ℕ) (r r' : Request) (s : State)
      (es : List (Event hash scope_func)) (scope key : Text) (b b' : List ℕ) (content_type : Text)
      (ops : List WriterOp)
      → (enter hash scope_func o f now r s).1 ≡ through scope key
      → r.body ≡ some b
      → All (Before hash scope_func (now + to_ℕ o.ttl)) es
      → g.complete_fails ≡ false
      → later < now + to_ℕ o.ttl
      → Ready r' scope key b'
      → hash (hash_input r'.method r'.path b') ≡ hash (hash_input r.method r.path b)
      → let s' = run hash scope_func o es (enter hash scope_func o f now r s).0 in
        (enter hash scope_func o no_faults later r' (leave g at scope key content_type ops s').0).1
        ≡ answered
            (replayed (result_of content_type (run_ops ops (new_capture_response_writer fresh))))
  replay_after_complete o f g now at later r r' s es scope key b b' content_type ops e was_read
        before fine l ready same_hash =
      let (c, was_read', held) = through-Holds hash scope_func o f now r s scope key e in
      let same : c ≡ b = cc in
      complete_replays o g at later (now + to_ℕ o.ttl) r'
        (run hash scope_func o es (enter hash scope_func o f now r s).0) scope key b' content_type
        ops fine l ready
        (run-Holds hash scope_func o es (enter hash scope_func o f now r s).0 before (
          subst
            (λ h. Holds scope key h (now + to_ℕ o.ttl) (enter hash scope_func o f now r s).0.table)
            (ap (λ x. hash (hash_input r.method r.path x)) same ∙ sym same_hash) held))
