-- ===== src/Idempotency/Once.antt =====
-- The requests that are let through to the handler (idempotency/idempotency.go).
use mathlib.Core.Path.{subst}
use service_runtime.Base.{
  ℕ, ◌+◌, ◌<◌, ◌≡◌, refl, ap, sym, ◌∙◌, inl, inr, true, Option, none, some, List, [], ◌∷◌, ◌++◌,
  arith, All, Text, text_eq_refl, is_empty, trim_space, to_ℕ, Bool-cases,
}
use service_runtime.Idempotency.Store.{
  Row, Faults, BeginResult, started, is_row, select_row, new_row, begin,
}
use service_runtime.Idempotency.Middleware.{
  Options, Request, State, through, hash_input, enter, cleanup_if_due, error_of, enter_keyed,
  admission,
}
use service_runtime.Idempotency.Rows.{Holds, select_row-append_new}
use service_runtime.Idempotency.Events.{Event, run, Before, cleanup_if_due-Holds, run-Holds}

module _ (hash : List ℕ → Text) (scope_func : Request → Option Text) where
  begin_starts :
      (f : Faults) (scope key h : Text) (ttl now : ℕ) (t : List Row)
      → (begin f scope key h ttl now t).1 ≡ started
      → ((begin f scope key h ttl now t).0 ≡ t ++ new_row scope key h ttl now ∷ [])
        × (select_row scope key t ≡ none)
  unfolding begin
  begin_starts f scope key h ttl now t e = (ground arith, ground arith)

  new_row-is_row :
      (scope key h : Text) (ttl now : ℕ) → is_row scope key (new_row scope key h ttl now) ≡ true
  unfolding new_row
  new_row-is_row scope key h ttl now = rw (text_eq_refl scope) (text_eq_refl key)

  -- A row that holds is never let through again.
  begin_held :
      (f : Faults) (scope key h h' : Text) (ttl now until : ℕ) (t : List Row)
      → Holds scope key h until t
      → ¬ ((begin f scope key h' ttl now t).1 ≡ started)
  unfolding begin
  begin_held f scope key h h' ttl now until t held e = ground (arith, held.selected, e)

  admission-through :
      (s k scope key : Text) (b : BeginResult)
      → admission s k b ≡ through scope key
      → (b ≡ started) × (s ≡ scope) × (k ≡ key)
  unfolding admission error_of
  admission-through s k scope key b e = (ground arith, ground arith, ground arith)

  enter_keyed-not_through :
      (o : Options) (f : Faults) (now : ℕ) (r : Request) (k : Text) (found : Option Text)
      (body : Option (List ℕ)) (s : State) (scope key h : Text) (until : ℕ)
      → now < until
      → Holds scope key h until s.table
      → ¬ ((enter_keyed hash scope_func o f now r k found body s).1 ≡ through scope key)
  unfolding enter_keyed
  enter_keyed-not_through o f now r k none body s scope key h until l held e = cc
  enter_keyed-not_through o f now r k (some s') none s scope key h until l held e = cc
  enter_keyed-not_through o f now r k (some s') (some b) s scope key h until l held e =
      let t = (cleanup_if_due o f now s).table in
      let h' = hash (hash_input r.method r.path b) in
      let (st, es, ek) =
        admission-through s' k scope key (begin f s' k h' (to_ℕ o.ttl) now t).1 e in
      begin_held f scope key h h' (to_ℕ o.ttl) now until t
        (cleanup_if_due-Holds hash scope_func o f now s l held)
        (subst (λ a. (begin f a key h' (to_ℕ o.ttl) now t).1 ≡ started) es
          (subst (λ a. (begin f s' a h' (to_ℕ o.ttl) now t).1 ≡ started) ek st))

  begin_starts-Holds :
      (f : Faults) (scope key h : Text) (ttl now : ℕ) (t : List Row)
      → (begin f scope key h ttl now t).1 ≡ started
      → Holds scope key h (now + ttl) (begin f scope key h ttl now t).0
  unfolding new_row
  begin_starts-Holds f scope key h ttl now t e =
      let (grown, missing) = begin_starts f scope key h ttl now t e in
      record {
        row = new_row scope key h ttl now;
        selected =
            ap (select_row scope key) grown
            ∙ select_row-append_new scope key t (new_row scope key h ttl now) missing
                (new_row-is_row scope key h ttl now);
        same_hash = refl;
        lasts = omega arith;
      }

  enter_keyed-Started :
      (o : Options) (f : Faults) (now : ℕ) (r : Request) (k : Text) (found : Option Text)
      (body : Option (List ℕ)) (s : State) (scope key : Text)
      → (enter_keyed hash scope_func o f now r k found body s).1 ≡ through scope key
      → (b : List ℕ) × (body ≡ some b)
        × Holds scope key
            (hash (hash_input r.method r.path b))
            (now + to_ℕ o.ttl)
            (enter_keyed hash scope_func o f now r k found body s).0.table
  unfolding enter_keyed
  enter_keyed-Started o f now r k none body s scope key e = cc
  enter_keyed-Started o f now r k (some s') none s scope key e = cc
  enter_keyed-Started o f now r k (some s') (some b) s scope key e =
      let t = (cleanup_if_due o f now s).table in
      let h' = hash (hash_input r.method r.path b) in
      let (st, es, ek) =
        admission-through s' k scope key (begin f s' k h' (to_ℕ o.ttl) now t).1 e in
      (
        b,
        refl,
        subst (λ a. Holds a key h' (now + to_ℕ o.ttl) (begin f s' k h' (to_ℕ o.ttl) now t).0) es
            (subst (λ a. Holds s' a h' (now + to_ℕ o.ttl) (begin f s' k h' (to_ℕ o.ttl) now t).0) ek
              (begin_starts-Holds f s' k h' (to_ℕ o.ttl) now t st)),
      )

  abbrev entry_key : Request → Text
  entry_key r = trim_space r.idempotency_key

  -- What `enter` answers to a request is what `enter_keyed` does, or 400.
  enter-keyed :
      (o : Options) (f : Faults) (now : ℕ) (r : Request) (s : State) (scope key : Text)
      → (enter hash scope_func o f now r s).1 ≡ through scope key
      → enter hash scope_func o f now r s
        ≡ enter_keyed hash scope_func o f now r (entry_key r) (scope_func r) r.body s
  unfolding enter
  enter-keyed o f now r s scope key e = elim (Bool-cases (is_empty (entry_key r))) [
    | inl b ↦ ground arith
    | inr b ↦ rw b refl
  ]

  pub through-Holds :
      (o : Options) (f : Faults) (now : ℕ) (r : Request) (s : State) (scope key : Text)
      → (enter hash scope_func o f now r s).1 ≡ through scope key
      → (b : List ℕ) × (r.body ≡ some b)
        × Holds scope key
            (hash (hash_input r.method r.path b))
            (now + to_ℕ o.ttl)
            (enter hash scope_func o f now r s).0.table
  through-Holds o f now r s scope key e =
      let keyed = enter-keyed o f now r s scope key e in
      let (b, was_read, held) =
        enter_keyed-Started o f now r (entry_key r) (scope_func r) r.body s scope key
          (ap (λ x. x.1) (sym keyed) ∙ e) in
      (
        b,
        was_read,
        subst
            (λ x.
              Holds scope key (hash (hash_input r.method r.path b)) (now + to_ℕ o.ttl) x.0.table)
            (sym keyed) held,
      )

  -- Between a request that is let through and the expiry of its key, whatever other requests start
  -- and finish, no request with the same scope and key is let through.
  pub let_through_once :
      (o : Options) (f g : Faults) (now later : ℕ) (r r' : Request) (s : State)
      (es : List (Event hash scope_func)) (scope key : Text)
      → (enter hash scope_func o f now r s).1 ≡ through scope key
      → All (Before hash scope_func (now + to_ℕ o.ttl)) es
      → later < now + to_ℕ o.ttl
      → let s' = run hash scope_func o es (enter hash scope_func o f now r s).0 in
        ¬ ((enter hash scope_func o g later r' s').1 ≡ through scope key)
  let_through_once o f g now later r r' s es scope key e before l e' =
      let (b, was_read, held) = through-Holds o f now r s scope key e in
      let s' = run hash scope_func o es (enter hash scope_func o f now r s).0 in
      let held' =
        run-Holds hash scope_func o es (enter hash scope_func o f now r s).0 before held in
      enter_keyed-not_through o g later r' (entry_key r') (scope_func r') r'.body s' scope key _ _ l
        held' (ap (λ x. x.1) (sym (enter-keyed o g later r' s' scope key e')) ∙ e')
