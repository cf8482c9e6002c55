-- ===== src/Idempotency/Rows.antt =====
-- What the statements of the store do to the row of one scope and key (idempotency/idempotency.go).
use service_runtime.Base.{
  ℕ, ◌≤◌, ◌<◌, ◌≡◌, inl, inr, true, none, some, List, [], ◌∷◌, ◌++◌, arith, if◌then◌else◌, Text,
  Bool-cases,
}
use service_runtime.Idempotency.Store.{
  Row, ReplayResult, is_row, select_row, delete_expired, complete_row, update_rows,
}

-- The row of the scope and key was made for this request hash and does not expire before `until`.
pub record Holds (scope key hash : Text) (until : ℕ) (t : List Row) : Type 0 where
  pub row : Row
  pub selected : select_row scope key t ≡ some row
  pub same_hash : row.request_hash ≡ hash
  pub lasts : until ≤ row.expires_at

pub select_row-append :
    (scope key : Text) (t u : List Row) {r : Row}
    → select_row scope key t ≡ some r
    → select_row scope key (t ++ u) ≡ some r
unfolding select_row
select_row-append scope key [] u h = cc
select_row-append scope key (x ∷ t) u {r = r} h =
    ground (arith, select_row-append scope key t u {r = r})

pub select_row-append_new :
    (scope key : Text) (t : List Row) (r : Row)
    → select_row scope key t ≡ none
    → is_row scope key r ≡ true
    → select_row scope key (t ++ r ∷ []) ≡ some r
unfolding select_row
select_row-append_new scope key [] r h m = rw m
select_row-append_new scope key (x ∷ t) r h m = ground (arith, select_row-append_new scope key t r)

pub select_row-delete :
    (scope key : Text) (now : ℕ) (t : List Row) {r : Row}
    → select_row scope key t ≡ some r
    → now < r.expires_at
    → select_row scope key (delete_expired now t) ≡ some r
unfolding select_row delete_expired
select_row-delete scope key now [] h l = cc
select_row-delete scope key now (x ∷ t) {r = r} h l =
    ground (arith, select_row-delete scope key now t {r = r})

-- An update of any key keeps the hash and the expiry of the row.
pub select_row-update :
    (scope key s k : Text) (result : ReplayResult) (at : ℕ) (t : List Row) (r : Row)
    → select_row scope key t ≡ some r
    → (q : Row) × (select_row scope key (update_rows s k result at t) ≡ some q)
      × (q.request_hash ≡ r.request_hash)
      × (q.expires_at ≡ r.expires_at)
unfolding select_row update_rows
select_row-update scope key s k result at [] r h = cc
select_row-update scope key s k result at (x ∷ t) r h = elim (Bool-cases (is_row scope key x)) [
  | inl hit ↦ (
    if is_row s k x then complete_row result at x else x,
    ground arith,
    ground arith,
    ground arith,
  )
  | inr miss ↦
      let (q, e, f, g) = select_row-update scope key s k result at t r (ground arith) in
      (q, ground arith, f, g)
]

pub select_row-complete_row :
    (scope key : Text) (result : ReplayResult) (at : ℕ) (t : List Row) (r : Row)
    → select_row scope key t ≡ some r
    → select_row scope key (update_rows scope key result at t) ≡ some (complete_row result at r)
unfolding select_row update_rows complete_row
select_row-complete_row scope key result at [] r h = cc
select_row-complete_row scope key result at (x ∷ t) r h =
    ground (arith, select_row-complete_row scope key result at t r)
