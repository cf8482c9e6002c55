-- ===== src/Idempotency/Store.antt =====
-- `PostgresStore` of idempotency/idempotency.go. The table is the list of its rows, the SQL
-- statements are what they do to it, and which calls of the database fail is an argument: a
-- transaction that is not committed leaves the table as it was.
use service_runtime.Base.{
  ℕ, ◌+◌, Bool, true, false, not, ◌&&◌, Option, none, some, List, [], ◌∷◌, ◌++◌, leb, if◌then◌else◌,
  Text, text_eq,
}

pub record ReplayResult : Type 0 where
  pub status_code : ℕ
  pub content_type : Text
  pub body : List ℕ

-- A row of api_idempotency_keys; the columns of the response are null together.
pub record Row : Type 0 where
  pub scope : Text
  pub key : Text
  pub request_hash : Text
  pub response : Option ReplayResult
  pub created_at : ℕ
  pub expires_at : ℕ
  pub completed_at : Option ℕ

-- Which calls of the database fail.
pub record Faults : Type 0 where
  pub begin_fails : Bool
  pub query_fails : Bool
  pub insert_fails : Bool
  pub commit_fails : Bool
  pub complete_fails : Bool
  pub cleanup_fails : Bool

abbrev pub no_faults : Faults
no_faults = record {
  begin_fails = false;
  query_fails = false;
  insert_fails = false;
  commit_fails = false;
  complete_fails = false;
  cleanup_fails = false;
}

pub data BeginError : Type 0 where
  conflict pending database_error : BeginError

pub data BeginResult : Type 0 where
  started : BeginResult
  replay : ReplayResult → BeginResult
  refused : BeginError → BeginResult

abbrev pub is_row : Text → Text → Row → Bool
is_row scope key r = text_eq r.scope scope && text_eq r.key key

-- The select by scope and key.
unfoldable pub select_row : Text → Text → List Row → Option Row
select_row scope key [] = none
select_row scope key (r ∷ rs) =
    let rest = select_row scope key rs in if is_row scope key r then some r else rest

-- `delete ... where expires_at <= $1`
unfoldable pub delete_expired : ℕ → List Row → List Row
delete_expired now [] = []
delete_expired now (r ∷ rs) =
    let rest = delete_expired now rs in if leb r.expires_at now then rest else r ∷ rest

unfoldable pub complete_row : ReplayResult → ℕ → Row → Row
complete_row result at r = record r { response = some result; completed_at = some at }

-- `update ... where scope = $5 and idempotency_key = $6`
unfoldable pub update_rows : Text → Text → ReplayResult → ℕ → List Row → List Row
unfolding complete_row
update_rows scope key result at [] = []
update_rows scope key result at (r ∷ rs) =
    (if is_row scope key r then complete_row result at r else r)
    ∷ update_rows scope key result at rs

unfoldable pub cleanup : Faults → ℕ → List Row → List Row
unfolding delete_expired
cleanup f now t = if f.cleanup_fails then t else delete_expired now t

unfoldable pub replay_or_pending : Faults → Option ReplayResult → BeginResult
replay_or_pending f none = refused pending
replay_or_pending f (some r) = if f.commit_fails then refused database_error else replay r

unfoldable pub new_row : Text → Text → Text → ℕ → ℕ → Row
new_row scope key hash ttl now = record {
  scope = scope;
  key = key;
  request_hash = hash;
  response = none;
  created_at = now;
  expires_at = now + ttl;
  completed_at = none;
}

unfoldable pub begin_with :
    Faults → Text → Text → Text → ℕ → ℕ → List Row → Option Row → List Row × BeginResult
unfolding replay_or_pending new_row
begin_with f scope key hash ttl now t none =
    if f.insert_fails
    then (t, refused database_error)
    else if f.commit_fails
    then (t, refused database_error)
    else (t ++ new_row scope key hash ttl now ∷ [], started)
begin_with f scope key hash ttl now t (some r) =
    if not (text_eq r.request_hash hash)
    then (t, refused conflict)
    else (t, replay_or_pending f r.response)

unfoldable pub begin : Faults → Text → Text → Text → ℕ → ℕ → List Row → List Row × BeginResult
unfolding begin_with
begin f scope key hash ttl now t =
    if f.begin_fails
    then (t, refused database_error)
    else if f.query_fails
    then (t, refused database_error)
    else begin_with f scope key hash ttl now t (select_row scope key t)

unfoldable pub complete : Faults → Text → Text → ReplayResult → ℕ → List Row → List Row × Bool
complete f scope key result at t =
    if f.complete_fails then (t, false) else (update_rows scope key result at t, true)
