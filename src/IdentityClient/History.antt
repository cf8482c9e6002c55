-- ===== src/IdentityClient/History.antt =====
-- A history of calls of `IntrospectProto` (identityclient/client.go), and what the identity service
-- said last of each token in it.
use service_runtime.Base.{
  ℕ, ◌+◌, Bool, ◌||◌, Option, none, some, List, [], ◌∷◌, leb, ◌==◌, if◌then◌else◌, Text, text_eq,
}
use service_runtime.IdentityClient.LruCache.{text_keys}
use service_runtime.IdentityClient.Client.{Result, CachedIntrospection, Client}
use service_runtime.IdentityClient.Introspect.{
  Body, unreadable, undecodable, decoded, Exchange, not_built, not_sent, answered, introspect_proto,
}

-- What the identity service has said of a token: nothing can be told in an outage.
pub data Verdict (R : Type 0) : Type 0 where
  accepts : R → Verdict R
  rejects unknown : Verdict R

-- A call of `IntrospectProto`, with what comes of its request
pub record Call (R : Type 0) : Type 0 where
  pub now : ℕ
  pub later : ℕ
  pub token : Text
  pub exchange : Exchange R

-- An outage: a timeout, too many requests, or an error of the server.
abbrev pub is_outage : ℕ → Bool
is_outage status = status == 408 || status == 429 || leb 500 status

-- What each token was last accepted with, or that it was not or was rejected since.
abbrev pub Memory : Type 0 → Type 0
Memory R = Text → Option (ℕ × R)

module _ {R : Type 0} where
  -- The result that an entry of the cache stands for: accepted at a time, it expires later.
  abbrev pub entry_of : ℕ → ℕ × R → CachedIntrospection R
  entry_of ttl (at, r) = record { expires_at = at + ttl; result = r }

  abbrev pub entry_of? : ℕ → Option (ℕ × R) → Option (CachedIntrospection R)
  entry_of? ttl none = none
  entry_of? ttl (some x) = some (entry_of ttl x)

  unfoldable pub heard : Verdict R → ℕ → Text → Memory R → Memory R
  heard (accepts r) later token memory t = if text_eq token t then some (later, r) else memory t
  heard rejects later token memory t = if text_eq token t then none else memory t
  heard unknown later token memory t = memory t

module _ {R : Type 0} (get_active : R → Bool) where
  unfoldable pub verdict_of_body : Body R → Verdict R
  verdict_of_body (unreadable e) = unknown
  verdict_of_body (undecodable e) = unknown
  verdict_of_body (decoded r) = if get_active r then accepts r else rejects

  unfoldable pub verdict : Exchange R → Verdict R
  unfolding verdict_of_body
  verdict (not_built e) = unknown
  verdict (not_sent e) = unknown
  verdict (answered status body) =
      if status == 200 then verdict_of_body body else if is_outage status then unknown else rejects

  -- The service's last word on each token
  unfoldable pub hear : Call R → Memory R → Memory R
  unfolding heard
  hear x memory = heard (verdict x.exchange) x.later x.token memory

  unfoldable pub last_accepted : List (Call R) → Memory R → Memory R
  last_accepted [] memory = memory
  last_accepted (x ∷ xs) memory = last_accepted xs (hear x memory)

  unfoldable pub make_call : Call R → Client R → Client R × Result R
  make_call x c = introspect_proto get_active x.now x.later x.token x.exchange c

  -- The calls one after another.
  unfoldable pub run_calls : List (Call R) → Client R → Client R
  run_calls [] c = c
  run_calls (x ∷ xs) c = run_calls xs (make_call x c).0
