-- ===== src/RateLimit/Limiter.antt =====
-- The table of buckets of ratelimit/ratelimit.go, and the fallback from Redis to it.
-- `allowLocal` runs as one step; what the script in Redis answers is an argument.
pub mod Laws
use service_runtime.Base.{
  ℕ, suc, ◌+◌, ◌-◌, ◌*◌, ◌%◌, ◌^◌, Bool, true, false, not, ◌&&◌, ◌||◌, Option, none, some, List, [],
  ◌∷◌, ◌++◌, leb, ltb, ◌==◌, if◌then◌else◌, to_ℕ, ℤ, pos, negsuc, is_nonpositive, Text, codes,
  is_empty, trim_space, lookup_key, insert_key, keep_entries,
}
use service_runtime.Floats.{Float64}
use service_runtime.RateLimit.Redis.{
  RedisReply, RedisError, RedisDecision, decided, undecided, allow_redis,
}
use service_runtime.RateLimit.Bucket.{
  TokenBucket, new_token_bucket, allow_at, reconfigure_at, second, millisecond,
}

module _ (fl : Float64) where
  open fl use {F, eq}

  pub record Policy : Type 0 where
    pub requests_per_second : F
    pub burst : ℕ
    pub scope : Text
    pub exempt : Bool

  pub record Entry : Type 0 where
    pub limiter : TokenBucket fl
    pub last_seen : ℕ

  abbrev pub Entries : Type 0
  Entries = List (Text × Entry)

unfoldable pub local_bucket_key : Text → Text → Text
local_bucket_key scope key = scope ++ codes "\n" ++ key

-- `AllowContext` without a request
unfoldable pub global_policy : (fl : Float64) → fl.F → ℕ → Policy fl
global_policy fl rate burst = record {
  requests_per_second = rate;
  burst = burst;
  scope = codes "global";
  exempt = false;
}

module _ (fl : Float64) where
  open fl use {F, eq}

  -- The bucket that a request meets: a new one, or the old one under the present policy.
  unfoldable pub bucket_for : Policy fl → ℕ → Option (Entry fl) → TokenBucket fl
  bucket_for p now none = new_token_bucket fl p.requests_per_second p.burst now
  bucket_for p now (some e) =
      let b = e.limiter in
      if not (eq b.rate p.requests_per_second) || not (b.burst == p.burst)
      then reconfigure_at fl p.requests_per_second p.burst now b
      else b

  unfoldable pub allow_local : Policy fl → Text → ℕ → Entries fl → Entries fl × Bool × ℕ
  unfolding local_bucket_key bucket_for
  allow_local p key now m =
      let k = local_bucket_key p.scope key in
      let (b, allowed, retry) = allow_at fl now (bucket_for p now (lookup_key k m)) in
      (insert_key k (record { limiter = b; last_seen = now }) m, allowed, retry)

  -- One tick of `cleanup`: `entry.lastSeen.Before(now.Add(-MaxAge))` is deleted.
  unfoldable pub cleanup : ℕ → ℕ → Entries fl → Entries fl
  cleanup max_age now m = keep_entries (λ e. not (ltb (e.last_seen + max_age) now)) m

module _ (fl : Float64) where
  local_then : Option RedisError → Entries fl × Bool × ℕ → Entries fl × Bool × ℕ × Option RedisError
  local_then err (m, allowed, retry) = (m, allowed, retry, err)

  with_decision :
      RedisDecision → Policy fl → Text → ℕ → Entries fl → Entries fl × Bool × ℕ × Option RedisError
  unfolding local_then
  with_decision (decided allowed retry) p key now m = (m, allowed, retry, none)
  with_decision (undecided err) p key now m = local_then (some err) (allow_local fl p key now m)

  -- `allowWithRetry`; no Redis client is `none`.
  unfoldable pub allow_with_retry :
      Option RedisReply
      → Policy fl
      → Text
      → ℕ
      → Entries fl
      → Entries fl × Bool × ℕ × Option RedisError
  unfolding local_then with_decision
  allow_with_retry none p key now m = local_then none (allow_local fl p key now m)
  allow_with_retry (some reply) p key now m = with_decision (allow_redis reply) p key now m
