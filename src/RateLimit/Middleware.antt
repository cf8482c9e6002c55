-- ===== src/RateLimit/Middleware.antt =====
-- The configuration, the policy of a request and the HTTP middleware of ratelimit/ratelimit.go, with
-- the label rule of ratelimit/metrics.go. What the configured functions return for a request are
-- fields of the request.
pub mod Laws
use service_runtime.Base.{
  ℕ, ◌+◌, ◌*◌, Bool, true, false, not, ◌||◌, Option, none, some, List, [], ◌∷◌, ltb, if◌then◌else◌,
  to_ℕ, ℤ, pos, is_nonpositive, Text, codes, is_empty, trim_space, text_eq,
}
use service_runtime.Floats.{Float64}
use service_runtime.RateLimit.Bucket.{seconds, second}
use service_runtime.RateLimit.Redis.{RedisReply, RedisError}
use service_runtime.RateLimit.Limiter.{Policy, Entries, allow_with_retry}

module _ (fl : Float64) where
  open fl use {F, lt, le, ceil, of_int, to_int}

  pub record Config : Type 0 where
    pub requests_per_second : F
    pub burst : ℤ
    pub cleanup_interval : ℤ
    pub max_age : ℤ
    pub exempt_paths : Option (Text → Bool)

  default_exempt_paths : Text → Bool
  default_exempt_paths path =
      text_eq path (codes "/healthz")
      || text_eq path (codes "/readyz")
      || text_eq path (codes "/metrics")

  -- `withDefaults`, for the fields that are no functions
  unfoldable pub with_defaults : Config → Config
  unfolding default_exempt_paths
  with_defaults c = record {
    requests_per_second =
        if le c.requests_per_second (of_int 0) then of_int 100 else c.requests_per_second;
    burst = if is_nonpositive c.burst then pos 200 else c.burst;
    cleanup_interval =
        if is_nonpositive c.cleanup_interval then pos (60 * second) else c.cleanup_interval;
    max_age = if is_nonpositive c.max_age then pos (300 * second) else c.max_age;
    exempt_paths = some (elim c.exempt_paths [ none ↦ default_exempt_paths | some f ↦ f ]);
  }

  -- The result of PolicyFunc.
  pub record Override : Type 0 where
    pub requests_per_second : F
    pub burst : ℤ
    pub scope : Text
    pub exempt : Bool

  pub record Request : Type 0 where
    pub path : Text
    pub key : Text
    pub scope : Text
    pub override : Option Override

  is_exempt_path : Option (Text → Bool) → Text → Bool
  is_exempt_path none path = false
  is_exempt_path (some f) path = f path

  base_policy : Config → Request → Policy fl
  unfolding is_exempt_path
  base_policy c r =
      let scope = trim_space r.scope in
      record {
        requests_per_second = c.requests_per_second;
        burst = to_ℕ c.burst;
        scope = if is_empty scope then r.path else scope;
        exempt = is_exempt_path c.exempt_paths r.path;
      }

  apply_override : Option Override → Policy fl → Policy fl
  apply_override none p = p
  apply_override (some o) p =
      let scoped = trim_space o.scope in
      record {
        requests_per_second =
            if lt (of_int 0) o.requests_per_second
            then o.requests_per_second
            else p.requests_per_second;
        burst = if is_nonpositive o.burst then p.burst else to_ℕ o.burst;
        scope = if is_empty scoped then p.scope else scoped;
        exempt = o.exempt || p.exempt;
      }

  unfoldable pub policy_for_request : Config → Request → Policy fl
  unfolding base_policy apply_override
  policy_for_request c r =
      let p = apply_override r.override (base_policy c r) in
      if is_empty p.scope then record p { scope = codes "unknown" } else p

  -- A response of the middleware itself, with its Retry-After, or what the next handler writes.
  pub data Response : Type 0 where
    next_handler : Response
    too_many_requests : ℕ → Response

  -- `metrics.record`: the labels that are counted.
  unfoldable pub labels : Text → Text → Text × Text
  labels route action = (
    if is_empty (trim_space route) then codes "unknown" else route,
    if is_empty (trim_space action) then codes "unknown" else action,
  )

  unfoldable pub retry_seconds : ℕ → ℕ
  unfolding seconds
  retry_seconds retry = let s = to_ℕ (to_int (ceil (seconds fl retry))) in if ltb s 1 then 1 else s

  -- The table, the response, the labels of the metric, and the error for OnError.
  pub record Served : Type 0 where
    pub entries : Entries fl
    pub response : Response
    pub counted : Text × Text
    pub error : Option RedisError

  unfoldable pub request_key : Text → Text
  request_key raw = let key = trim_space raw in if is_empty key then codes "anonymous" else key

  decided : Policy fl → Entries fl × Bool × ℕ × Option RedisError → Served
  unfolding labels retry_seconds
  decided p (m, allowed, retry, err) = record {
    entries = m;
    response = if allowed then next_handler else too_many_requests (retry_seconds retry);
    counted = labels p.scope (if allowed then codes "allowed" else codes "limited");
    error = err;
  }

  gate : Bool → Policy fl → Entries fl → Entries fl × Bool × ℕ × Option RedisError → Served
  unfolding decided labels
  gate true p m d = record {
    entries = m;
    response = next_handler;
    counted = labels p.scope (codes "exempt");
    error = none;
  }
  gate false p m d = decided p d

  -- The handler that `Middleware` returns, with the reply of Redis if there is a client.
  unfoldable pub middleware : Config → Option RedisReply → ℕ → Request → Entries fl → Served
  unfolding gate request_key
  middleware c reply now r m =
      let p = policy_for_request c r in
      gate p.exempt p m (allow_with_retry fl reply p (request_key r.key) now m)
