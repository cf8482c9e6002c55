-- ===== src/RateLimit/Tests.antt =====
-- Tests of ratelimit/, and its theorems at concrete inputs, over whole numbers for float64.
use service_runtime.Base.{
  ◌*◌, ◌≡◌, refl, true, false, none, some, arith, codes, [], ◌∷◌, pos, negsuc, trim_space, text_eq,
}
use service_runtime.Floats.{whole}
use service_runtime.RateLimit.Bucket.{TokenBucket, new_token_bucket, allow_at, refill, take, second}
use service_runtime.RateLimit.Bucket.Laws.{decisions, granted, burst_exact}
use service_runtime.RateLimit.Redis.{
  redis_list, redis_other, int64_value, text_value, parse_int, int64_from_any, allow_redis, decided,
}
use service_runtime.RateLimit.Limiter.{Policy, Entries, local_bucket_key, allow_with_retry}
use service_runtime.RateLimit.Limiter.Laws.{AllCapped, request, tick, run, run-AllCapped}
use service_runtime.RateLimit.Middleware.{
  Config, Request, policy_for_request, with_defaults, middleware, request_key,
}
use service_runtime.RateLimit.Middleware.Laws.{Gates, middleware-Gates}

abbrev bucket : TokenBucket whole
bucket = record { rate = 2; burst = 3; tokens = 1; last_time = second }

refills : refill whole (3 * second) bucket ≡ record bucket { tokens = 3; last_time = 3 * second }
unfolding refill
refills = refl

clock_goes_back : allow_at whole 0 bucket ≡ (record bucket { tokens = 0 }, true, 0)
unfolding allow_at refill take
clock_goes_back = refl

parses : parse_int (codes "-120") ≡ some (negsuc 119)
unfolding parse_int
parses = refl

parses_no_overflow : parse_int (codes "9223372036854775808") ≡ none
unfolding parse_int
parses_no_overflow = refl

reads_reply :
    allow_redis (redis_list (int64_value (pos 0) ∷ text_value (codes "25") ∷ []))
    ≡ decided false 25000000
unfolding allow_redis int64_from_any parse_int
reads_reply = refl

burst_exact_example :
    granted (decisions whole (new_token_bucket whole 5 2 100) (100 ∷ 7 ∷ 100 ∷ 99 ∷ [])) ≡ 2
burst_exact_example =
    burst_exact whole 5 2 100 refl refl (omega arith) (100 ∷ 7 ∷ 100 ∷ 99 ∷ []) (omega arith)

abbrev policy : Policy whole
policy = record { requests_per_second = 1; burst = 2; scope = codes "api"; exempt = false }

run-AllCapped_example : AllCapped whole (
    run whole
      (request policy (codes "ann") 5
        ∷ tick 3 20
        ∷ request (record policy { burst = 1 }) (codes "bob") 30
        ∷ [])
      [])
run-AllCapped_example = run-AllCapped whole (
    request policy (codes "ann") 5
    ∷ tick 3 20
    ∷ request (record policy { burst = 1 }) (codes "bob") 30
    ∷ [])

abbrev table : Entries whole
table =
    (local_bucket_key (codes "api") (codes "bob"), record { limiter = bucket; last_seen = 4 }) ∷ []

abbrev bare : Config whole
bare = record {
  requests_per_second = 0;
  burst = negsuc 2;
  cleanup_interval = pos 0;
  max_age = pos 0;
  exempt_paths = none;
}

abbrev call : Request whole
call = record {
  path = codes "/v1";
  key = codes " ";
  scope = codes " api ";
  override = some (record { requests_per_second = 0; burst = pos 7; scope = []; exempt = false });
}

policy_of_call :
    policy_for_request whole (with_defaults whole bare) call
    ≡ record { requests_per_second = 100; burst = 7; scope = codes "api"; exempt = false }
unfolding policy_for_request with_defaults trim_space text_eq
policy_of_call = refl

middleware-Gates_example :
    Gates whole
      (policy_for_request whole bare call)
      []
      (allow_with_retry whole
        (some redis_other)
        (policy_for_request whole bare call)
        (request_key whole (codes " "))
        5
        [])
      (middleware whole bare (some redis_other) 5 call [])
middleware-Gates_example = middleware-Gates whole bare (some redis_other) 5 call []
