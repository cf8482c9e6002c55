-- ===== src/RateLimit/Bucket.antt =====
-- The token bucket of ratelimit/ratelimit.go. Times are in nanoseconds.
pub mod Laws
use service_runtime.Base.{ℕ, ◌+◌, ◌-◌, ◌/◌, ◌%◌, Bool, true, false, ltb, if◌then◌else◌, to_ℕ}
use service_runtime.Floats.{Float64}

abbrev pub second : ℕ
second = 1000000000

abbrev pub millisecond : ℕ
millisecond = 1000000

-- A clock that went back counts as one that stood still.
abbrev advance : ℕ → ℕ → ℕ
advance now last = if ltb now last then last else now

module _ (fl : Float64) where
  open fl use {F, lt, le, add, sub, mul, div, ceil, of_int, to_int}

  pub record TokenBucket : Type 0 where
    pub rate : F
    pub burst : ℕ
    pub tokens : F
    pub last_time : ℕ

  unfoldable pub new_token_bucket : F → ℕ → ℕ → TokenBucket
  new_token_bucket rate burst now = record {
    rate = rate;
    burst = burst;
    tokens = of_int burst;
    last_time = now;
  }

  -- `time.Duration.Seconds`
  unfoldable pub seconds : ℕ → F
  seconds d = add (of_int (d / second)) (div (of_int (d % second)) (of_int second))

  unfoldable pub capped : ℕ → F → F
  capped burst tokens = if lt (of_int burst) tokens then of_int burst else tokens

  unfoldable pub refill : ℕ → TokenBucket → TokenBucket
  unfolding seconds capped
  refill now b =
      let now' = advance now b.last_time in
      record b {
        tokens = capped b.burst (add b.tokens (mul (seconds (now' - b.last_time)) b.rate));
        last_time = now';
      }

  retry_after : F → F → ℕ
  retry_after rate tokens =
      let wait = to_ℕ (to_int (ceil (mul (div (sub (of_int 1) tokens) rate) (of_int second)))) in
      if le rate (of_int 0) then second else if ltb wait millisecond then millisecond else wait

  -- Whether a token was taken, and else when to try again.
  unfoldable pub take : TokenBucket → TokenBucket × Bool × ℕ
  unfolding retry_after
  take c =
      if le (of_int 1) c.tokens
      then (record c { tokens = sub c.tokens (of_int 1) }, true, 0)
      else (c, false, retry_after c.rate c.tokens)

  unfoldable pub allow_at : ℕ → TokenBucket → TokenBucket × Bool × ℕ
  allow_at now b = take (refill now b)

  unfoldable pub reconfigure_at : F → ℕ → ℕ → TokenBucket → TokenBucket
  unfolding refill capped
  reconfigure_at rate burst now b =
      let c = refill now b in
      record c { rate = rate; burst = burst; tokens = capped burst c.tokens }
