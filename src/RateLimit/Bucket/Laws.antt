-- ===== src/RateLimit/Bucket/Laws.antt =====
-- What a bucket holds and how many requests it lets through at once (ratelimit/ratelimit.go).
use service_runtime.Base.{
  min, length, All, ℕ, zero, suc, ◌+◌, ◌-◌, ◌^◌, ◌≤◌, ◌≡◌, ◌∙◌, Bool, true, false, ltb,
  if◌then◌else◌, arith, Bool-cases, inl, inr, List, [], ◌∷◌,
}
use service_runtime.Floats.{Float64}
use service_runtime.RateLimit.Bucket.{
  TokenBucket, take, new_token_bucket, capped, refill, allow_at, reconfigure_at, advance, second,
}

abbrev pub granted : List Bool → ℕ
granted [] = 0
granted (d ∷ ds) = (if d then 1 else 0) + granted ds

module _ (fl : Float64) where
  open fl use {
    F, lt, le, add, sub, mul, div, of_int, is_inf, is_nan, lt_irrefl, lt_sub_one, lt_of_ints,
    le_of_ints, sub_one, add_no_time,
  }

  -- A bucket does not hold more tokens than its burst.
  abbrev pub IsCapped : TokenBucket fl → Type 0
  IsCapped b = lt (of_int b.burst) b.tokens ≡ false

  capped-le : (burst : ℕ) (x : F) → lt (of_int burst) (capped fl burst x) ≡ false
  unfolding capped
  capped-le burst x = elim (Bool-cases (lt (of_int burst) x)) [
    | inl over ↦ rw over (lt_irrefl (of_int burst))
    | inr fits ↦ rw (fits, fits)
  ]

  pub new_token_bucket-IsCapped :
      (rate : F) (burst now : ℕ) → IsCapped (new_token_bucket fl rate burst now)
  unfolding new_token_bucket
  new_token_bucket-IsCapped rate burst now = lt_irrefl (of_int burst)

  refill-IsCapped : (now : ℕ) (b : TokenBucket fl) → IsCapped (refill fl now b)
  unfolding refill
  refill-IsCapped now b = capped-le b.burst _

  reconfigure_at-IsCapped :
      (rate : F) (burst now : ℕ) (b : TokenBucket fl)
      → IsCapped (reconfigure_at fl rate burst now b)
  unfolding reconfigure_at
  reconfigure_at-IsCapped rate burst now b = capped-le burst _

  take-IsCapped : (c : TokenBucket fl) → IsCapped c → IsCapped (take fl c).0
  unfolding take
  take-IsCapped c h = elim (Bool-cases (le (of_int 1) c.tokens)) [
    | inl taken ↦ rw taken (lt_sub_one _ _ h)
    | inr none_left ↦ rw none_left h
  ]

  pub allow_at-IsCapped : (now : ℕ) (b : TokenBucket fl) → IsCapped (allow_at fl now b).0
  unfolding allow_at
  allow_at-IsCapped now b = take-IsCapped (refill fl now b) (refill-IsCapped now b)

  -- A bucket with n whole tokens, at a time that is not after its last one.
  holds : F → ℕ → ℕ → ℕ → TokenBucket fl
  holds rate burst n last = record {
    rate = rate;
    burst = burst;
    tokens = of_int n;
    last_time = last;
  }

  refill-no_time :
      (rate : F) (burst n now last : ℕ)
      → is_inf rate ≡ false
      → is_nan rate ≡ false
      → burst ≤ 2 ^ 53
      → n ≤ burst
      → now ≤ last
      → refill fl now (holds rate burst n last) ≡ holds rate burst n last
  unfolding refill holds
  refill-no_time rate burst n now last i j b l t =
      let a : advance now last ≡ last = ground arith in
      let z : last - last ≡ 0 = omega arith in
      let m : n ≤ 2 ^ 53 = omega arith in
      let few : ltb burst n ≡ false = ground arith in
      rw (a, z)
        (rw (add_no_time n second rate m (omega arith) i j)
          (rw (capped, lt_of_ints burst n b m, few)))

  -- The decisions on requests that come at the given times.
  pub decisions : TokenBucket fl → List ℕ → List Bool
  decisions b [] = []
  decisions b (t ∷ ts) = let (b', allowed, retry) = allow_at fl t b in allowed ∷ decisions b' ts

  take-whole :
      (rate : F) (burst n last : ℕ)
      → suc n ≤ 2 ^ 53
      → take fl (holds rate burst (suc n) last) ≡ (holds rate burst n last, true, 0)
  unfolding take holds
  take-whole rate burst n last h =
      let enough : le (of_int 1) (of_int (suc n)) ≡ true =
        le_of_ints 1 (suc n) (omega arith) h ∙ ground arith in
      rw (enough, sub_one n h)

  take-empty :
      (rate : F) (burst last : ℕ)
      → ((take fl (holds rate burst 0 last)).0 ≡ holds rate burst 0 last)
        × ((take fl (holds rate burst 0 last)).1 ≡ false)
  unfolding take holds
  take-empty rate burst last =
      let few : le (of_int 1) (of_int 0) ≡ false = le_of_ints 1 0 (omega arith) (omega arith) in
      (rw few, rw few)

  module _ (rate : F) (burst last : ℕ) (finite : is_inf rate ≡ false) (number : is_nan rate ≡ false)
      (exact : burst ≤ 2 ^ 53) where
    allow_at-whole :
        (n now : ℕ)
        → suc n ≤ burst
        → now ≤ last
        → allow_at fl now (holds rate burst (suc n) last) ≡ (holds rate burst n last, true, 0)
    unfolding allow_at
    allow_at-whole n now l t =
        rw (refill-no_time rate burst (suc n) now last finite number exact l t)
          (take-whole rate burst n last (omega arith))

    allow_at-empty :
        (now : ℕ)
        → now ≤ last
        → ((allow_at fl now (holds rate burst 0 last)).0 ≡ holds rate burst 0 last)
          × ((allow_at fl now (holds rate burst 0 last)).1 ≡ false)
    unfolding allow_at
    allow_at-empty now t =
        rw (refill-no_time rate burst 0 now last finite number exact (omega arith) t)
          (take-empty rate burst last)

    granted-no_time :
        (n : ℕ) (ts : List ℕ)
        → n ≤ burst
        → All (λ t. t ≤ last) ts
        → granted (decisions (holds rate burst n last) ts) ≡ min n (length ts)
    unfolding decisions
    granted-no_time n [] l h = omega arith
    granted-no_time zero (t ∷ ts) l h =
        rw ((allow_at-empty t h.0).0, (allow_at-empty t h.0).1)
          (omega (arith, granted-no_time zero ts l h.1))
    granted-no_time (suc n) (t ∷ ts) l h =
        rw (allow_at-whole n t l h.0) (omega (arith, granted-no_time n ts (omega arith) h.1))

    -- A new bucket with a finite rate and a burst of at most 2^53: of any number of requests that
    -- come before its clock moves on, exactly as many as the burst are let through.
    pub burst_exact :
        (ts : List ℕ)
        → All (λ t. t ≤ last) ts
        → granted (decisions (new_token_bucket fl rate burst last) ts) ≡ min burst (length ts)
    unfolding new_token_bucket holds
    burst_exact ts h = granted-no_time burst ts (omega arith) h
