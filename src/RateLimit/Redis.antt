-- ===== src/RateLimit/Redis.antt =====
-- ratelimit/redis.go: reading the reply of the script. What the script answers is an argument; a
-- float is given by its conversion to int64.
use service_runtime.Base.{
  ℕ, suc, ◌+◌, ◌-◌, ◌*◌, ◌%◌, ◌^◌, Bool, true, false, ◌&&◌, ◌||◌, Option, none, some, List, [], ◌∷◌,
  leb, ◌==◌, if◌then◌else◌, ℤ, pos, negsuc, Text,
}
use service_runtime.RateLimit.Bucket.{millisecond}

-- A value of the script's reply, and the reply; an error of the client keeps its text.
pub data RedisValue : Type 0 where
  int64_value : ℤ → RedisValue
  float64_value : ℤ → RedisValue
  text_value : Text → RedisValue
  bytes_value : Text → RedisValue
  other_value : RedisValue

pub data RedisReply : Type 0 where
  redis_failure : Text → RedisReply
  redis_list : List RedisValue → RedisReply
  redis_other : RedisReply

pub data RedisError : Type 0 where
  redis_ratelimit : Text → RedisError
  unexpected_result unexpected_allowed unexpected_retry_after : RedisError

is_digit : ℕ → Bool
is_digit c = leb 48 c && leb c 57

digits_value : ℕ → Text → Option ℕ
unfolding is_digit
digits_value acc [] = some acc
digits_value acc (c ∷ cs) =
    let rest = digits_value (acc * 10 + (c - 48)) cs in if is_digit c then rest else none

parse_digits : Text → Option ℕ
unfolding digits_value
parse_digits [] = none
parse_digits (c ∷ cs) = digits_value 0 (c ∷ cs)

abbrev int64_max : ℕ
int64_max = 9223372036854775807

signed : Bool → Option ℕ → Option ℤ
signed negative none = none
signed false (some n) = if leb n int64_max then some (pos n) else none
signed true (some ℕ.zero) = some (pos 0)
signed true (some (suc n)) = if leb n int64_max then some (negsuc n) else none

-- `strconv.ParseInt(s, 10, 64)`
unfoldable pub parse_int : Text → Option ℤ
unfolding parse_digits signed
parse_int [] = none
parse_int (c ∷ cs) =
    if c == 45
    then signed true (parse_digits cs)
    else if c == 43
    then signed false (parse_digits cs)
    else signed false (parse_digits (c ∷ cs))

unfoldable pub int64_from_any : RedisValue → Option ℤ
int64_from_any (int64_value z) = some z
int64_from_any (float64_value z) = some z
int64_from_any (text_value s) = parse_int s
int64_from_any (bytes_value s) = parse_int s
int64_from_any other_value = none

is_one : ℤ → Bool
is_one (pos n) = n == 1
is_one (negsuc n) = false

-- `time.Duration(ms) * time.Millisecond` in 64 bits, and then at least a millisecond.
retry_of_ms : ℤ → ℕ
retry_of_ms z =
    let residue : ℕ = elim z [
      | pos n ↦ n * millisecond % 2 ^ 64
      | negsuc n ↦ (2 ^ 64 - suc n * millisecond % 2 ^ 64) % 2 ^ 64
    ] in
    if residue == 0 || leb (2 ^ 63) residue then millisecond else residue

pub data RedisDecision : Type 0 where
  decided : Bool → ℕ → RedisDecision
  undecided : RedisError → RedisDecision

decide_values : Option ℤ → Option ℤ → RedisDecision
unfolding is_one retry_of_ms
decide_values none retry = undecided unexpected_allowed
decide_values (some allowed) none = undecided unexpected_retry_after
decide_values (some allowed) (some retry) = decided (is_one allowed) (retry_of_ms retry)

unfoldable pub allow_redis : RedisReply → RedisDecision
unfolding decide_values
allow_redis (redis_failure e) = undecided (redis_ratelimit e)
allow_redis (redis_list (a ∷ r ∷ [])) = decide_values (int64_from_any a) (int64_from_any r)
allow_redis _ = undecided unexpected_result
