-- ===== src/Floats.antt =====
-- float64, which this library takes as a parameter: the operations that the source uses, with the
-- facts of IEEE 754 arithmetic that the proofs rest on. A comparison with NaN is false.
use native.Mathlib.Nat.{zero-div}
use service_runtime.Base.{
  suc, ◌<◌, ℕ, ◌+◌, ◌-◌, ◌*◌, ◌/◌, ◌^◌, ◌≤◌, ◌≡◌, refl, Bool, true, false, arith, ltb, leb, ◌==◌, ℤ,
  pos, to_ℕ,
}

pub record Float64 : Type 1 where
  pub F : Type 0
  pub lt : F → F → Bool
  pub le : F → F → Bool
  pub eq : F → F → Bool
  pub add : F → F → F
  pub sub : F → F → F
  pub mul : F → F → F
  pub div : F → F → F
  pub pow : F → F → F
  pub ceil : F → F
  pub is_inf : F → Bool
  pub is_nan : F → Bool
  -- `float64(n)`
  pub of_int : ℕ → F
  -- `int64(x)`
  pub to_int : F → ℤ
  pub lt_irrefl : (x : F) → lt x x ≡ false
  pub lt_of_int : (x : F) (m n : ℕ) → m ≤ n → lt x (of_int m) ≡ true → lt x (of_int n) ≡ true
  pub of_int_nonneg : (n : ℕ) → lt (of_int n) (of_int 0) ≡ false
  pub of_int_finite :
      (n : ℕ) → n ≤ 2 ^ 53 → (is_inf (of_int n) ≡ false) × (is_nan (of_int n) ≡ false)
  -- Taking one away does not carry a number over a bound that it kept.
  pub lt_sub_one : (b x : F) → lt b x ≡ false → lt b (sub x (of_int 1)) ≡ false
  -- Whole numbers up to 2^53 are compared and counted down exactly.
  pub lt_of_ints : (m n : ℕ) → m ≤ 2 ^ 53 → n ≤ 2 ^ 53 → lt (of_int m) (of_int n) ≡ ltb m n
  pub le_of_ints : (m n : ℕ) → m ≤ 2 ^ 53 → n ≤ 2 ^ 53 → le (of_int m) (of_int n) ≡ leb m n
  pub sub_one : (n : ℕ) → suc n ≤ 2 ^ 53 → sub (of_int (suc n)) (of_int 1) ≡ of_int n
  -- No time at a finite rate adds nothing to a whole number.
  pub add_no_time :
      (n k : ℕ) (r : F)
      → n ≤ 2 ^ 53
      → 0 < k
      → is_inf r ≡ false
      → is_nan r ≡ false
      → add (of_int n) (mul (add (of_int 0) (div (of_int 0) (of_int k))) r) ≡ of_int n
  pub mul_nonneg :
      (x y : F)
      → lt x (of_int 0) ≡ false
      → lt y (of_int 0) ≡ false
      → lt (mul x y) (of_int 0) ≡ false
  pub pow_nonneg :
      (x : F) (n : ℕ) → lt x (of_int 0) ≡ false → lt (pow x (of_int n)) (of_int 0) ≡ false
  -- Whole numbers up to 2^53 are exact, and truncation keeps the order with them.
  pub to_int_le :
      (x : F) (n : ℕ)
      → n ≤ 2 ^ 53
      → lt (of_int n) x ≡ false
      → lt x (of_int 0) ≡ false
      → is_inf x ≡ false
      → is_nan x ≡ false
      → to_ℕ (to_int x) ≤ n

pub whole_irrefl : (x : ℕ) → ltb x x ≡ false
whole_irrefl x = ground arith

pub whole_of_int : (x m n : ℕ) → m ≤ n → ltb x m ≡ true → ltb x n ≡ true
whole_of_int x m n h p = ground arith

pub whole_nonneg : (n : ℕ) → ltb n 0 ≡ false
whole_nonneg n = ground arith

pub whole_sub_one : (b x : ℕ) → ltb b x ≡ false → ltb b (x - 1) ≡ false
whole_sub_one b x h = ground arith

pub whole_le : (x n : ℕ) → ltb n x ≡ false → x ≤ n
whole_le x n h = ground arith

pub whole_sub : (n : ℕ) → suc n - 1 ≡ n
whole_sub n = omega arith

pub whole_no_time : (n k r : ℕ) → n + (0 + 0 / k) * r ≡ n
whole_no_time n k r = let z : 0 / k ≡ 0 = zero-div k in rw z (omega arith)

-- The whole numbers, with a difference that stops at zero, meet these facts.
abbrev pub whole : Float64
whole = record {
  F = ℕ;
  lt = ltb;
  le = leb;
  eq = ◌==◌;
  add = ◌+◌;
  sub = ◌-◌;
  mul = ◌*◌;
  div = ◌/◌;
  pow = ◌^◌;
  ceil = λ x. x;
  is_inf = λ x. false;
  is_nan = λ x. false;
  of_int = λ n. n;
  to_int = pos;
  lt_irrefl = whole_irrefl;
  lt_of_int = whole_of_int;
  of_int_nonneg = whole_nonneg;
  of_int_finite = λ n h. (refl, refl);
  lt_sub_one = whole_sub_one;
  lt_of_ints = λ m n p q. refl;
  le_of_ints = λ m n p q. refl;
  sub_one = λ n h. whole_sub n;
  add_no_time = λ n k r p q i j. whole_no_time n k r;
  mul_nonneg = λ x y p q. whole_nonneg (x * y);
  pow_nonneg = λ x n p. whole_nonneg (x ^ n);
  to_int_le = λ x n b h p q r. whole_le x n h;
}
