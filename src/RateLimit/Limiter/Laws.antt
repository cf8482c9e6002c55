-- ===== src/RateLimit/Limiter/Laws.antt =====
-- What the table of buckets keeps, whom a request touches, and the fallback
-- (ratelimit/ratelimit.go).
use service_runtime.Base.{
  ℕ, ◌+◌, ◌≤◌, ◌≡◌, ◌≢◌, refl, ◌∙◌, inl, inr, Bool, some, List, [], ◌∷◌, arith, ltb, Text, text_eq,
  text_eq_sound, lookup_key, insert_key, keep_entries, lookup_key-insert_key, Bool-cases, All, not,
}
use service_runtime.Floats.{Float64}
use service_runtime.RateLimit.Bucket.Laws.{IsCapped, allow_at-IsCapped}
use service_runtime.RateLimit.Limiter.{
  Policy, Entry, Entries, local_bucket_key, allow_local, cleanup,
}

-- No line break in the scope.
abbrev pub OneLine : Text → Type 0
OneLine s = All (λ c. c ≢ 10) s

pub local_bucket_key-injective :
    (s t k j : Text)
    → OneLine s
    → OneLine t
    → local_bucket_key s k ≡ local_bucket_key t j
    → (s ≡ t) × (k ≡ j)
unfolding local_bucket_key
local_bucket_key-injective [] [] k j p q e = (refl, cc)
local_bucket_key-injective [] (c ∷ t) k j p q e = absurd (q.0 (cc))
local_bucket_key-injective (c ∷ s) [] k j p q e = absurd (p.0 (cc))
local_bucket_key-injective (c ∷ s) (d ∷ t) k j p q e =
    let (same, keys) = local_bucket_key-injective s t k j p.1 q.1 (cc) in (cc, keys)

module _ (fl : Float64) where
  abbrev pub AllCapped : Entries fl → Type 0
  AllCapped m = All (λ e. IsCapped fl e.1.limiter) m

  insert-AllCapped :
      (k : Text) (e : Entry fl) (m : Entries fl)
      → IsCapped fl e.limiter
      → AllCapped m
      → AllCapped (insert_key k e m)
  unfolding insert_key
  insert-AllCapped k e [] h a = (h, tt)
  insert-AllCapped k e ((j, f) ∷ m) h a = ground (arith, insert-AllCapped k e m h a.1)

  keep-AllCapped :
      (p : Entry fl → Bool) (m : Entries fl) → AllCapped m → AllCapped (keep_entries p m)
  unfolding keep_entries
  keep-AllCapped p [] a = tt
  keep-AllCapped p ((j, f) ∷ m) a = ground (arith, keep-AllCapped p m a.1)

  allow_local-AllCapped :
      (p : Policy fl) (key : Text) (now : ℕ) (m : Entries fl)
      → AllCapped m
      → AllCapped (allow_local fl p key now m).0
  unfolding allow_local
  allow_local-AllCapped p key now m a =
      insert-AllCapped (local_bucket_key p.scope key) _ m (allow_at-IsCapped fl now _) a

  -- What happens to the table: requests that the table decides, and ticks of the cleanup.
  pub data Event : Type 0 where
    request : Policy fl → Text → ℕ → Event
    tick : ℕ → ℕ → Event

  pub run : List Event → Entries fl → Entries fl
  run [] m = m
  run (request p key now ∷ es) m = run es (allow_local fl p key now m).0
  run (tick max_age now ∷ es) m = run es (cleanup fl max_age now m)

  run-AllCapped_from : (es : List Event) (m : Entries fl) → AllCapped m → AllCapped (run es m)
  unfolding run cleanup
  run-AllCapped_from [] m a = a
  run-AllCapped_from (request p key now ∷ es) m a =
      run-AllCapped_from es _ (allow_local-AllCapped p key now m a)
  run-AllCapped_from (tick max_age now ∷ es) m a =
      run-AllCapped_from es _ (keep-AllCapped (λ e. not (ltb (e.last_seen + max_age) now)) m a)

  -- After any requests, under any policies and at any times, and any ticks of the cleanup, no bucket
  -- holds more tokens than its burst.
  pub run-AllCapped : (es : List Event) → AllCapped (run es [])
  run-AllCapped es = run-AllCapped_from es [] tt

  -- A request leaves the bucket of every other pair of scope and key alone, if both scopes are
  -- without line breaks.
  pub allow_local_isolated :
      (p : Policy fl) (key scope other : Text) (now : ℕ) (m : Entries fl)
      → OneLine p.scope
      → OneLine scope
      → ¬ ((p.scope ≡ scope) × (key ≡ other))
      → lookup_key (local_bucket_key scope other) (allow_local fl p key now m).0
        ≡ lookup_key (local_bucket_key scope other) m
  unfolding allow_local
  allow_local_isolated p key scope other now m l r d =
      let k = local_bucket_key p.scope key in
      let j = local_bucket_key scope other in
      lookup_key-insert_key k j _ m ∙ elim (Bool-cases (text_eq k j)) [
        | inl same ↦
            absurd
              (d (local_bucket_key-injective p.scope scope key other l r (text_eq_sound k j same)))
        | inr differ ↦ rw differ refl
      ]

  -- The cleanup keeps the bucket of whoever was seen within the maximal age.
  pub cleanup_keeps :
      (max_age now : ℕ) (k : Text) (e : Entry fl) (m : Entries fl)
      → lookup_key k m ≡ some e
      → now ≤ e.last_seen + max_age
      → lookup_key k (cleanup fl max_age now m) ≡ some e
  unfolding cleanup lookup_key keep_entries
  cleanup_keeps max_age now k e [] h f = cc
  cleanup_keeps max_age now k e ((j, w) ∷ m) h f = ground (arith, cleanup_keeps max_age now k e m)
