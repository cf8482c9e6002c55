-- ===== src/NatsBus/Publishing.antt =====
-- What becomes of a message that is published (natsbus/reliable.go).
use service_runtime.Base.{
  ℕ, ◌≡◌, refl, ap, ◌∙◌, ◌⊎◌, inl, inr, true, false, Option, none, some, List, if◌then◌else◌, Text,
  text_eq, text_eq_refl, lookup_key, lookup_key-insert_key,
}
use service_runtime.Floats.{Float64}
use service_runtime.Resilience.Breaker.{Breaker, CallError}
use service_runtime.Resilience.Retry.{RetryConfig, Outcome}
use service_runtime.NatsBus.DeadLetters.{
  Message, DeadLetter, message, File, letter, Store, completed, file_name, save,
}
use service_runtime.NatsBus.Reliable.{
  State, Faults, PublishResult, published, dead_lettered, not_kept, letter_of, handle_dead_letter,
  publish_built,
}
use service_runtime.NatsBus.Broker.{Received, send, publish_message-Received}

-- Every file that is not named `name` is as it was.
abbrev pub OthersKept : Text → List (Text × File) → List (Text × File) → Type 0
OthersKept name old new =
    (other : Text) → text_eq name other ≡ false → lookup_key other new ≡ lookup_key other old

-- The directory has a record from which the message can be published again.
pub record Kept (m : Message) (old new : List (Text × File)) : Type 0 where
  pub name : Text
  pub record_kept : DeadLetter
  pub found : lookup_key name new ≡ some (letter record_kept)
  pub same : message record_kept ≡ m
  pub others : OthersKept name old new

save-Kept :
    (new_id : Text) (now : ℕ) (r : DeadLetter) (s : Store)
    → Kept (message r) s.files (save false new_id now r s).0.files
unfolding save completed message
save-Kept new_id now r s =
    let r' = completed new_id now r in
    record {
      name = file_name r';
      record_kept = r';
      found =
          lookup_key-insert_key (file_name r') (file_name r') (letter r') s.files
          ∙ ap (λ b. if b then some (letter r') else lookup_key (file_name r') s.files)
              (text_eq_refl (file_name r'));
      same = refl;
      others = λ other h.
          lookup_key-insert_key (file_name r') other (letter r') s.files
          ∙ ap (λ b. if b then some (letter r') else lookup_key other s.files) h;
    }

module _ (fl : Float64) {E W : Type 0} (permanent : E → Option E) (wait : ℕ → W → W × Option E)
    (draw : W → W × ℕ) (clock : W → ℕ) (broker : Message → W → W × Option E)
    (error_text : CallError (Outcome E) → Text) (cfg : RetryConfig fl E) where
  abbrev publish : Faults → Text → Text → Message → State W → State W × PublishResult E
  publish f uuid uuid' m s =
      publish_built fl permanent wait draw clock broker error_text cfg f uuid uuid' m s

  -- The fate of a message whose publication ended with `err`.
  abbrev pub Fate :
      Message → Option (CallError (Outcome E)) → Store → State W × PublishResult E → Type 0
  Fate m none old (s', result) =
      (result ≡ published)
      × (s'.store ≡ old)
      × Received fl permanent wait draw clock broker error_text cfg m s'.world
  Fate m (some e) old (s', result) =
      ((result ≡ dead_lettered e) × Kept m old.files s'.store.files)
      ⊎ ((result ≡ not_kept e) × (s'.store ≡ old))

  handle_dead_letter-Fate :
      (f : Faults) (uuid uuid' : Text) (m : Message) (e : CallError (Outcome E)) (s : State W)
      → Fate m
          (some e)
          s.store
          (handle_dead_letter fl permanent wait draw clock broker error_text cfg f uuid uuid' m e s)
  unfolding handle_dead_letter save message
  handle_dead_letter-Fate f uuid uuid' m e s =
      let now = clock s.world in
      let r = letter_of fl permanent wait draw clock broker error_text cfg uuid now m e in
      elim f.save_fails
        as (λ b. Fate m (some e) s.store (
          record s { store = (save b uuid' now r s.store).0 },
          if (save b uuid' now r s.store).1 then dead_lettered e else not_kept e,
        )) [ true ↦ inr (refl, refl) | false ↦ inl (refl, save-Kept uuid' now r s.store) ]

  -- When `Publish` returns for a change that was encoded, the broker took the message in a call that
  -- left the world as it then is and the directory is as it was, or the directory holds the message
  -- under some name and every other file is as it was, or the error says that it was not kept.
  pub publish_accounts :
      (f : Faults) (uuid uuid' : Text) (m : Message) (s : State W)
      → Fate m
          (send fl permanent wait draw clock broker error_text cfg m s.breaker s.world).2
          s.store
          (publish f uuid uuid' m s)
  unfolding publish_built
  publish_accounts f uuid uuid' m s =
      go (send fl permanent wait draw clock broker error_text cfg m s.breaker s.world) (
        publish_message-Received fl permanent wait draw clock broker error_text cfg m s.breaker
          s.world)
    where
      go :
          (r : Breaker × W × Option (CallError (Outcome E)))
          → (r.2 ≡ none → Received fl permanent wait draw clock broker error_text cfg m r.1)
          → Fate m r.2 s.store (elim r.2 [
            | none ↦ (record s { breaker = r.0; world = r.1 }, published)
            | some e ↦
                handle_dead_letter fl permanent wait draw clock broker error_text cfg f uuid uuid' m
                  e
                  (record s { breaker = r.0; world = r.1 })
          ])
      go (b, w, none) k = (refl, refl, k refl)
      go (b, w, some e) k =
          handle_dead_letter-Fate f uuid uuid' m e (record s { breaker = b; world = w })
