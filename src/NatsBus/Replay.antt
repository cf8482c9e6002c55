-- ===== src/NatsBus/Replay.antt =====
-- What a replay of dead letters deletes (natsbus/reliable.go).
use mathlib.Core.Path.{subst}
use service_runtime.Base.{
  ℕ, ◌≡◌, refl, sym, ap, ◌∙◌, Bool, true, false, Option, none, some, List, [], ◌∷◌, ◌++◌, arith,
  Text,
}
use service_runtime.Floats.{Float64}
use service_runtime.Resilience.Breaker.{Breaker, CallError}
use service_runtime.Resilience.Retry.{RetryConfig, Outcome}
use service_runtime.NatsBus.DeadLetters.{
  Message, DeadLetter, message, File, Store, remove, delete, list,
}
use service_runtime.NatsBus.Reliable.{
  State, Faults, ReplayError, list_failed, replay_failed, delete_failed, replay_records,
  replay_once,
}
use service_runtime.NatsBus.Broker.{Received, send, publish_message-Received}

module _ (fl : Float64) {E W : Type 0} (permanent : E → Option E) (wait : ℕ → W → W × Option E)
    (draw : W → W × ℕ) (clock : W → ℕ) (broker : Message → W → W × Option E)
    (error_text : CallError (Outcome E) → Text) (cfg : RetryConfig fl E) where
  -- The publications of a list of records, one after the other, that the broker acknowledged.
  pub data Acked : List (Text × DeadLetter) → Breaker × W → Breaker × W → Type 0 where
    no_more : {p : Breaker × W} → Acked [] p p
    acked :
        {name : Text} {r : DeadLetter} {rs : List (Text × DeadLetter)} {b b' : Breaker} {w w' : W}
        {q : Breaker × W}
        → send fl permanent wait draw clock broker error_text cfg (message r) b w ≡ (b', w', none)
        → Received fl permanent wait draw clock broker error_text cfg (message r) w'
        → Acked rs (b', w') q
        → Acked ((name, r) ∷ rs) (b, w) q

  unfoldable pub remove_all : List (Text × DeadLetter) → List (Text × File) → List (Text × File)
  remove_all [] fs = fs
  remove_all (r ∷ rs) fs = remove_all rs (remove r.0 fs)

  -- A replay of `rs` stopped after a first part of it.
  pub record Replayed (rs : List (Text × DeadLetter)) (s : State W)
      (out : State W × Option (ReplayError E)) : Type 0 where
    pub done : List (Text × DeadLetter)
    pub rest : List (Text × DeadLetter)
    pub split : rs ≡ done ++ rest
    pub reached : Breaker × W
    pub acknowledged : Acked done (s.breaker, s.world) reached
    pub deleted : out.0.store.files ≡ remove_all done s.store.files
    pub whole_batch : out.1 ≡ none → rest ≡ []

  delete_files :
      (name : Text) (s : Store) (b : Bool)
      → (delete b name s).1 ≡ true
      → (delete b name s).0.files ≡ remove name s.files
  unfolding delete
  delete_files name s b h = ground (arith, h)

  delete_failed_files :
      (name : Text) (s : Store) (b : Bool)
      → (delete b name s).1 ≡ false
      → (delete b name s).0.files ≡ s.files
  unfolding delete
  delete_failed_files name s b h = ground (arith, h)

  abbrev replay : Faults → List (Text × DeadLetter) → State W → State W × Option (ReplayError E)
  replay f rs s = replay_records fl permanent wait draw clock broker error_text cfg f rs s

  replay_records-Replayed :
      (f : Faults) (rs : List (Text × DeadLetter)) (s : State W) → Replayed rs s (replay f rs s)
  unfolding replay_records remove_all
  replay_records-Replayed f [] s = record {
    done = [];
    rest = [];
    split = refl;
    reached = (s.breaker, s.world);
    acknowledged = no_more;
    deleted = refl;
    whole_batch = λ h. refl;
  }
  replay_records-Replayed f ((name, r) ∷ rs) s =
      go (send fl permanent wait draw clock broker error_text cfg (message r) s.breaker s.world)
        refl (delete (f.delete_fails name) name s.store).1 refl
        (λ s'. replay_records-Replayed f rs s')
    where
      go :
          (x : Breaker × W × Option (CallError (Outcome E)))
          → send fl permanent wait draw clock broker error_text cfg (message r) s.breaker s.world
            ≡ x
          → (ok : Bool) → (delete (f.delete_fails name) name s.store).1 ≡ ok
          → ((s' : State W) → Replayed rs s' (replay f rs s'))
          → Replayed ((name, r) ∷ rs) s (elim x.2 [
            | some e ↦ (record s { breaker = x.0; world = x.1 }, some (replay_failed name e))
            | none ↦ elim ok [
              | false ↦ (
                record {
                  breaker = x.0;
                  store = (delete (f.delete_fails name) name s.store).0;
                  world = x.1;
                },
                some (delete_failed name),
              )
              | true ↦ replay f rs (record {
                breaker = x.0;
                store = (delete (f.delete_fails name) name s.store).0;
                world = x.1;
              })
            ]
          ])
      go (b, w, some e) p ok q ih = record {
        done = [];
        rest = (name, r) ∷ rs;
        split = refl;
        reached = (s.breaker, s.world);
        acknowledged = no_more;
        deleted = refl;
        whole_batch = λ h. cc;
      }
      go (b, w, none) p false q ih = record {
        done = [];
        rest = (name, r) ∷ rs;
        split = refl;
        reached = (s.breaker, s.world);
        acknowledged = no_more;
        deleted = delete_failed_files name s.store (f.delete_fails name) q;
        whole_batch = λ h. cc;
      }
      go (b, w, none) p true q ih =
          let s' : State W = record {
            breaker = b;
            store = (delete (f.delete_fails name) name s.store).0;
            world = w;
          } in
          let k = ih s' in
          record {
            done = (name, r) ∷ k.done;
            rest = k.rest;
            split = ap (λ l. (name, r) ∷ l) k.split;
            reached = k.reached;
            acknowledged =
                acked p
                  (subst
                    (λ z.
                      Received fl permanent wait draw clock broker error_text cfg (message r) z.1)
                    p
                    (publish_message-Received fl permanent wait draw clock broker error_text cfg
                      (message r) s.breaker s.world (ap (λ z. z.2) p)))
                  k.acknowledged;
            deleted =
                k.deleted
                ∙ ap (remove_all k.done) (delete_files name s.store (f.delete_fails name) q);
            whole_batch = k.whole_batch;
          }

  -- Replaying a batch deletes the files of a first part of it, in its order, and those only, and each
  -- of them after a call of the broker took its message; it ends without an error only if that part is
  -- the whole batch.
  pub replay_deletes_acknowledged :
      (f : Faults) (batch : ℕ) (s : State W) (rs : List (Text × DeadLetter))
      → list f.dir_fails f.read_fails batch s.store ≡ some rs
      → Replayed rs s (replay_once fl permanent wait draw clock broker error_text cfg f batch s)
  unfolding replay_once
  replay_deletes_acknowledged f batch s rs h =
      subst (λ o. Replayed rs s (elim o [ none ↦ (s, some list_failed) | some qs ↦ replay f qs s ]))
        (sym h) (replay_records-Replayed f rs s)
