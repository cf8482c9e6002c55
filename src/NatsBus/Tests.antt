-- ===== src/NatsBus/Tests.antt =====
-- Tests of natsbus/reliable.go, and its theorems at concrete inputs, over whole numbers for float64.
use service_runtime.Base.{
  lookup_key, true, text_eq, ℕ, ◌+◌, ◌≡◌, refl, false, Option, none, some, List, [], ◌∷◌, Text,
  codes, pos, ◌==◌, has_prefix, trim_space, if◌then◌else◌,
}
use service_runtime.Floats.{whole}
use service_runtime.Resilience.Breaker.{new_breaker}
use service_runtime.Resilience.Retry.{RetryConfig}
use service_runtime.NatsBus.DeadLetters.{
  save, delete, remove, completed, Store, Message, DeadLetter, File, directory, undecodable, letter,
  file_name, list, collect, is_dead_letter, new_store, scan_count,
}
use service_runtime.NatsBus.Reliable.{State, Faults, publish_message, publish_built, replay_once}
use service_runtime.NatsBus.Publishing.{Fate, publish_accounts}
use service_runtime.NatsBus.Count.{Distinct, here, saved, deleted, count_tracks}
use service_runtime.NatsBus.Replay.{Replayed, replay_deletes_acknowledged}

abbrev old : DeadLetter
old = record {
  id = codes "a";
  created_at = 62135596800000000001;
  subject = codes "s";
  header = [];
  data_bytes = 7 ∷ [];
  last_error = [];
}

-- The time is one nanosecond after Unix's epoch.
names_file : file_name old ≡ codes "19700101T000000.000000001Z-a.json"
unfolding file_name
names_file = refl

abbrev files : List (Text × File)
files =
    (codes "b.json", letter old)
    ∷ (codes "c.tmp", undecodable)
    ∷ (codes "a.json", letter old)
    ∷ (codes "d.json", directory)
    ∷ []

lists_in_order :
    list false (λ n. false) 1 (record { files = files; count = pos 2 })
    ≡ some ((codes "a.json", old) ∷ [])
unfolding list collect is_dead_letter has_prefix
lists_in_order = refl

counts : new_store (codes "d") false files ≡ some (record { files = files; count = pos 2 })
unfolding new_store scan_count is_dead_letter has_prefix trim_space
counts = refl

-- The clock runs one unit a message, and the broker takes messages at the time 5.
abbrev broker : Message → ℕ → ℕ × Option ℕ
broker m t = (t + 1, if t == 5 then none else some t)

abbrev wait : ℕ → ℕ → ℕ × Option ℕ
wait d t = (t, none)

abbrev draw : ℕ → ℕ × ℕ
draw t = (t, 0)

abbrev once : RetryConfig whole ℕ
once = record {
  max_attempts = pos 1;
  initial_delay = pos 1;
  max_delay = pos 1;
  multiplier = 2;
  is_retryable = none;
}

abbrev publisher : ℕ → State ℕ
publisher t = record {
  breaker =
      new_breaker
        (record { failure_threshold = pos 2; reset_timeout = pos 10; half_open_max = pos 1 });
  store = record { files = files; count = pos 2 };
  world = t;
}

abbrev no_faults : Faults
no_faults = record {
  save_fails = false;
  dir_fails = false;
  read_fails = λ n. false;
  delete_fails = λ n. false;
}

abbrev news : Message
news = record { subject = codes "s"; header = []; data_bytes = 9 ∷ [] }

publish_accounts_example :
    Fate whole
      (λ e. none)
      wait
      draw
      (λ t. t)
      broker
      (λ e. [])
      once
      news
      (publish_message whole
        (λ e. none)
        wait
        draw
        (λ t. t)
        broker
        (λ e. [])
        once
        news
        (publisher 3).breaker
        3).2
      (publisher 3).store
      (publish_built whole
        (λ e. none)
        wait
        draw
        (λ t. t)
        broker
        (λ e. [])
        once
        no_faults
        (codes "u")
        (codes "v")
        news
        (publisher 3))
publish_accounts_example =
    publish_accounts whole (λ e. none) wait draw (λ t. t) broker (λ e. []) once no_faults
      (codes "u") (codes "v") news (publisher 3)

replay_deletes_acknowledged_example :
    Replayed whole
      (λ e. none)
      wait
      draw
      (λ t. t)
      broker
      (λ e. [])
      once
      ((codes "a.json", old) ∷ [])
      (publisher 5)
      (replay_once whole
        (λ e. none)
        wait
        draw
        (λ t. t)
        broker
        (λ e. [])
        once
        no_faults
        1
        (publisher 5))
replay_deletes_acknowledged_example =
    replay_deletes_acknowledged whole (λ e. none) wait draw (λ t. t) broker (λ e. []) once no_faults
      1 (publisher 5) ((codes "a.json", old) ∷ []) lists_in_order

files_are_Distinct : Distinct files
unfolding lookup_key text_eq
files_are_Distinct = (refl, (refl, (refl, (refl, tt))))

abbrev opened : Store
opened = record { files = files; count = pos 2 }

b_is_found : lookup_key (codes "b.json") opened.files ≡ some (letter old)
unfolding lookup_key text_eq
b_is_found = refl

b_is_dead_letter : is_dead_letter (codes "b.json", letter old) ≡ true
unfolding is_dead_letter has_prefix
b_is_dead_letter = refl

old_is_new_name :
    lookup_key
      (file_name (completed (codes "z") 5 old))
      (delete false (codes "b.json") opened).0.files
    ≡ none
unfolding lookup_key text_eq file_name delete completed remove
old_is_new_name = refl

count_tracks_example :
    (save false (codes "z") 5 old (delete false (codes "b.json") opened).0).0.count
    ≡ pos
        (scan_count (save false (codes "z") 5 old (delete false (codes "b.json") opened).0).0.files)
count_tracks_example =
    count_tracks (codes "d") files opened
      (save false (codes "z") 5 old (delete false (codes "b.json") opened).0).0 counts
      files_are_Distinct
      (saved false (codes "z") 5 old
        (deleted false (codes "b.json") old here b_is_found b_is_dead_letter) old_is_new_name)
