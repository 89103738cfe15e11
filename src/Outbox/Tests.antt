-- ===== src/Outbox/Tests.antt =====
-- The outbox with one mail that is sent and one that is not.
use nexora_ai.Prelude.{All, ◌≡◌, map, ◌+◌, refl, none, some, List, [], ◌∷◌, ◌++◌, arith}
use nexora_ai.Session.{Env, Session, ok}
use nexora_ai.Outbox.{email_payload, OutboxEvent, Outbox, Settings, Carriers, dispatch, drain}
use nexora_ai.Outbox.Drained.{IsRow, IsWithin}
use nexora_ai.Prelude.Groups.{find}
use nexora_ai.Outbox.Attempts.{key}
use nexora_ai.Outbox.Exact.{passed, drain_exact}
use nexora_ai.Outbox.Fate.{waiting_until, delivered_at, fate_of, foretold}
use nexora_ai.Outbox.Fate.Foretold.{run-foretold}
use nexora_ai.Outbox.Settles.{drains, IsSettled, run_settles}
use nexora_ai.Outbox.Life.{Step, staged, drained, run, run_sent}

abbrev clock : Env
clock = record { uuid7 = λ n. n + 100; now = 5_000; today = 20_260_315 }

abbrev settings : Settings
settings = record { outbox_max_attempts = 5; outbox_batch_size = 10 }

-- A mail server that refuses everything.
abbrev refusing : Carriers
refusing = record {
  sender = λ i p. some "ConnectionRefusedError";
  document_indexer = λ i p. none;
  document_cleaner = λ i p. none;
}

abbrev sent_mail : OutboxEvent
sent_mail = record {
  id = 1;
  topic = "email.send";
  payload = email_payload "ann@example.com" "welcome" [];
  available_at = 4_000;
  sent_at = some 4_100;
  attempts = 1;
  last_error = none;
}

abbrev start : Session Outbox
start = record {
  rows = record { events = sent_mail ∷ [] };
  sequences = [];
  audit_rows = [];
  drawn = 0;
}

-- A second mail is staged, and two batches are drained.
abbrev steps : List (Env × Step)
steps =
    (clock, staged "email.send" (email_payload "bob@example.com" "reset" (("token", "t1") ∷ [])))
    ∷ (clock, drained refusing)
    ∷ (clock, drained refusing)
    ∷ []

run_sent_example :
    IsRow 1 sent_mail (run settings steps start).rows × IsWithin 5 (run settings steps start).rows
run_sent_example =
    run_sent settings steps start 1 sent_mail refl
      (record { stands = refl; satisfies = ((λ _. refl), tt) }) (omega arith, tt)

-- A mail that is refused twice more, an hour apart.
abbrev waiting : Session Outbox
waiting = record start {
  rows = record {
    events = record sent_mail { id = 2; sent_at = none; attempts = 3 } ∷ sent_mail ∷ [];
  };
}

abbrev hourly : List (Env × Carriers)
hourly = (clock, refusing) ∷ (record clock { now = 8_600 }, refusing) ∷ []

run_settles_example : All (IsSettled 5) (run settings (drains hourly) waiting).rows.events
run_settles_example =
    run_settles settings 5_000 hourly waiting (omega arith) (omega arith, (omega arith, tt))
      (refl, (refl, tt)) ((λ _. omega arith), ((λ _. omega arith), tt)) (omega arith)

abbrev refused_mail : OutboxEvent
refused_mail = record sent_mail { id = 2; sent_at = none; attempts = 3 }

-- A drain that comes after the pause, with a mail server that takes everything.
abbrev later_steps : List (Env × Step)
later_steps =
    steps ++ (record clock { now = 5_240 }, drained (record refusing { sender = λ i p. none })) ∷ []

run-foretold_example :
    (e : OutboxEvent) × (find key 2 (run settings later_steps waiting).rows.events ≡ some e)
    × (fate_of e ≡ foretold settings refused_mail later_steps (waiting_until 3 4_000))
run-foretold_example =
    run-foretold settings later_steps waiting 2 refused_mail (refl, (refl, tt)) refl (omega arith)

-- It is refused by the first drain, let alone by the second and delivered by the third.
foretold_delivered :
    foretold settings refused_mail later_steps (waiting_until 3 4_000) ≡ delivered_at 5_240
unfolding dispatch
foretold_delivered = refl

drain_exact_example :
    drain settings refusing clock waiting
    ≡ ok (
      0,
      record waiting {
        rows = record { events = map (passed settings refusing 5_000) waiting.rows.events };
      },
    )
unfolding dispatch
drain_exact_example = drain_exact settings refusing clock waiting (refl, (refl, tt)) (omega arith)
