-- ===== src/Examples/Boards.antt =====
-- Raspberry Pi coordinators that replicate, reconcile and partition.
use echod.Prelude.{
  List, String, [], arith, drop, false, length, map, refl, some, suc, take, zero, ℕ, ◌++◌, ◌+◌, ◌∷◌,
  ◌≡◌, ◌≤◌,
}
use echod.Examples.Data.{crc32}
use echod.Messages.{Command, RequestVoteRpc, batch, client, leader, reading}
use echod.Node.{echo}
use echod.Pi.{PiCoordinator, PiEnv, pi_create}
use echod.Pi.Accepting.{EndsWithReply}
use echod.Pi.Append.{pi_handle_append_entries}
use echod.Pi.Ballots.{PiEvent, pi_one_vote_each_term, pi_run}
use echod.Pi.CatchUp.{CaughtUp, append_request-CaughtUp}
use echod.Pi.Delivered.{append_request-terms}
use echod.Pi.Fresh.{AllKnown}
use echod.Pi.Inbox.{drain_inbox}
use echod.Pi.Queue.{HandledPart, drain_inbox-ends, receive_all}
use echod.Pi.Reconciled.{fresh_of, reconcile_batch-once, reconcile_batch-proposes}
use echod.Pi.Replayed.{commands_in, pi_rounds}
use echod.Pi.Rounds.{entry_term, pi_append_request}
use echod.Pi.Sensors.{fresh_commands, pi_handle_reconcile_batch}
use echod.Pi.Simulated.{as_entry}
use echod.Pi.Votes.{pi_grants}
use echod.Prelude.Dict.{IsDistinct, get_or, member}
use echod.Replication.Merge.{IsNumbered, merge, terms}
use echod.Triggers.Carried.{singles}
use echod.Wire.{PiEntry, PiPayload, ReconcileBatch}

abbrev quiet : PiEnv
quiet = record {
  now = 7_000_000_000;
  level = 80;
  timeout = 1_500_000_000;
  demo = false;
  now_again = 7_000_000_100;
}

abbrev value_at : ℕ → ℕ → PiEntry
value_at index term = record {
  index = index;
  term = term;
  command = client index;
  trigger_type = "delta";
  partition_epoch = 0;
  timestamp = 2;
}

abbrev everyone : List String
everyone = "c0" ∷ "c1" ∷ "c2" ∷ []

abbrev behind : PiCoordinator
behind = record (pi_create crc32 quiet echo "c0" everyone) {
  current_term = 2;
  log = value_at 1 1 ∷ value_at 2 1 ∷ value_at 3 2 ∷ [];
}

abbrev ahead : PiCoordinator
ahead = record (pi_create crc32 quiet echo "c1" everyone) {
  state = leader;
  current_term = 3;
  log = value_at 1 1 ∷ value_at 2 1 ∷ value_at 3 3 ∷ value_at 4 3 ∷ [];
  commit_index = 1;
  next_index = ("c0", 3) ∷ ("c2", 5) ∷ [];
  match_index = ("c0", 2) ∷ ("c2", 4) ∷ [];
  pending_latency = (3, 6_000_000_000) ∷ (4, 6_500_000_000) ∷ [];
  recent_reconciles = "zero" ∷ [];
}

ahead-IsNumbered : IsNumbered 0 (map as_entry ahead.log)
unfolding pi_create
ahead-IsNumbered = (refl, (refl, (refl, (refl, tt))))

append_request-CaughtUp_example :
    CaughtUp quiet ahead behind
      (pi_handle_append_entries quiet "c1" (pi_append_request "c0" ahead) behind)
      (take 2 (map as_entry behind.log)
        ++ merge (map as_entry (drop 2 ahead.log)) (drop 2 (map as_entry behind.log)))
unfolding pi_create get_or entry_term
append_request-CaughtUp_example =
    append_request-CaughtUp quiet ahead behind ahead-IsNumbered (omega arith) refl (omega arith)

append_request-terms_example :
    let d = pi_handle_append_entries quiet "c1" (pi_append_request "c0" ahead) behind in
    (terms (take 4 (map as_entry d.log)) ≡ terms (map as_entry ahead.log))
    × EndsWithReply quiet "c1" d
unfolding pi_create get_or entry_term
append_request-terms_example =
    append_request-terms quiet ahead behind ahead-IsNumbered (omega arith) (omega arith) refl
      (omega arith)

abbrev halves : List (List String)
halves = ("c0" ∷ "c2" ∷ []) ∷ ("c1" ∷ []) ∷ []

-- Some text for a command.
abbrev dumps : Command → String
dumps (reading r) = "reading"
dumps (batch cs n) = "batch"
dumps (client zero) = "zero"
dumps (client (suc n)) = "more"

abbrev lost : ReconcileBatch
lost = record { term = 3; sender_node = "c0"; commands = client 5 ∷ client 0 ∷ client 5 ∷ [] }

reconcile_batch-proposes_example :
    let d = pi_handle_reconcile_batch dumps quiet lost ahead in
    let fresh = fresh_of dumps quiet lost ahead in
    let seen = "zero" ∷ map dumps fresh in
    (commands_in d ≡ commands_in ahead ++ singles fresh)
    × (length d.log ≡ length ahead.log + pi_rounds echo (length fresh))
    × (d.state ≡ leader)
    × IsDistinct seen
    × AllKnown dumps lost.commands seen
unfolding pi_create member
reconcile_batch-proposes_example = reconcile_batch-proposes dumps quiet lost ahead refl (refl, tt)

reconcile_batch-once_example :
    let d = pi_handle_reconcile_batch dumps quiet lost ahead in
    pi_handle_reconcile_batch dumps quiet (record lost { sender_node = "c2" }) d ≡ d
unfolding pi_create fresh_commands member
reconcile_batch-once_example =
    reconcile_batch-once dumps quiet quiet lost (record lost { sender_node = "c2" }) ahead refl refl
      (omega arith)

abbrev waiting_messages : List (String × PiPayload)
waiting_messages =
    ("c1", PiPayload.liveness_ping (record { term = 3; leader_id = "c1" }))
    ∷ ("c1", PiPayload.append_entries (pi_append_request "c0" ahead))
    ∷ ("c2", PiPayload.other_type "unheard_of")
    ∷ []

abbrev reached : PiCoordinator
reached = record behind { inbox = some waiting_messages }

drain_inbox-ends_example :
    let d = receive_all dumps (λ n. quiet) waiting_messages reached in
    (drain_inbox dumps (λ n. quiet) 4 reached ≡ some d)
    × HandledPart waiting_messages reached d
    × (2 ≤ d.current_term)
unfolding pi_create
drain_inbox-ends_example =
    drain_inbox-ends dumps (λ n. quiet) 4 waiting_messages reached refl (omega arith)

abbrev candidacy : RequestVoteRpc
candidacy = record {
  term = 5;
  candidate_id = "c2";
  last_log_index = 3;
  last_log_term = 2;
  battery_level = 60;
}

abbrev between : List (PiEnv × PiEvent)
between =
    (quiet, PiEvent.arrives "c1" (PiPayload.append_entries (pi_append_request "c0" ahead)))
    ∷ (quiet, PiEvent.arrives "c2" (PiPayload.request_vote candidacy))
    ∷ []

pi_one_vote_each_term_example : candidacy.candidate_id ≡ "c2"
unfolding pi_create pi_grants pi_run
pi_one_vote_each_term_example =
    pi_one_vote_each_term dumps quiet quiet "c2" candidacy (record candidacy { last_log_index = 4 })
      between behind refl (refl, (refl, tt)) refl refl
