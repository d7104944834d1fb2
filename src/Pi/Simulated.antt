-- ===== src/Pi/Simulated.antt =====
-- The hardware coordinator against the simulated one.
use echod.Log
use echod.Prelude.{List, [], arith, length-map, map, refl, some, ◌++◌, ◌<◌, ◌↔◌, ◌∷◌, ◌≡◌, ◌≢◌, ◌⊎◌}
use echod.Config.{t_low, t_restore}
use echod.Election.{grants, handle_request_vote}
use echod.Log.{ReplicatedLog}
use echod.Messages.{LogEntry, NodeId, RequestVoteRpc, delta, observer}
use echod.Node.{Coordinator, Env, raft}
use echod.Pi.{PiCoordinator, PiEnv, check_battery}
use echod.Pi.Votes.{last_log_term, pi_handle_request_vote, pi_vote_reply}
use echod.Replication.{adopt_term}
use echod.Wire.{PiEntry}

-- The simulated entry, log and object with the same state. The text of the trigger has no
-- counterpart, and no rule reads it.
abbrev pub as_entry : PiEntry → LogEntry
as_entry e = record {
  index = e.index;
  term = e.term;
  command = e.command;
  trigger_type = delta;
  partition_epoch = e.partition_epoch;
}

abbrev pub as_log : ReplicatedLog → List PiEntry → ReplicatedLog
as_log log es = record log { entries = map as_entry es }

abbrev pub as_simulated : ReplicatedLog → Coordinator → PiCoordinator → Coordinator
as_simulated log base c = record base {
  protocol = c.protocol;
  node_id = c.node_id;
  current_term = c.current_term;
  voted_for = c.voted_for;
  log = as_log log c.log;
  state = c.state;
}

term_of_last-map : (es : List PiEntry) → Log.term_of_last (map as_entry es) ≡ last_log_term es
term_of_last-map [] = refl
term_of_last-map (e ∷ []) = refl
term_of_last-map (e ∷ f ∷ es) = term_of_last-map (f ∷ es)

-- The hardware coordinator answers a vote request as the simulated one with the same state does: it
-- grants the vote in the same cases, and ends with the same term, vote and node state; and in every
-- case it sends one answer, to the sender.
pub pi_handle_request_vote-refines :
    (pi : PiEnv) (env : Env) (sender : NodeId) (rpc : RequestVoteRpc) (log : ReplicatedLog)
    (base : Coordinator) (c : PiCoordinator)
    → let d = pi_handle_request_vote pi sender rpc c in
      let s = as_simulated log base c in
      let e = handle_request_vote env sender rpc s in
      (d.current_term ≡ e.current_term)
      × (d.voted_for ≡ e.voted_for)
      × (d.state ≡ e.state)
      × (map as_entry d.log ≡ e.log.entries)
      × (d.sent
          ≡ c.sent
            ++ record {
              recipient_id = some sender;
              payload = pi_vote_reply pi (grants rpc (adopt_term rpc.term s)) d;
            }
              ∷ [])
unfolding pi_handle_request_vote handle_request_vote
pi_handle_request_vote-refines pi env sender rpc log base c =
    let t = term_of_last-map c.log in
    let n = length-map c.log as_entry in
    (
      ground (arith, t, n),
      ground (arith, t, n),
      ground (arith, t, n),
      ground (arith, t, n),
      ground (arith, t, n),
    )

-- The battery check of ECHO and echoD makes a node an observer below `T_LOW`, and an observer a
-- follower from `T_RESTORE` on, and leaves the term; with Raft it changes nothing.
pub check_battery-gates :
    (env : PiEnv) (c : PiCoordinator)
    → let d = check_battery env c.protocol c in
      ((c.protocol ≡ raft)
        ⊎ ((d.state ≡ observer)
            ↔ ((env.level < t_low) ⊎ ((c.state ≡ observer) × (env.level < t_restore)))))
      × ((c.protocol ≢ raft) ⊎ (d ≡ c))
      × (d.current_term ≡ c.current_term)
unfolding check_battery
check_battery-gates env c = (ground arith, ground arith, ground arith)
