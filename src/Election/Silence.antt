-- ===== src/Election/Silence.antt =====
-- The operations that send neither votes nor vote requests.
use echod.Log
use echod.Prelude.{Bool, List, [], ap, false, if◌then◌else◌, none, refl, true, ◌+◌, ◌∷◌, ◌≡◌}
use echod.Config.{liveness_ping_interval}
use echod.Election.{base_become_leader, become_leader, promotion, put_each}
use echod.Election.Speech.{
  SameSpeech, SameSpeech-trans, address-Quiet, append_messages-Quiet, honest, is_quiet, post-Quiet,
  votes_cast,
}
use echod.Liveness.{
  adaptive_ping, broadcast_ping, next_ping_interval, ping_method, ping_of, send_heartbeats,
  send_leaf_keepalives, send_liveness_ping,
}
use echod.Messages.{Command, NodeId, Payload, TriggerType, delta, leader}
use echod.Node.{
  Coordinator, Env, Protocol, address, all_except, coordinators_except, echo, echo_d, members, raft,
  send,
}
use echod.Prelude.Dict.{keys}
use echod.Replication.{append_messages, new_entry, replicate_entry}
use echod.Triggers.{
  batch_command, coalesce, commands_of, flush_batch, flush_commands, flush_pending_triggers,
  replay_as_one, replay_method, replicate_each,
}

pub speechless : (c d : Coordinator) → d.node_id ≡ c.node_id → d.outbox ≡ c.outbox → SameSpeech c d
speechless c d i o = record {
  node_id = i;
  requests = ap (honest c.node_id) o;
  votes = ap votes_cast o;
}

pub same : (c : Coordinator) → SameSpeech c c
same c = speechless c c refl refl

-- A test decides between two silent outcomes.
pub either :
    (b : Bool) {c x y : Coordinator}
    → SameSpeech c x
    → SameSpeech c y
    → SameSpeech c (if b then x else y)
either true p q = p
either false p q = q

-- One `send` of a payload that is neither.
pub send-silent :
    (env : Env) (to : NodeId) (p : Payload) (c : Coordinator)
    → is_quiet c.node_id p ≡ true
    → SameSpeech c (send env to p c)
unfolding send
send-silent env to p c h =
    post-Quiet env (address c.node_id (to ∷ []) p) c (address-Quiet c.node_id (to ∷ []) p h)

pub replicate_entry-silent :
    (env : Env) (command : Command) (trigger : TriggerType) (c : Coordinator)
    → SameSpeech c (replicate_entry env command trigger c)
unfolding replicate_entry
replicate_entry-silent env command trigger c =
    let d = record c { log = Log.append (new_entry command trigger c) c.log } in
    SameSpeech-trans (speechless c d refl refl) (
      post-Quiet env (append_messages d (keys c.next_index)) d
        (append_messages-Quiet d (keys c.next_index)))

replicate_each-silent :
    (env : Env) (pending : List (Command × TriggerType)) (c : Coordinator)
    → SameSpeech c (replicate_each env pending c)
unfolding replicate_each
replicate_each-silent env [] c = same c
replicate_each-silent env ((command, trigger) ∷ rest) c =
    SameSpeech-trans (replicate_entry-silent env command trigger c)
      (replicate_each-silent env rest (replicate_entry env command trigger c))

replay_as_one-silent :
    (env : Env) (pending : List (Command × TriggerType)) (c : Coordinator)
    → SameSpeech c (replay_as_one env pending c)
unfolding replay_as_one
replay_as_one-silent env [] c = same c
replay_as_one-silent env ((command, trigger) ∷ []) c =
    let d = record c { last_consensus_activity = env.now } in
    SameSpeech-trans (speechless c d refl refl) (replicate_entry-silent env command trigger d)
replay_as_one-silent env ((command, trigger) ∷ next ∷ rest) c =
    let d = record c { last_consensus_activity = env.now } in
    SameSpeech-trans (speechless c d refl refl) (
      replicate_entry-silent env (batch_command (commands_of ((command, trigger) ∷ next ∷ rest)))
        trigger d)

replay_method-silent :
    (p : Protocol) (env : Env) (pending : List (Command × TriggerType)) (c : Coordinator)
    → SameSpeech c (replay_method p env pending c)
replay_method-silent raft env pending c = same c
replay_method-silent echo env pending c = replicate_each-silent env pending c
replay_method-silent echo_d env pending c = replay_as_one-silent env pending c

pub flush_pending_triggers-silent :
    (env : Env) (c : Coordinator) → SameSpeech c (flush_pending_triggers env c)
unfolding flush_pending_triggers
flush_pending_triggers-silent env c =
    let d = record c { pending_triggers = [] } in
    SameSpeech-trans (speechless c d refl refl)
      (replay_method-silent c.protocol env c.pending_triggers d)

flush_commands-silent :
    (env : Env) (cs : List Command) (c : Coordinator) → SameSpeech c (flush_commands env cs c)
flush_commands-silent env [] c = speechless c (record c { batch_deadline = none }) refl refl
flush_commands-silent env (command ∷ rest) c =
    let d = record c {
      batch_buffer = [];
      batch_deadline = none;
      last_consensus_activity = env.now;
    } in
    SameSpeech-trans (speechless c d refl refl)
      (replicate_entry-silent env (coalesce (command ∷ rest)) delta d)

pub flush_batch-silent : (env : Env) (c : Coordinator) → SameSpeech c (flush_batch env c)
unfolding flush_batch
flush_batch-silent env c = flush_commands-silent env c.batch_buffer c

adaptive_ping-silent : (env : Env) (c : Coordinator) → SameSpeech c (adaptive_ping env c)
unfolding adaptive_ping
adaptive_ping-silent env c =
    let is = coordinators_except c.node_id (members env.cluster) in
    let d = record c {
      ping_interval = next_ping_interval c.last_consensus_activity c.last_ping_time c.ping_interval;
    } in
    SameSpeech-trans (speechless c d refl refl) (
      post-Quiet env (address c.node_id is (ping_of c)) d
        (address-Quiet c.node_id is (ping_of c) refl))

broadcast_ping-silent : (env : Env) (c : Coordinator) → SameSpeech c (broadcast_ping env c)
unfolding broadcast_ping
broadcast_ping-silent env c =
    let is = all_except c.node_id (members env.cluster) in
    post-Quiet env (address c.node_id is (ping_of c)) c
      (address-Quiet c.node_id is (ping_of c) refl)

ping_method-silent :
    (p : Protocol) (env : Env) (c : Coordinator) → SameSpeech c (ping_method p env c)
ping_method-silent raft env c = broadcast_ping-silent env c
ping_method-silent echo env c = broadcast_ping-silent env c
ping_method-silent echo_d env c = adaptive_ping-silent env c

pub send_liveness_ping-silent :
    (env : Env) (c : Coordinator) → SameSpeech c (send_liveness_ping env c)
unfolding send_liveness_ping
send_liveness_ping-silent env c = ping_method-silent c.protocol env c

pub send_heartbeats-silent : (env : Env) (c : Coordinator) → SameSpeech c (send_heartbeats env c)
unfolding send_heartbeats
send_heartbeats-silent env c =
    post-Quiet env (append_messages c (keys c.next_index)) c
      (append_messages-Quiet c (keys c.next_index))

pub send_leaf_keepalives-silent :
    (env : Env) (c : Coordinator) → SameSpeech c (send_leaf_keepalives env c)
unfolding send_leaf_keepalives
send_leaf_keepalives-silent env c =
    post-Quiet env (address c.node_id c.leaves (ping_of c)) c
      (address-Quiet c.node_id c.leaves (ping_of c) refl)

base_become_leader-silent : (env : Env) (c : Coordinator) → SameSpeech c (base_become_leader env c)
unfolding base_become_leader
base_become_leader-silent env c =
    let others = coordinators_except c.node_id (members env.cluster) in
    let d = record c {
      state = leader;
      next_index = put_each others (Log.last_index c.log + 1) c.next_index;
      match_index = put_each others 0 c.match_index;
      last_ping_time = env.now;
    } in
    SameSpeech-trans (speechless c d refl refl) (send_liveness_ping-silent env d)

promotion-silent : (p : Protocol) (env : Env) (c : Coordinator) → SameSpeech c (promotion p env c)
promotion-silent raft env c = base_become_leader-silent env c
promotion-silent echo env c =
    SameSpeech-trans (base_become_leader-silent env c)
      (flush_pending_triggers-silent env (base_become_leader env c))
promotion-silent echo_d env c =
    let d = record c { handoff_sent = false; ping_interval = liveness_ping_interval } in
    SameSpeech-trans (speechless c d refl refl) (
      SameSpeech-trans (base_become_leader-silent env d)
        (flush_pending_triggers-silent env (base_become_leader env d)))

pub become_leader-silent : (env : Env) (c : Coordinator) → SameSpeech c (become_leader env c)
unfolding become_leader
become_leader-silent env c = promotion-silent c.protocol env c
