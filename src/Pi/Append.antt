-- ===== src/Pi/Append.antt =====
-- AppendEntries of the hardware coordinator, rpi/coordinator/echo_node.py.
use echod.Prelude.{
  Bool, List, Option, [], drop, eqb, false, get_elem?, if◌then◌else◌, leb, length, ltb, max, min,
  none, some, suc, take, true, zero, ℕ, ◌&&◌, ◌++◌, ◌+◌, ◌-◌, ◌==◌, ◌∷◌,
}
use echod.Messages.{AppendEntriesResponse, Command, NodeId, is_leader}
use echod.Node.{Protocol, raft}
use echod.Pi.{PiCoordinator, PiEnv, pi_adopt_term, pi_reset_election_timer, pi_send, pi_step_down}
use echod.Pi.Rounds.{entry_term, from_dict, pi_try_advance_commit, term_of_entry}
use echod.Pi.Votes.{last_log_term}
use echod.Prelude.Dict.{get_or, put}
use echod.Replication.{to_follower}
use echod.Wire.{PiAppend, PiEntry, PiPayload, RawEntry}

abbrev pub pi_append_reply : PiEnv → Bool → ℕ → PiCoordinator → PiPayload
pi_append_reply env success match_index c = PiPayload.append_response (record {
  term = c.current_term;
  success = success;
  responder_id = c.node_id;
  match_index = match_index;
  responder_battery = env.level;
})

unfoldable pub reject_append : PiEnv → NodeId → PiCoordinator → PiCoordinator
unfolding pi_send
reject_append env sender c = pi_send sender (pi_append_reply env false 0 c) c

-- [e.command for e in truncated if e.partition_epoch != 0]
unfoldable pub provisional_commands : List PiEntry → List Command
provisional_commands [] = []
provisional_commands (e ∷ es) =
    let rest = provisional_commands es in if eqb e.partition_epoch 0 then rest else e.command ∷ rest

-- The leader that truncated commands go to.
abbrev pub replay_target : Protocol → NodeId → Option NodeId → Option NodeId
replay_target raft me known = none
replay_target p me none = none
replay_target p me (some l) = if l == me then none else some l

abbrev pub replay_to : Option NodeId → List Command → PiCoordinator → PiCoordinator
replay_to target [] c = c
replay_to none (command ∷ rest) c = c
replay_to (some l) (command ∷ rest) c =
    pi_send l
      (PiPayload.reconcile_batch
        (record { term = c.current_term; sender_node = c.node_id; commands = command ∷ rest }))
      c

unfoldable pub replay_provisional : List PiEntry → PiCoordinator → PiCoordinator
unfolding provisional_commands pi_send
replay_provisional truncated c =
    replay_to (replay_target c.protocol c.node_id c.current_leader_id)
      (provisional_commands truncated) c

-- The term of log[index - 1] where index <= len(log); an index of 0 reads the last entry.
abbrev pub stored_term : List PiEntry → ℕ → ℕ
stored_term log zero = last_log_term log
stored_term log (suc i) = term_of_entry (get_elem? log i)

-- log[:index - 1] and log[index - 1:], where an index of 0 counts from the end
abbrev pub cut_at : List PiEntry → ℕ → ℕ
cut_at log zero = length log - 1
cut_at log (suc i) = i

-- One round of the loop over the entries. An index of 0 has no entry to read in an empty log, and
-- raises.
unfoldable pub pi_store_entry : PiEntry → PiCoordinator → PiCoordinator
unfolding replay_provisional
pi_store_entry entry c =
    if eqb entry.index 0 && eqb (length c.log) 0
    then record c { raised = true }
    else if leb entry.index (length c.log)
    then (if eqb (stored_term c.log entry.index) entry.term
        then c
        else replay_provisional (drop (cut_at c.log entry.index) c.log)
            (record c { log = take (cut_at c.log entry.index) c.log ++ entry ∷ [] }))
    else record c { log = c.log ++ entry ∷ [] }

unfoldable pub pi_store_entries : ℕ → List RawEntry → PiCoordinator → PiCoordinator
unfolding from_dict pi_store_entry
pi_store_entries now [] c = c
pi_store_entries now (raw ∷ raws) c =
    let d = pi_store_entry (from_dict now raw) c in
    let rest = pi_store_entries now raws d in if d.raised then d else rest

-- whether the log has the entry before the request's
unfoldable pub pi_is_consistent : PiAppend → List PiEntry → Bool
unfolding entry_term
pi_is_consistent p log =
    if ltb 0 p.prev_log_index
    then (if ltb (length log) p.prev_log_index
        then false
        else eqb (entry_term log p.prev_log_index) p.prev_log_term)
    else true

unfoldable pub pi_follow_commit : ℕ → PiCoordinator → PiCoordinator
pi_follow_commit leader_commit c =
    if ltb c.commit_index leader_commit
    then record c { commit_index = min leader_commit (length c.log) }
    else c

abbrev pub accept : PiEnv → NodeId → PiCoordinator → PiCoordinator
accept env sender c = pi_send sender (pi_append_reply env true (length c.log) c) c

-- what follows the loop over the entries, if nothing was raised in it
abbrev pub finish : PiEnv → NodeId → PiAppend → PiCoordinator → PiCoordinator
finish env sender p c =
    if c.raised then c else accept env sender (pi_follow_commit p.leader_commit c)

-- the part of the handler below its test of the term, where nothing has been raised yet
unfoldable pub pi_follow : PiEnv → NodeId → PiAppend → PiCoordinator → PiCoordinator
unfolding pi_reset_election_timer pi_is_consistent pi_store_entries pi_follow_commit reject_append
    pi_send
pi_follow env sender p c =
    let d = record (pi_reset_election_timer env c) {
      current_leader_id = some p.leader_id;
      state = to_follower c.state;
      raised = false;
    } in
    if pi_is_consistent p d.log
    then finish env sender p (pi_store_entries env.now p.entries d)
    else reject_append env sender d

unfoldable pub pi_handle_append_entries : PiEnv → NodeId → PiAppend → PiCoordinator → PiCoordinator
unfolding pi_step_down reject_append pi_follow
pi_handle_append_entries env sender p c =
    let d = pi_adopt_term env p.term c in
    if ltb p.term d.current_term then reject_append env sender d else pi_follow env sender p d

unfoldable pub pi_handle_append_response :
    PiEnv → NodeId → AppendEntriesResponse → PiCoordinator → PiCoordinator
unfolding pi_step_down pi_try_advance_commit
pi_handle_append_response env sender resp c =
    if ltb c.current_term resp.term
    then pi_step_down env resp.term c
    else (let d = record c {
      peer_batteries = put sender resp.responder_battery c.peer_batteries;
    } in
        if is_leader d.state
        then (if resp.success
            then pi_try_advance_commit env (record d {
              next_index = put sender (resp.match_index + 1) d.next_index;
              match_index = put sender resp.match_index d.match_index;
            })
            else record d {
              next_index = put sender (max 1 (get_or sender 1 d.next_index - 1)) d.next_index;
            })
        else d)
