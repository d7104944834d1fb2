-- ===== src/Machine/Revotes.antt =====
-- A vote that a pass through the observer state frees (simulation/core/node.py, `tick_battery`).
use echod.Log
use echod.Prelude.{ap, arith, none, refl, sym, true, ℤ, ◌*◌, ◌<◌, ◌∙◌, ◌≡◌, ◌≢◌, ◌≤◌}
use echod.Config.{one_percent, t_low, t_restore}
use echod.Election.{grants, handle_request_vote}
use echod.Log.Commits.{change}
use echod.Messages.{NodeId, RequestVoteRpc, follower, observer}
use echod.Node.{Coordinator, Env, drained, tick_battery}
use echod.Replication.{adopt_term}

drains-observer :
    (change : ℤ) (c : Coordinator)
    → c.state ≢ observer
    → drained c.battery change < t_low * one_percent
    → tick_battery change c
      ≡ record c { battery = drained c.battery change; state = observer; voted_for = none }
unfolding tick_battery
drains-observer change c h low = ground arith

restores-follower :
    (change : ℤ) (c : Coordinator)
    → c.state ≡ observer
    → t_restore * one_percent ≤ drained c.battery change
    → tick_battery change c ≡ record c { battery = drained c.battery change; state = follower }
unfolding tick_battery
restores-follower change c h high = ground arith

-- The node that has answered a request, drained below `T_LOW` and charged to `T_RESTORE`.
abbrev pub recharged : ℤ → ℤ → Coordinator → Coordinator
recharged down up c = tick_battery up (tick_battery down c)

freed :
    (down up : ℤ) (c : Coordinator)
    → c.state ≢ observer
    → drained c.battery down < t_low * one_percent
    → t_restore * one_percent ≤ drained (drained c.battery down) up
    → let d = recharged down up c in
      (d.voted_for ≡ none)
      × (d.state ≡ follower)
      × (d.current_term ≡ c.current_term)
      × (d.log ≡ c.log)
      × (d.protocol ≡ c.protocol)
freed down up c h low high =
    let first = drains-observer down c h low in
    let second =
      restores-follower up
        (record c { battery = drained c.battery down; state = observer; voted_for = none }) refl
        high in
    rw (first, second) (refl, refl, refl, refl, refl)

unobserved :
    (env : Env) (sender : NodeId) (rpc : RequestVoteRpc) (c : Coordinator)
    → c.state ≢ observer
    → c.current_term ≤ rpc.term
    → let d = handle_request_vote env sender rpc c in
      (d.state ≢ observer) × (d.battery ≡ c.battery) × (d.current_term ≡ rpc.term) × (d.log ≡ c.log)
unfolding handle_request_vote
unobserved env sender rpc c h e = ground arith

-- A free follower in the term of a request grants it, if the candidate has the battery and the log.
free-grants :
    (rpc : RequestVoteRpc) (c : Coordinator)
    → c.voted_for ≡ none
    → c.state ≡ follower
    → c.current_term ≡ rpc.term
    → t_low ≤ rpc.battery_level
    → Log.is_up_to_date c.log rpc.last_log_index rpc.last_log_term ≡ true
    → grants rpc (adopt_term rpc.term c) ≡ true
unfolding grants
free-grants rpc c v s t level fresh = ground arith

-- A node that is no observer has answered a vote request that is not behind its term. If its
-- battery then falls below `T_LOW` and comes back to `T_RESTORE`, it grants a vote to any candidate
-- of the request's term that has enough battery and a log that is up to date, also if its first
-- vote went to another candidate.
pub recharged-grants :
    (env : Env) (sender : NodeId) (rpc rpc' : RequestVoteRpc) (c : Coordinator) (down up : ℤ)
    → c.state ≢ observer
    → c.current_term ≤ rpc.term
    → drained c.battery down < t_low * one_percent
    → t_restore * one_percent ≤ drained (drained c.battery down) up
    → rpc'.term ≡ rpc.term
    → t_low ≤ rpc'.battery_level
    → Log.is_up_to_date c.log rpc'.last_log_index rpc'.last_log_term ≡ true
    → grants rpc' (adopt_term rpc'.term (recharged down up (handle_request_vote env sender rpc c)))
      ≡ true
recharged-grants env sender rpc rpc' c down up h term low high same level fresh =
    let a = handle_request_vote env sender rpc c in
    let u = unobserved env sender rpc c h term in
    let low_ : drained a.battery down < t_low * one_percent = rw (u.1) low in
    let high_ : t_restore * one_percent ≤ drained (drained a.battery down) up = rw (u.1) high in
    let f = freed down up a u.0 low_ high_ in
    free-grants rpc' (recharged down up a) f.0 f.1 (f.2 ∙ u.2 ∙ sym same) level
      (ap (λ l. Log.is_up_to_date l rpc'.last_log_index rpc'.last_log_term) (f.3 ∙ u.3) ∙ fresh)
