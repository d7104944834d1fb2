-- ===== src/Election/Promotion.antt =====
-- What a promotion to leader does.
use echod.Prelude.{Bool, arith, false, true, ℕ, ◌≡◌}
use echod.Config.{liveness_ping_interval}
use echod.Election.{base_become_leader, become_leader, count_vote, promotion}
use echod.Liveness.Backoff.{PingInRange}
use echod.Messages.{NodeId, leader}
use echod.Node.{Coordinator, Env, Protocol, echo, echo_d, raft}
use echod.Prelude.Dict.{Dict, IsDistinct, keys, put-IsDistinct}
use echod.Triggers.Frame.{flush_pending_triggers-OnlyLogChanges}

-- The promoted node `d`: a leader in the same term, with the same vote and the same votes received.
pub record Promoted (c d : Coordinator) : Type 0 where
  pub state : d.state ≡ leader
  pub protocol : d.protocol ≡ c.protocol
  pub node_id : d.node_id ≡ c.node_id
  pub battery : d.battery ≡ c.battery
  pub current_term : d.current_term ≡ c.current_term
  pub voted_for : d.voted_for ≡ c.voted_for
  pub votes_received : d.votes_received ≡ c.votes_received
  pub partition_epoch : d.partition_epoch ≡ c.partition_epoch
  pub batch_buffer : d.batch_buffer ≡ c.batch_buffer
  pub batch_deadline : d.batch_deadline ≡ c.batch_deadline
  pub commit_index : d.log.commit_index ≡ c.log.commit_index

base_become_leader-Promoted : (env : Env) (c : Coordinator) → Promoted c (base_become_leader env c)
unfolding base_become_leader
base_become_leader-Promoted env c = ground arith

promotion-Promoted : (p : Protocol) (env : Env) (c : Coordinator) → Promoted c (promotion p env c)
promotion-Promoted raft env c = base_become_leader-Promoted env c
promotion-Promoted echo env c = ground (
  arith,
  base_become_leader-Promoted env c,
  flush_pending_triggers-OnlyLogChanges env (base_become_leader env c),
)
promotion-Promoted echo_d env c =
    let d = record c { handoff_sent = false; ping_interval = liveness_ping_interval } in
    ground (
      arith,
      base_become_leader-Promoted env d,
      flush_pending_triggers-OnlyLogChanges env (base_become_leader env d),
    )

pub become_leader-Promoted : (env : Env) (c : Coordinator) → Promoted c (become_leader env c)
unfolding become_leader
become_leader-Promoted env c = promotion-Promoted c.protocol env c

pub become_leader-PingInRange :
    (env : Env) (c : Coordinator)
    → PingInRange c.ping_interval
    → PingInRange (become_leader env c).ping_interval
unfolding become_leader
become_leader-PingInRange env c h = promote c.protocol
  where
    promote : (p : Protocol) → PingInRange (promotion p env c).ping_interval
    promote raft = ground arith
    promote echo =
        ground (arith, flush_pending_triggers-OnlyLogChanges env (base_become_leader env c))
    promote echo_d =
        let d = record c { handoff_sent = false; ping_interval = liveness_ping_interval } in
        ground (arith, flush_pending_triggers-OnlyLogChanges env (base_become_leader env d))

pub count_vote-IsDistinct :
    (b : Bool) (voter : NodeId) (level : ℕ) (votes : Dict ℕ)
    → IsDistinct (keys votes)
    → IsDistinct (keys (count_vote b voter level votes))
count_vote-IsDistinct true voter level votes h = put-IsDistinct voter level votes h
count_vote-IsDistinct false voter level votes h = h
