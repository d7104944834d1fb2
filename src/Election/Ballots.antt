-- ===== src/Election/Ballots.antt =====
-- Who gets a vote, and who becomes leader.
use echod.Log
use echod.Prelude.{
  Bool, List, Option, [], ap, arith, eq_iff, eqb, false, if◌then◌else◌, inl, length, max, none, not,
  refl, some, suc, sym, true, ℕ, ◌&&◌, ◌*◌, ◌++◌, ◌<◌, ◌==◌, ◌↔◌, ◌∙◌, ◌∷◌, ◌≡◌, ◌≢◌, ◌≤◌, ◌⊎◌,
}
use echod.Config.{t_low}
use echod.Election.{
  coordinator_count, count_vote, grants, handle_request_vote, handle_request_vote_response,
  may_vote, vote_reply,
}
use echod.Election.Promotion.{become_leader-Promoted, count_vote-IsDistinct}
use echod.Messages.{NodeId, RequestVoteResponse, RequestVoteRpc, candidate, leader, observer}
use echod.Node.{Coordinator, Env, Peer, address, raft, sendable}
use echod.Prelude.Dict.{Dict, IsDistinct, add, keys, keys-put, length-keys, member, member-add, put}
use echod.Replication.{adopt_term}

-- What a voter asks of a candidate, once it has taken over a higher term: the same term, not to be
-- an observer itself, enough battery (ECHO and echoD), a free vote or one that is the candidate's
-- already, and a log that ends in a later term, or in the same term at no lower an index.
abbrev pub Deserves : RequestVoteRpc → Coordinator → Type 0
Deserves rpc c =
    (rpc.term ≡ c.current_term)
    × (c.state ≢ observer)
    × ((c.protocol ≡ raft) ⊎ (t_low ≤ rpc.battery_level))
    × ((c.voted_for ≡ none) ⊎ (c.voted_for ≡ some rpc.candidate_id))
    × ((Log.last_term c.log < rpc.last_log_term)
        ⊎ ((rpc.last_log_term ≡ Log.last_term c.log) × (Log.last_index c.log ≤ rpc.last_log_index)))

may_vote_iff :
    (v : Option NodeId) (i : NodeId) → (may_vote v i ≡ true) ↔ ((v ≡ none) ⊎ (v ≡ some i))
may_vote_iff none i = (λ h. inl refl, λ h. refl)
may_vote_iff (some j) i = (λ h. ground (arith, eq_iff j i), λ h. ground (arith, eq_iff j i))

-- A vote is granted exactly to a candidate that deserves it.
pub grants_iff : (rpc : RequestVoteRpc) (c : Coordinator) → (grants rpc c ≡ true) ↔ Deserves rpc c
unfolding grants
grants_iff rpc c = (
  λ h. ground (arith, may_vote_iff c.voted_for rpc.candidate_id),
  λ h. ground (arith, may_vote_iff c.voted_for rpc.candidate_id),
)

-- The answer to a vote request: exactly one message goes to the sender, in the node's new term,
-- with a grant or a refusal. It is a grant exactly if the candidate deserves the vote in the node
-- that has taken over a higher term, where a low battery speaks against a candidate in ECHO and
-- echoD only; the vote is then recorded, and otherwise it is as it was
-- after that takeover.
pub handle_request_vote-answers :
    (env : Env) (sender : NodeId) (rpc : RequestVoteRpc) (c : Coordinator)
    → let t = adopt_term rpc.term c in
      let d = handle_request_vote env sender rpc c in
      (granted : Bool) × (d.outbox
        ≡ c.outbox ++ sendable env.cluster (address c.node_id (sender ∷ []) (vote_reply granted t)))
      × ((granted ≡ true) ↔ Deserves rpc t)
      × (d.voted_for ≡ (if granted then some rpc.candidate_id else t.voted_for))
      × (d.current_term ≡ max c.current_term rpc.term)
      × (d.log ≡ c.log)
unfolding handle_request_vote
handle_request_vote-answers env sender rpc c =
    let t = adopt_term rpc.term c in
    (grants rpc t, ground arith, grants_iff rpc t, ground arith, ground arith, ground arith)

-- More than half of the cluster's coordinators.
abbrev pub IsMajority : Option (List Peer) → ℕ → Type 0
IsMajority none votes = ⊥
IsMajority (some ps) votes = coordinator_count ps < 2 * votes

-- How many voters there are once `sender` has answered, if each counts once.
abbrev pub voter_count : Bool → NodeId → List NodeId → ℕ
voter_count granted sender voters =
    if granted && not (member sender voters) then suc (length voters) else length voters

-- Whether `v` has given its vote.
abbrev pub has_voted : Bool → NodeId → List NodeId → NodeId → Bool
has_voted granted sender voters v = if granted && (sender == v) then true else member v voters

length-add :
    (k : NodeId) (l : List NodeId)
    → length (add k l) ≡ (if member k l then length l else suc (length l))
unfolding add member
length-add k [] = refl
length-add k (j ∷ l) = ground (arith, length-add k l, eq_iff j k)

length-count_vote :
    (b : Bool) (voter : NodeId) (level : ℕ) (votes : Dict ℕ)
    → length (count_vote b voter level votes) ≡ voter_count b voter (keys votes)
length-count_vote true voter level votes = ground (
  arith,
  length-keys (put voter level votes),
  ap length (keys-put voter level votes),
  length-add voter (keys votes),
)
length-count_vote false voter level votes = sym (length-keys votes)

pub member-count_vote :
    (b : Bool) (voter : NodeId) (level : ℕ) (votes : Dict ℕ) (v : NodeId)
    → member v (keys (count_vote b voter level votes)) ≡ has_voted b voter (keys votes) v
member-count_vote true voter level votes v =
    ap (member v) (keys-put voter level votes) ∙ member-add voter v (keys votes) ∙ ground arith
member-count_vote false voter level votes v = ground arith

-- A candidate that gets an answer to its vote request in its own term ends as leader exactly if its
-- voters are more than half of the coordinators, where the sender counts, once, if it granted its
-- vote or had done so before; and exactly these, without repetition, are recorded. An answer of
-- another term makes it no leader and records no vote.
pub handle_request_vote_response-elects :
    (env : Env) (sender v : NodeId) (resp : RequestVoteResponse) (c : Coordinator)
    → c.state ≡ candidate
    → IsDistinct (keys c.votes_received)
    → let voters = keys c.votes_received in
      let d = handle_request_vote_response env sender resp c in
      ((d.state ≡ leader) ↔ (
        (resp.term ≡ c.current_term)
        × IsMajority env.cluster (voter_count resp.vote_granted sender voters)))
      × IsDistinct (keys d.votes_received)
      × (member v (keys d.votes_received)
          ≡ has_voted (resp.vote_granted && eqb resp.term c.current_term) sender voters v)
unfolding handle_request_vote_response
handle_request_vote_response-elects env sender v resp c h distinct =
    let votes = count_vote resp.vote_granted sender resp.voter_battery c.votes_received in
    let d = record c { votes_received = votes } in
    let promoted = become_leader-Promoted env d in
    let size = length-count_vote resp.vote_granted sender resp.voter_battery c.votes_received in
    let once =
      count_vote-IsDistinct resp.vote_granted sender resp.voter_battery c.votes_received distinct in
    let who = member-count_vote resp.vote_granted sender resp.voter_battery c.votes_received v in
    (
      (λ e. ground (arith, promoted, size), λ e. ground (arith, promoted, size)),
      ground (arith, promoted, once, distinct),
      ground (arith, promoted, who),
    )
