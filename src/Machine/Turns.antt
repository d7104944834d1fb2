-- ===== src/Machine/Turns.antt =====
-- What one call of a coordinator does to its campaign and to the votes that it has sent.
use echod.Prelude.{
  Bool-cases, [], ap, arith, eqb, false, inl, inr, length, ltb, refl, some, true, ◌&&◌, ◌++◌, ◌∙◌,
  ◌∷◌, ◌≡◌, ◌⊎◌,
}
use echod.Dispatch.{handle_payload}
use echod.Dispatch.Campaigns.{
  Stands, append_entries-Stands, append_response-Stands, handoff-Stands, leaf_register-Stands,
  ping-Stands, request_vote-Stands, sensor-Stands,
}
use echod.Dispatch.Invariant.{campaigns}
use echod.Dispatch.Silence.{
  adopt_term-silent, append_entries-silent, append_response-silent, leaf_register-silent,
  ping-silent, sensor-silent,
}
use echod.Dispatch.Ticks.{handoff-silent}
use echod.Election.{
  count_vote, grants, handle_request_vote, handle_request_vote_response, has_majority, vote_reply,
}
use echod.Election.Ballots.{IsMajority}
use echod.Election.Promotion.{become_leader-Promoted}
use echod.Election.Silence.{become_leader-silent, either, same, send-silent, speechless}
use echod.Election.Speech.{
  SameSpeech, SameSpeech-trans, honest, honest-post, votes_cast, votes_cast-reply,
}
use echod.Machine.{Event, receives}
use echod.Messages.{NodeId, Payload, RequestVoteResponse, RequestVoteRpc, is_candidate, is_leading}
use echod.Node.{Coordinator, Env, address, percent, send, step_down}
use echod.Replication.{adopt_term}
use echod.Timers.{reset_election_timer}

-- The call has answered a vote request: it has sent a vote to the sender, and recorded the vote.
abbrev pub Casts : NodeId → Payload → Coordinator → Coordinator → Type 0
Casts sender (Payload.request_vote rpc) c d =
    (votes_cast d.outbox ≡ votes_cast c.outbox ++ (c.node_id, d.current_term, sender) ∷ [])
    × (d.voted_for ≡ some rpc.candidate_id)
Casts sender _ c d = ⊥

-- The call has counted an answer in the term of the campaign.
abbrev pub Counts : Env → NodeId → Payload → Coordinator → Coordinator → Type 0
Counts env sender (Payload.request_vote_response resp) c d =
    (campaigns c.state ≡ true)
    × (resp.term ≡ c.current_term)
    × (d.current_term ≡ c.current_term)
    × (d.votes_received ≡ count_vote resp.vote_granted sender resp.voter_battery c.votes_received)
    × ((is_leading d.state ≡ false) ⊎ IsMajority env.cluster (length d.votes_received))
Counts env sender _ c d = ⊥

abbrev pub CastsIn : Event → Coordinator → Coordinator → Type 0
CastsIn (receives msg) c d = Casts msg.sender_id msg.payload c d
CastsIn _ c d = ⊥

abbrev pub CountsIn : Env → Event → Coordinator → Coordinator → Type 0
CountsIn env (receives msg) c d = Counts env msg.sender_id msg.payload c d
CountsIn env _ c d = ⊥

pub record Turn (env : Env) (event : Event) (c d : Coordinator) : Type 0 where
  pub node_id : d.node_id ≡ c.node_id
  pub requests : honest c.node_id d.outbox ≡ honest c.node_id c.outbox
  pub votes : (votes_cast d.outbox ≡ votes_cast c.outbox) ⊎ CastsIn event c d
  pub campaign : Stands c d ⊎ CountsIn env event c d

pub same-Stands : (c : Coordinator) → Stands c c
same-Stands c = ground arith

pub quiet-Turn :
    (env : Env) (event : Event) (c d : Coordinator)
    → SameSpeech c d
    → Stands c d
    → Turn env event c d
quiet-Turn env event c d s h = record {
  node_id = s.node_id;
  requests = s.requests;
  votes = inl s.votes;
  campaign = inl h;
}

module _ (env : Env) (sender : NodeId) where
  -- A granted vote, in the object that has taken over the term.
  grant-Turn :
      (rpc : RequestVoteRpc) (c d : Coordinator)
      → d.outbox ≡ c.outbox
      → d.node_id ≡ c.node_id
      → let e =
          send env sender
            (vote_reply true d)
            (reset_election_timer env (record d { voted_for = some rpc.candidate_id })) in
        (honest c.node_id e.outbox ≡ honest c.node_id c.outbox)
        × ((votes_cast e.outbox ≡ votes_cast c.outbox)
            ⊎ Casts sender (Payload.request_vote rpc) c e)
  unfolding send reset_election_timer honest
  grant-Turn rpc c d o i =
      let resp : RequestVoteResponse = record {
        term = d.current_term;
        vote_granted = true;
        voter_id = d.node_id;
        voter_battery = percent d.battery;
      } in
      let reply = address d.node_id (sender ∷ []) (Payload.request_vote_response resp) in
      let cast = votes_cast-reply env.cluster d.node_id sender resp d.outbox refl in
      (
        honest-post c.node_id env.cluster d.outbox reply refl ∙ ap (honest c.node_id) o,
        ground (arith, cast, ap votes_cast o, i),
      )

  request_vote-Turn :
      (rpc : RequestVoteRpc) (c : Coordinator)
      → let d = handle_request_vote env sender rpc c in
        (honest c.node_id d.outbox ≡ honest c.node_id c.outbox)
        × ((votes_cast d.outbox ≡ votes_cast c.outbox)
            ⊎ Casts sender (Payload.request_vote rpc) c d)
  unfolding handle_request_vote
  request_vote-Turn rpc c =
      let d = adopt_term rpc.term c in
      let a = adopt_term-silent env sender rpc.term c in
      let refused = SameSpeech-trans a (send-silent env sender (vote_reply false d) d refl) in
      elim (Bool-cases (grants rpc d)) [
        | inl yes_ ↦ rw yes_ (grant-Turn rpc c d (ground arith) a.node_id)
        | inr no_ ↦ rw no_ (refused.requests, inl refused.votes)
      ]

  vote_response-silent :
      (resp : RequestVoteResponse) (c : Coordinator)
      → SameSpeech c (handle_request_vote_response env sender resp c)
  unfolding handle_request_vote_response step_down
  vote_response-silent resp c =
      let d = record c {
        votes_received = count_vote resp.vote_granted sender resp.voter_battery c.votes_received;
      } in
      let counted : SameSpeech c d = speechless c d refl refl in
      either (ltb c.current_term resp.term) (speechless c (step_down resp.term c) refl refl) (
        either (is_candidate c.state && eqb resp.term c.current_term)
          (either (has_majority env d) (SameSpeech-trans counted (become_leader-silent env d))
            counted)
          (same c))

  vote_response-Counts :
      (resp : RequestVoteResponse) (c : Coordinator)
      → let d = handle_request_vote_response env sender resp c in
        Stands c d ⊎ Counts env sender (Payload.request_vote_response resp) c d
  unfolding handle_request_vote_response
  vote_response-Counts resp c =
      let d = record c {
        votes_received = count_vote resp.vote_granted sender resp.voter_battery c.votes_received;
      } in
      ground (arith, become_leader-Promoted env d)

  pub payload-Turn :
      (to : NodeId) (p : Payload) (c : Coordinator)
      → Turn env
          (receives (record { sender_id = sender; recipient_id = to; payload = p }))
          c
          (handle_payload env sender p c)
  unfolding handle_payload
  payload-Turn to (Payload.request_vote rpc) c =
      let t = request_vote-Turn rpc c in
      record {
        node_id = unfold handle_request_vote in ground arith;
        requests = t.0;
        votes = t.1;
        campaign = inl (request_vote-Stands env sender rpc c);
      }
  payload-Turn to (Payload.request_vote_response resp) c =
      let s = vote_response-silent resp c in
      record {
        node_id = s.node_id;
        requests = s.requests;
        votes = inl s.votes;
        campaign = vote_response-Counts resp c;
      }
  payload-Turn to (Payload.append_entries rpc) c =
      quiet-Turn env _ c _ (append_entries-silent env sender rpc c)
        (append_entries-Stands env sender rpc c)
  payload-Turn to (Payload.append_entries_response resp) c =
      quiet-Turn env _ c _ (append_response-silent env sender resp c)
        (append_response-Stands env sender resp c)
  payload-Turn to (Payload.liveness_ping ping) c =
      quiet-Turn env _ c _ (ping-silent env sender ping c) (ping-Stands env sender ping c)
  payload-Turn to (Payload.leadership_handoff handoff) c =
      quiet-Turn env _ c _ (handoff-silent env sender handoff c)
        (handoff-Stands env sender handoff c)
  payload-Turn to (Payload.leaf_register req) c =
      quiet-Turn env _ c _ (leaf_register-silent env sender req c)
        (leaf_register-Stands env sender req c)
  payload-Turn to (Payload.leaf_register_response resp) c =
      quiet-Turn env _ c _ (same c) (same-Stands c)
  payload-Turn to (Payload.sensor_data report) c =
      quiet-Turn env _ c _ (sensor-silent env sender report c) (sensor-Stands env sender report c)
