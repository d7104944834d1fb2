-- ===== src/Election/Speech.antt =====
-- The vote requests and the votes among the messages that a node has sent.
use echod.Prelude.{
  Bool, List, Option, [], ap, append-nil, append_assoc, arith, eq_refl, if◌then◌else◌, inl, inr,
  none, not, refl, some, subst, sym, true, ℕ, ◌&&◌, ◌++◌, ◌==◌, ◌∙◌, ◌∷◌, ◌≡◌, ◌⊎◌,
}
use echod.Messages.{Message, NodeId, Payload, RequestVoteResponse}
use echod.Node.{Coordinator, Env, Peer, address, ms, post, sendable}
use echod.Replication.{append_messages}

-- A vote request names its sender as the candidate.
abbrev is_fair : NodeId → NodeId → Payload → Bool
is_fair me sender (Payload.request_vote rpc) = rpc.candidate_id == me && sender == me
is_fair me sender _ = true

-- Every vote request in the list is for `me`, and sent by it.
unfoldable pub honest : NodeId → List Message → Bool
honest me [] = true
honest me (m ∷ ms) = is_fair me m.sender_id m.payload && honest me ms

-- The vote of a payload: who casts it, in which term, for whom.
abbrev pub vote_in : NodeId → NodeId → Payload → List (NodeId × ℕ × NodeId)
vote_in sender recipient (Payload.request_vote_response resp) =
    if resp.vote_granted then (sender, resp.term, recipient) ∷ [] else []
vote_in sender recipient _ = []

unfoldable pub votes_cast : List Message → List (NodeId × ℕ × NodeId)
votes_cast [] = []
votes_cast (m ∷ ms) = vote_in m.sender_id m.recipient_id m.payload ++ votes_cast ms

honest-append :
    (me : NodeId) (xs ys : List Message) → honest me (xs ++ ys) ≡ (honest me xs && honest me ys)
unfolding honest
honest-append me [] ys = refl
honest-append me (m ∷ ms) ys = ground (arith, honest-append me ms ys)

votes_cast-append : (xs ys : List Message) → votes_cast (xs ++ ys) ≡ votes_cast xs ++ votes_cast ys
unfolding votes_cast
votes_cast-append [] ys = refl
votes_cast-append (m ∷ ms) ys =
    ap (λ l. vote_in m.sender_id m.recipient_id m.payload ++ l) (votes_cast-append ms ys)
    ∙ sym (
        append_assoc (vote_in m.sender_id m.recipient_id m.payload) (votes_cast ms) (votes_cast ys))

-- Messages without a vote, and without a request for anyone but the sender.
pub record Quiet (me : NodeId) (ms : List Message) : Type 0 where
  pub requests : honest me ms ≡ true
  pub votes : votes_cast ms ≡ []

-- Between `c` and `d` no vote was sent, and no request for anyone but the node itself.
pub record SameSpeech (c d : Coordinator) : Type 0 where
  pub node_id : d.node_id ≡ c.node_id
  pub requests : honest c.node_id d.outbox ≡ honest c.node_id c.outbox
  pub votes : votes_cast d.outbox ≡ votes_cast c.outbox

pub SameSpeech-trans : {c d e : Coordinator} → SameSpeech c d → SameSpeech d e → SameSpeech c e
SameSpeech-trans {c} {d} {e} p q = record {
  node_id = q.node_id ∙ p.node_id;
  requests =
      subst (λ me. honest me e.outbox ≡ honest me d.outbox) p.node_id q.requests ∙ p.requests;
  votes = q.votes ∙ p.votes;
}

and_true : (b : Bool) → (b && true) ≡ b
and_true b = ground arith

pub honest-post :
    (me : NodeId) (cluster : Option (List Peer)) (out ms : List Message)
    → honest me ms ≡ true
    → honest me (out ++ sendable cluster ms) ≡ honest me out
honest-post me none out ms h = ap (honest me) (append-nil out)
honest-post me (some ps) out ms h =
    honest-append me out ms ∙ ap (λ b. honest me out && b) h ∙ and_true (honest me out)

votes_cast-post :
    (cluster : Option (List Peer)) (out ms : List Message)
    → votes_cast ms ≡ []
    → votes_cast (out ++ sendable cluster ms) ≡ votes_cast out
votes_cast-post none out ms h = ap votes_cast (append-nil out)
votes_cast-post (some ps) out ms h =
    votes_cast-append out ms ∙ ap (λ l. votes_cast out ++ l) h ∙ append-nil (votes_cast out)

-- An answer that grants a vote is sent as one vote, or not at all without a cluster.
pub votes_cast-reply :
    (cluster : Option (List Peer)) (me to : NodeId) (resp : RequestVoteResponse)
    (out : List Message)
    → resp.vote_granted ≡ true
    → let sent =
        out ++ sendable cluster (address me (to ∷ []) (Payload.request_vote_response resp)) in
      (votes_cast sent ≡ votes_cast out)
      ⊎ (votes_cast sent ≡ votes_cast out ++ (me, resp.term, to) ∷ [])
unfolding votes_cast
votes_cast-reply none me to resp out h = inl (ap votes_cast (append-nil out))
votes_cast-reply (some ps) me to resp out h =
    let reply = address me (to ∷ []) (Payload.request_vote_response resp) in
    let granted : votes_cast reply ≡ (me, resp.term, to) ∷ [] = rw h refl in
    inr (votes_cast-append out reply ∙ ap (λ l. votes_cast out ++ l) granted)

pub post-Quiet :
    (env : Env) (ms : List Message) (c : Coordinator)
    → Quiet c.node_id ms
    → SameSpeech c (post env ms c)
unfolding post
post-Quiet env ms c q = record {
  node_id = refl;
  requests = honest-post c.node_id env.cluster c.outbox ms q.requests;
  votes = votes_cast-post env.cluster c.outbox ms q.votes;
}

-- A payload that is neither a vote nor a request for another node.
abbrev pub is_quiet : NodeId → Payload → Bool
is_quiet me (Payload.request_vote rpc) = rpc.candidate_id == me
is_quiet me (Payload.request_vote_response resp) = not resp.vote_granted
is_quiet me _ = true

pub address-Quiet :
    (me : NodeId) (is : List NodeId) (p : Payload)
    → is_quiet me p ≡ true
    → Quiet me (address me is p)
unfolding honest votes_cast
address-Quiet me [] p h = record { requests = refl; votes = refl }
address-Quiet me (i ∷ is) p h =
    let rest = address-Quiet me is p h in
    record {
      requests = ground (arith, rest.requests, eq_refl me);
      votes = ground (arith, rest.votes);
    }

pub append_messages-Quiet :
    (c : Coordinator) (peers : List NodeId) → Quiet c.node_id (append_messages c peers)
unfolding honest votes_cast append_messages
append_messages-Quiet c [] = record { requests = refl; votes = refl }
append_messages-Quiet c (p ∷ ps) =
    let rest = append_messages-Quiet c ps in record { requests = rest.requests; votes = rest.votes }
