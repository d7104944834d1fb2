-- ===== src/Cluster/Ballots.antt =====
-- The votes that have been cast so far, and what holds of them in every reachable system.
use mathlib.Core.List.{Memᴰ}
use echod.Prelude.{
  Bool, List, [], arith, eq_iff, false, if◌then◌else◌, length, refl, some, subst, true, ℕ, ◌*◌,
  ◌++◌, ◌<◌, ◌==◌, ◌∷◌, ◌≡◌, ◌≢◌, ◌≤◌,
}
use echod.Cluster.{System, with_node}
use echod.Dispatch.Invariant.{IsSound, campaigns}
use echod.Election.Speech.{honest, vote_in, votes_cast}
use echod.Messages.{Message, NodeId, Payload, RequestVoteResponse, RequestVoteRpc, is_leading}
use echod.Node.{Coordinator}
use echod.Prelude.Dict.{keys, member}

-- A vote: who cast it, in which term, and for whom.
abbrev pub Vote : Type 0
Vote = NodeId × ℕ × NodeId

-- `votes` has the votes recorded by any node at any time so far.
pub record Recorded (cids : List NodeId) (s : System) (votes : List Vote) : Type 0 where
  pub ids : (i : NodeId) → (s i).node_id ≡ i
  pub sound : (i : NodeId) → IsSound (s i)
  pub fair : (i : NodeId) → honest i (s i).outbox ≡ true
  pub unique :
      (v : NodeId) (t : ℕ) (x y : NodeId) → Memᴰ (v, t, x) votes → Memᴰ (v, t, y) votes → x ≡ y
  pub voters_known : (v : NodeId) (t : ℕ) (x : NodeId) → Memᴰ (v, t, x) votes → member v cids ≡ true
  pub terms_past : (v : NodeId) (t : ℕ) (x : NodeId) → Memᴰ (v, t, x) votes → t ≤ (s v).current_term
  pub current :
      (v : NodeId) (t : ℕ) (x : NodeId)
      → Memᴰ (v, t, x) votes
      → t ≡ (s v).current_term
      → (s v).voted_for ≡ some x
  pub noted : (v x : NodeId) → (s v).voted_for ≡ some x → Memᴰ (v, (s v).current_term, x) votes
  pub sent : (j : NodeId) (b : Vote) → Memᴰ b (votes_cast (s j).outbox) → Memᴰ b votes
  pub counted :
      (i v : NodeId)
      → campaigns (s i).state ≡ true
      → member v (keys (s i).votes_received) ≡ true
      → Memᴰ (v, (s i).current_term, i) votes
  pub elected :
      (i : NodeId) → is_leading (s i).state ≡ true → length cids < 2 * length (s i).votes_received

pub mem-right {ℓ} : {A : Type ℓ} {a : A} (xs ys : List A) → Memᴰ a ys → Memᴰ a (xs ++ ys)
mem-right [] ys m = m
mem-right (x ∷ xs) ys m = Memᴰ.tail (mem-right xs ys m)

-- A vote among the messages of a list.
pub vote_among :
    (msg : Message) (ms : List Message) (resp : RequestVoteResponse)
    → Memᴰ msg ms
    → msg.payload ≡ Payload.request_vote_response resp
    → resp.vote_granted ≡ true
    → Memᴰ (msg.sender_id, resp.term, msg.recipient_id) (votes_cast ms)
unfolding votes_cast
vote_among msg [] resp m p g = elim m [ ]
vote_among msg (n ∷ ns) resp (Memᴰ.head e) p g =
    subst
      (λ (n : Message).
        Memᴰ (msg.sender_id, resp.term, msg.recipient_id)
          (vote_in n.sender_id n.recipient_id n.payload ++ votes_cast ns))
      e (rw (p, g) (Memᴰ.head refl))
vote_among msg (n ∷ ns) resp (Memᴰ.tail m) p g =
    mem-right (vote_in n.sender_id n.recipient_id n.payload) (votes_cast ns)
      (vote_among msg ns resp m p g)

-- A request among the messages of an honest list is for the node itself, and sent by it.
pub request_among :
    (me : NodeId) (msg : Message) (ms : List Message) (rpc : RequestVoteRpc)
    → Memᴰ msg ms
    → msg.payload ≡ Payload.request_vote rpc
    → honest me ms ≡ true
    → (rpc.candidate_id ≡ me) × (msg.sender_id ≡ me)
unfolding honest
request_among me msg [] rpc m p h = elim m [ ]
request_among me msg (n ∷ ns) rpc (Memᴰ.head e) p h =
    ground (arith, e, eq_iff rpc.candidate_id me, eq_iff msg.sender_id me)
request_among me msg (n ∷ ns) rpc (Memᴰ.tail m) p h = request_among me msg ns rpc m p (ground arith)

-- What holds of the new object, and of every other node, holds of every node.
pub updated :
    (P : NodeId → Coordinator → Type 0) (s : System) (i : NodeId) (d : Coordinator)
    → P i d
    → ((j : NodeId) → i ≢ j → P j (s j))
    → (j : NodeId) → P j (with_node s i d j)
updated P s i d new old j = choose (i == j) refl
  where
    choose : (b : Bool) → (i == j) ≡ b → P j (if b then d else s j)
    choose true e = subst (λ k. P k d) ((eq_iff i j).0 e) new
    choose false e = old j (λ q. ground (arith, e, eq_iff i j))
