-- ===== src/Cluster/Safety.antt =====
-- At most one leader in each term.
use mathlib.Core.List.{Memᴰ}
use echod.Prelude.{
  List, String, [], arith, length, refl, some, subst, sym, true, ℕ, ◌*◌, ◌<◌, ◌∙◌, ◌≡◌, ◌≤◌,
}
use echod.Cluster.{Reach, System, begin, later, moves, start, with_node}
use echod.Cluster.Ballots.{Recorded, Vote, updated}
use echod.Cluster.Counts.{campaign_recorded, leader_elected, sent_recorded}
use echod.Cluster.Quorum.{common}
use echod.Cluster.Steps.{
  Move, grown, grown_known, grown_unique, new, old, own_current, own_past, same_id, unmoved,
}
use echod.Dispatch.Invariant.{IsSound, campaigns}
use echod.Election.Speech.{honest, votes_cast}
use echod.Machine.{Event, react}
use echod.Machine.Campaigns.{react-Turn}
use echod.Machine.Invariant.{create-IsSound, react-IsSound}
use echod.Machine.Votes.{react-VoteStands}
use echod.Messages.{NodeId, is_leading}
use echod.Node.{Coordinator, Env, Protocol}
use echod.Prelude.Dict.{keys, length-keys, member}
use echod.Timers.{create}

step-Recorded :
    (cids : List NodeId) (s : System) (votes : List Vote) (i : NodeId) (env : Env) (event : Event)
    (d : Coordinator) (move : Move cids s votes i env event d)
    → Recorded cids (with_node s i d) (grown cids s votes i env event d move)
step-Recorded cids s votes i env event d move =
    let r = move.recorded in
    let record_ = grown cids s votes i env event d move in
    let keep = old cids s votes i env event d move in
    record {
      ids =
          updated (λ j c. c.node_id ≡ j) s i d (same_id cids s votes i env event d move)
            (λ j n. r.ids j);
      sound = updated (λ j c. IsSound c) s i d move.sound (λ j n. r.sound j);
      fair =
          updated (λ j c. honest j c.outbox ≡ true) s i d
            (subst (λ me. honest me d.outbox ≡ honest me (s i).outbox) (r.ids i) move.turn.requests
              ∙ r.fair i)
            (λ j n. r.fair j);
      unique = grown_unique cids s votes i env event d move;
      voters_known = grown_known cids s votes i env event d move;
      terms_past = λ v t x m.
          updated (λ j c. Memᴰ (j, t, x) record_ → t ≤ c.current_term) s i d
            (own_past cids s votes i env event d move t x)
            (λ j n k. r.terms_past j t x (unmoved cids s votes i env event d move j t x n k)) v m;
      current = λ v t x m.
          updated (λ j c. Memᴰ (j, t, x) record_ → t ≡ c.current_term → c.voted_for ≡ some x) s i d
            (own_current cids s votes i env event d move t x)
            (λ j n k. r.current j t x (unmoved cids s votes i env event d move j t x n k)) v m;
      noted = λ v x.
          updated (λ j c. c.voted_for ≡ some x → Memᴰ (j, c.current_term, x) record_) s i d
            (new cids s votes i env event d move x)
            (λ j n e. keep (j, (s j).current_term, x) (r.noted j x e)) v;
      sent = λ j b.
          updated (λ k c. Memᴰ b (votes_cast c.outbox) → Memᴰ b record_) s i d
            (sent_recorded cids s votes i env event d move b) (λ k n m. keep b (r.sent k b m)) j;
      counted = λ j v.
          updated
            (λ k c.
              campaigns c.state ≡ true
              → member v (keys c.votes_received) ≡ true
              → Memᴰ (v, c.current_term, k) record_)
            s i d (campaign_recorded cids s votes i env event d move v)
            (λ k n c m. keep (v, (s k).current_term, k) (r.counted k v c m)) j;
      elected =
          updated (λ k c. is_leading c.state ≡ true → length cids < 2 * length c.votes_received) s i
            d (leader_elected cids s votes i env event d move) (λ k n. r.elected k);
    }

begin-Recorded :
    (cids : List NodeId) (crc32 : String → ℕ) (envs : NodeId → Env) (protocols : NodeId → Protocol)
    (batteries : NodeId → ℕ)
    → Recorded cids (begin crc32 envs protocols batteries) []
unfolding create honest votes_cast
begin-Recorded cids crc32 envs protocols batteries = record {
  ids = λ i. refl;
  sound = λ i. create-IsSound crc32 (envs i) (protocols i) i (batteries i);
  fair = λ i. refl;
  unique = λ v t x y m n. elim m [ ];
  voters_known = λ v t x m. elim m [ ];
  terms_past = λ v t x m. elim m [ ];
  current = λ v t x m. elim m [ ];
  noted = λ v x e. cc;
  sent = λ j b m. m;
  counted = λ i v c m. cc;
  elected = λ i l. cc;
}

Reach-Recorded :
    {cids : List NodeId} {first s : System}
    → Recorded cids first []
    → Reach cids first s
    → (votes : List Vote) × Recorded cids s votes
Reach-Recorded fresh start = ([], fresh)
Reach-Recorded {cids} fresh (later {s} reach (moves i env event here knows calm arrives)) =
    let (votes, recorded) = Reach-Recorded fresh reach in
    let d = react env event (s i) in
    let move : Move cids s votes i env event d = record {
      recorded = recorded;
      turn = react-Turn env event (s i) calm;
      stands = react-VoteStands env event (s i) calm;
      sound = react-IsSound env event (s i) (recorded.sound i);
      here = here;
      knows = knows;
      arrives = arrives;
    } in
    (grown cids s votes i env event d move, step-Recorded cids s votes i env event d move)

-- In a cluster of coordinators of any classes that starts fresh, in which messages may be delayed,
-- reordered, repeated and lost and nodes tick, replicate, partition, heal and reconcile in any order,
-- but no battery changes: no two nodes ever lead the same term, as leader or as local leader.
pub election_safety :
    (cids : List NodeId) (crc32 : String → ℕ) (envs : NodeId → Env) (protocols : NodeId → Protocol)
    (batteries : NodeId → ℕ) (s : System) (i j : NodeId)
    → Reach cids (begin crc32 envs protocols batteries) s
    → is_leading (s i).state ≡ true
    → is_leading (s j).state ≡ true
    → (s i).current_term ≡ (s j).current_term
    → i ≡ j
election_safety cids crc32 envs protocols batteries s i j reach li lj same_term =
    let (votes, r) = Reach-Recorded (begin-Recorded cids crc32 envs protocols batteries) reach in
    let ci : campaigns (s i).state ≡ true = ground (arith, li) in
    let cj : campaigns (s j).state ≡ true = ground (arith, lj) in
    let (v, vi, vj) =
      common (keys (s i).votes_received) (keys (s j).votes_received) cids
        (r.sound i).voters_distinct (r.sound j).voters_distinct
        (λ w m. r.voters_known w (s i).current_term i (r.counted i w ci m))
        (λ w m. r.voters_known w (s j).current_term j (r.counted j w cj m))
        (omega (
          arith,
          r.elected i li,
          r.elected j lj,
          length-keys (s i).votes_received,
          length-keys (s j).votes_received,
        )) in
    r.unique v (s i).current_term i j (r.counted i v ci vi)
      (subst (λ t. Memᴰ (v, t, j) votes) (sym same_term) (r.counted j v cj vj))
