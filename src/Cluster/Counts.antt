-- ===== src/Cluster/Counts.antt =====
-- The votes that a step sends and counts are recorded.
use mathlib.Core.List.{Memᴰ}
use echod.Prelude.{
  Bool, List, [], ap, arith, eq_iff, inl, inr, length, refl, some, subst, sym, true, ℕ, ◌*◌, ◌<◌,
  ◌∙◌, ◌∷◌, ◌≡◌, ◌⊎◌,
}
use echod.Cluster.{Arrives, Knows, System}
use echod.Cluster.Added.{length-coordinator_ids, mem-split}
use echod.Cluster.Ballots.{Vote, request_among, vote_among}
use echod.Cluster.Steps.{Move, grown, new, old, same_id}
use echod.Dispatch.Invariant.{campaigns}
use echod.Election.{coordinator_count, count_vote}
use echod.Election.Ballots.{IsMajority, member-count_vote}
use echod.Election.Speech.{votes_cast}
use echod.Machine.{Event, receives}
use echod.Machine.Turns.{Casts, CastsIn, Counts, CountsIn}
use echod.Messages.{Message, NodeId, Payload, is_leading}
use echod.Node.{Coordinator, Env}
use echod.Pi.Loop.{lead}
use echod.Prelude.Dict.{Dict, keys, member}

counted_before :
    (b : Bool) (voter : NodeId) (level : ℕ) (votes : Dict ℕ) (v : NodeId)
    → member v (keys (count_vote b voter level votes)) ≡ true
    → ((b ≡ true) × (voter ≡ v)) ⊎ (member v (keys votes) ≡ true)
counted_before b voter level votes v h =
    ground (arith, h, member-count_vote b voter level votes v, eq_iff voter v)

only_member : (k v : NodeId) → member v (k ∷ []) ≡ true → k ≡ v
unfolding member
only_member k v h = ground (arith, h, eq_iff k v)

majority-length :
    (cids : List NodeId) (env : Env) (n : ℕ)
    → Knows cids env
    → IsMajority env.cluster n
    → length cids < 2 * n
majority-length cids env n (ps, known, same_ids) h =
    let more : coordinator_count ps < 2 * n = subst (λ cl. IsMajority cl n) known h in
    omega (arith, more, length-coordinator_ids ps, ap length same_ids)

module _ (cids : List NodeId) (s : System) (votes : List Vote) (i : NodeId) (env : Env)
    (event : Event) (d : Coordinator) (move : Move cids s votes i env event d) where
  open move use {recorded, turn, sound, knows, arrives}
  open recorded use {ids, fair, sent, counted, elected}

  abbrev record_ : List Vote
  record_ = grown cids s votes i env event d move

  kept : (b : Vote) → Memᴰ b votes → Memᴰ b record_
  kept = old cids s votes i env event d move

  noted_now : (x : NodeId) → d.voted_for ≡ some x → Memᴰ (i, d.current_term, x) record_
  noted_now = new cids s votes i env event d move

  -- A vote that answers a request is for the candidate that sent it.
  cast_recorded :
      (msg : Message) (p : Payload)
      → msg.payload ≡ p
      → Arrives s i (receives msg)
      → Casts msg.sender_id p (s i) d
      → (b : Vote) → Memᴰ b (votes_cast d.outbox)
      → Memᴰ b record_
  cast_recorded msg (Payload.request_vote rpc) e (inl outside) k b m = ground (arith, e, outside)
  cast_recorded msg (Payload.request_vote rpc) e (inr (to, (j, sent_))) (k, voted) b m =
      let (asks, from) = request_among j msg (s j).outbox rpc sent_ e (fair j) in
      let cast = noted_now msg.sender_id (voted ∙ ap some (asks ∙ sym from)) in
      let here_ : Memᴰ ((s i).node_id, d.current_term, msg.sender_id) record_ =
        subst (λ w. Memᴰ (w, d.current_term, msg.sender_id) record_) (sym (ids i)) cast in
      elim (mem-split (votes_cast (s i).outbox)
        (((s i).node_id, d.current_term, msg.sender_id) ∷ []) (subst (Memᴰ b) k m)) [
          | inl before ↦ kept b (sent i b before)
          | inr now ↦ only now here_
        ]
    where
      only : {x : Vote} → Memᴰ b (x ∷ []) → Memᴰ x record_ → Memᴰ b record_
      only (Memᴰ.head q) r = subst (λ y. Memᴰ y record_) (sym q) r
      only (Memᴰ.tail q) r = elim q [ ]
  cast_recorded msg _ e a k b m = absurd k

  casts_recorded :
      (e : Event)
      → Arrives s i e
      → CastsIn e (s i) d
      → (b : Vote) → Memᴰ b (votes_cast d.outbox)
      → Memᴰ b record_
  casts_recorded (receives msg) a k b m = cast_recorded msg msg.payload refl a k b m
  casts_recorded _ a k b m = absurd k

  pub sent_recorded : (b : Vote) → Memᴰ b (votes_cast d.outbox) → Memᴰ b record_
  sent_recorded b m = elim turn.votes [
    | inl same_ ↦ kept b (sent i b (subst (Memᴰ b) same_ m))
    | inr k ↦ casts_recorded event arrives k b m
  ]

  -- The votes of a campaign that goes on.
  still_recorded :
      (v : NodeId)
      → campaigns (s i).state ≡ true
      → d.current_term ≡ (s i).current_term
      → member v (keys (s i).votes_received) ≡ true
      → Memᴰ (v, d.current_term, i) record_
  still_recorded v c t m =
      subst (λ u. Memᴰ (v, u, i) record_) (sym t)
        (kept (v, (s i).current_term, i) (counted i v c m))

  count_recorded :
      (msg : Message) (p : Payload)
      → msg.payload ≡ p
      → Arrives s i (receives msg)
      → Counts env msg.sender_id p (s i) d
      → (v : NodeId) → member v (keys d.votes_received) ≡ true
      → Memᴰ (v, d.current_term, i) record_
  count_recorded msg (Payload.request_vote_response resp) e a (c, t, u, votes_, lead) v m =
      elim (counted_before resp.vote_granted msg.sender_id resp.voter_battery (s i).votes_received v
        (ap (λ l. member v (keys l)) (sym votes_) ∙ m)) [
          | inl (g, from) ↦ arrived a g from
          | inr before ↦ still_recorded v c u before
        ]
    where
      arrived :
          Arrives s i (receives msg)
          → resp.vote_granted ≡ true
          → msg.sender_id ≡ v
          → Memᴰ (v, d.current_term, i) record_
      arrived (inl outside) g from = ground (arith, e, outside)
      arrived (inr (to, (j, sent_))) g from =
          let cast =
            kept (msg.sender_id, resp.term, msg.recipient_id)
              (sent j (msg.sender_id, resp.term, msg.recipient_id)
                (vote_among msg (s j).outbox resp sent_ e g)) in
          let named = subst (λ w. Memᴰ (w, resp.term, msg.recipient_id) record_) from cast in
          let timed = subst (λ n. Memᴰ (v, n, msg.recipient_id) record_) (t ∙ sym u) named in
          subst (λ w. Memᴰ (v, d.current_term, w) record_) to timed
  count_recorded msg _ e a k v m = absurd k

  counts_recorded :
      (e : Event)
      → Arrives s i e
      → CountsIn env e (s i) d
      → (v : NodeId) → member v (keys d.votes_received) ≡ true
      → Memᴰ (v, d.current_term, i) record_
  counts_recorded (receives msg) a k v m = count_recorded msg msg.payload refl a k v m
  counts_recorded _ a k v m = absurd k

  pub campaign_recorded :
      (v : NodeId)
      → campaigns d.state ≡ true
      → member v (keys d.votes_received) ≡ true
      → Memᴰ (v, d.current_term, i) record_
  campaign_recorded v c m = elim turn.campaign [
    | inl (inl rests) ↦ ground (arith, rests, c)
    | inl (inr (inl goes)) ↦
        still_recorded v goes.0 goes.2 (ap (λ l. member v (keys l)) (sym goes.1) ∙ m)
    | inl (inr (inr begins)) ↦
        let own =
          noted_now i (sound.own_vote c ∙ ap some (same_id cids s votes i env event d move)) in
        let lone = only_member (s i).node_id v (ap (member v) (sym begins.1) ∙ m) in
        subst (λ w. Memᴰ (w, d.current_term, i) record_) (sym (ids i) ∙ lone) own
    | inr k ↦ counts_recorded event arrives k v m
  ]

  count_elected :
      (p : Payload) (sender : NodeId)
      → Counts env sender p (s i) d
      → is_leading d.state ≡ true
      → length cids < 2 * length d.votes_received
  count_elected (Payload.request_vote_response resp) sender k l = elim k.4 [
    | inl follows ↦ ground (arith, follows, l)
    | inr most ↦ majority-length cids env (length d.votes_received) knows most
  ]
  count_elected _ sender k l = absurd k

  counts_elected :
      (e : Event)
      → CountsIn env e (s i) d
      → is_leading d.state ≡ true
      → length cids < 2 * length d.votes_received
  counts_elected (receives msg) k l = count_elected msg.payload msg.sender_id k l
  counts_elected _ k l = absurd k

  pub leader_elected : is_leading d.state ≡ true → length cids < 2 * length d.votes_received
  leader_elected l = elim turn.campaign [
    | inl (inl rests) ↦ ground (arith, rests, l)
    | inl (inr (inl goes)) ↦ elim goes.3 [
      | inl follows ↦ ground (arith, follows, l)
      | inr led ↦ subst (λ l. length cids < 2 * length l) (sym goes.1) (elected i led)
    ]
    | inl (inr (inr begins)) ↦ ground (arith, begins, l)
    | inr k ↦ counts_elected event k l
  ]
