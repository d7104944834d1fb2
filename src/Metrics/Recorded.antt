-- ===== src/Metrics/Recorded.antt =====
-- The collector's counters against the calls that it has had.
use echod.Prelude.{
  Bool, Bool-cases, List, Option, String, [], ap, arith, eq_iff, false, if◌then◌else◌, inl, inr,
  none, refl, some, suc, true, ℕ, ◌+◌, ◌-◌, ◌==◌, ◌∙◌, ◌∷◌, ◌≡◌,
}
use echod.Messages.{Message, NodeId}
use echod.Metrics.{
  ConsensusRound, MetricsCollector, close_at, close_round, is_last, is_success, on_message,
  one_more, open_round, record_availability, record_leader_change, snapshot_energy, type_name,
}
use echod.Metrics.Tally.{Hook, call_all, checked_up, elected, message, snapshot}
use echod.Prelude.Dict.{get_or, get_or-put, put}

-- How many of the calls report a message, and how many one of a type.
abbrev pub messages_reported : List Hook → ℕ
messages_reported [] = 0
messages_reported (message t msg ∷ hs) = suc (messages_reported hs)
messages_reported (h ∷ hs) = messages_reported hs

abbrev pub of_type : String → List Hook → ℕ
of_type name [] = 0
of_type name (message t msg ∷ hs) =
    let rest = of_type name hs in if type_name msg.payload == name then suc rest else rest
of_type name (h ∷ hs) = of_type name hs

-- The leaders that the calls report, in order, and how often one differs from the one before it.
abbrev pub leaders : List Hook → List NodeId
leaders [] = []
leaders (elected i ∷ hs) = i ∷ leaders hs
leaders (h ∷ hs) = leaders hs

abbrev pub turns : NodeId → List NodeId → ℕ
turns last [] = 0
turns last (i ∷ is) = let rest = turns i is in if i == last then rest else suc rest

abbrev pub changes : Option NodeId → List NodeId → ℕ
changes (some last) is = turns last is
changes none [] = 0
changes none (i ∷ is) = suc (turns i is)

-- The time from each check to the one ahead of it, over the checks of one result.
abbrev pub time_of : Bool → ℕ → List Hook → ℕ
time_of up last [] = 0
time_of true last (checked_up t true ∷ hs) = (t - last) + time_of true t hs
time_of true last (checked_up t false ∷ hs) = time_of true t hs
time_of false last (checked_up t true ∷ hs) = time_of false t hs
time_of false last (checked_up t false ∷ hs) = (t - last) + time_of false t hs
time_of up last (h ∷ hs) = time_of up last hs

-- What the calls add to the counters.
pub record IsRecorded (hs : List Hook) (m d : MetricsCollector) : Type 0 where
  pub total : d.total_messages ≡ m.total_messages + messages_reported hs
  pub types :
      (name : String)
      → get_or name 0 d.messages_by_type ≡ get_or name 0 m.messages_by_type + of_type name hs
  pub changed : d.leader_changes ≡ m.leader_changes + changes m.last_leader (leaders hs)
  pub up : d.cluster_up_time ≡ m.cluster_up_time + time_of true m.last_check hs
  pub down : d.cluster_down_time ≡ m.cluster_down_time + time_of false m.last_check hs

-- What one message changes.
abbrev Noted : Message → MetricsCollector → MetricsCollector → Type 0
Noted msg m d =
    let name = type_name msg.payload in
    (d.total_messages ≡ m.total_messages + 1)
    × (d.messages_by_type ≡ put name (get_or name 0 m.messages_by_type + 1) m.messages_by_type)
    × (d.leader_changes ≡ m.leader_changes)
    × (d.last_leader ≡ m.last_leader)
    × (d.cluster_up_time ≡ m.cluster_up_time)
    × (d.cluster_down_time ≡ m.cluster_down_time)
    × (d.last_check ≡ m.last_check)

on_message-Noted : (t : ℕ) (msg : Message) (m : MetricsCollector) → Noted msg m (on_message t msg m)
unfolding on_message
on_message-Noted t msg m = elim (Bool-cases (is_success msg.payload)) [
  | inl s ↦ rw s (closed (open_round t msg.payload (one_more m.active_round)))
  | inr s ↦ rw s (refl, refl, refl, refl, refl, refl, refl)
]
  where
    noted : MetricsCollector
    noted =
        let name = type_name msg.payload in
        record m {
          total_messages = m.total_messages + 1;
          messages_by_type = put name (get_or name 0 m.messages_by_type + 1) m.messages_by_type;
          active_round = open_round t msg.payload (one_more m.active_round);
        }

    closed_at : (r : ConsensusRound) (u : Option ℕ) → Noted msg m (close_at t r u noted)
    closed_at r none = (refl, refl, refl, refl, refl, refl, refl)
    closed_at r (some u) = (refl, refl, refl, refl, refl, refl, refl)

    closed : (r : Option ConsensusRound) → Noted msg m (close_round t r noted)
    closed none = (refl, refl, refl, refl, refl, refl, refl)
    closed (some r) = closed_at r r.commit_time

-- The counters after a message and after the calls behind it.
message-IsRecorded :
    (t : ℕ) (msg : Message) (hs : List Hook) (m d : MetricsCollector)
    → IsRecorded hs (on_message t msg m) d
    → IsRecorded (message t msg ∷ hs) m d
message-IsRecorded t msg hs m d r =
    let e = on_message t msg m in
    let n = on_message-Noted t msg m in
    let name = type_name msg.payload in
    record {
      total = omega (arith, r.total, n.0);
      types = λ j.
          let counted : get_or j 0 e.messages_by_type ≡ (
              if name == j
              then get_or name 0 m.messages_by_type + 1
              else get_or j 0 m.messages_by_type) =
            ap (get_or j 0) n.1 ∙ get_or-put name j 0 _ m.messages_by_type in
          ground (arith, r.types j, counted, eq_iff name j);
      changed = omega (arith, r.changed, n.2, ap (λ last. changes last (leaders hs)) n.3);
      up = omega (arith, r.up, n.4, ap (λ last. time_of true last hs) n.6);
      down = omega (arith, r.down, n.5, ap (λ last. time_of false last hs) n.6);
    }

-- What one report of a leader changes.
elected_changes :
    (i : NodeId) (is : List NodeId) (m : MetricsCollector)
    → let e = record_leader_change i m in
      e.leader_changes + changes e.last_leader is
      ≡ m.leader_changes + changes m.last_leader (i ∷ is)
unfolding record_leader_change
elected_changes i is m = by_last m.last_leader refl
  where
    by_last :
        (last : Option NodeId)
        → m.last_leader ≡ last
        → let e =
            if is_last i m.last_leader
            then m
            else record m { leader_changes = m.leader_changes + 1; last_leader = some i } in
          e.leader_changes + changes e.last_leader is
          ≡ m.leader_changes + changes m.last_leader (i ∷ is)
    by_last none h = ground (arith, h)
    by_last (some l) h = ground (arith, h, eq_iff i l)

elected_keeps :
    (i : NodeId) (m : MetricsCollector)
    → let e = record_leader_change i m in
      (e.total_messages ≡ m.total_messages)
      × (e.messages_by_type ≡ m.messages_by_type)
      × (e.cluster_up_time ≡ m.cluster_up_time)
      × (e.cluster_down_time ≡ m.cluster_down_time)
      × (e.last_check ≡ m.last_check)
unfolding record_leader_change
elected_keeps i m = ground arith

-- The counters after a report of a leader and after the calls behind it.
elected-IsRecorded :
    (i : NodeId) (hs : List Hook) (m d : MetricsCollector)
    → IsRecorded hs (record_leader_change i m) d
    → IsRecorded (elected i ∷ hs) m d
elected-IsRecorded i hs m d r =
    let n = elected_keeps i m in
    record {
      total = omega (arith, r.total, n.0);
      types = λ name. r.types name ∙ ap (λ types. get_or name 0 types + of_type name hs) n.1;
      changed = r.changed ∙ elected_changes i (leaders hs) m;
      up = omega (arith, r.up, n.2, ap (λ last. time_of true last hs) n.4);
      down = omega (arith, r.down, n.3, ap (λ last. time_of false last hs) n.4);
    }

pub call_all-IsRecorded : (hs : List Hook) (m : MetricsCollector) → IsRecorded hs m (call_all hs m)
unfolding call_all record_leader_change snapshot_energy record_availability
call_all-IsRecorded [] m = record {
  total = omega arith;
  types = λ name. omega arith;
  changed = by_last m.last_leader;
  up = omega arith;
  down = omega arith;
}
  where
    by_last : (last : Option NodeId) → m.leader_changes ≡ m.leader_changes + changes last []
    by_last none = omega arith
    by_last (some l) = omega arith
call_all-IsRecorded (message t msg ∷ hs) m =
    message-IsRecorded t msg hs m _ (call_all-IsRecorded hs (on_message t msg m))
call_all-IsRecorded (elected i ∷ hs) m =
    let r = call_all-IsRecorded hs (record_leader_change i m) in elected-IsRecorded i hs m _ r
call_all-IsRecorded (snapshot i b ∷ hs) m =
    let r = call_all-IsRecorded hs (snapshot_energy i b m) in
    record { total = r.total; types = r.types; changed = r.changed; up = r.up; down = r.down }
call_all-IsRecorded (checked_up t true ∷ hs) m =
    let r = call_all-IsRecorded hs (record_availability t true m) in
    record {
      total = r.total;
      types = r.types;
      changed = r.changed;
      up = omega (arith, r.up);
      down = r.down;
    }
call_all-IsRecorded (checked_up t false ∷ hs) m =
    let r = call_all-IsRecorded hs (record_availability t false m) in
    record {
      total = r.total;
      types = r.types;
      changed = r.changed;
      up = r.up;
      down = omega (arith, r.down);
    }
