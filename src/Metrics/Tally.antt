-- ===== src/Metrics/Tally.antt =====
-- What the collector's counters add up to.
use echod.Prelude.{
  All, Bool, List, Option, String, [], ap, arith, none, refl, some, subst, ℕ, ◌++◌, ◌+◌, ◌∷◌, ◌≡◌,
  ◌≤◌,
}
use echod.Messages.{LogEntry, Message, NodeId, Payload, TriggerType}
use echod.Metrics.{
  ConsensusRound, MetricsCollector, begin_round, close_at, close_round, messages_of, on_message,
  one_more, open_round, record_availability, record_leader_change, snapshot_energy, sum,
}
use echod.Prelude.Dict.{Dict, get_or, put}

-- The calls of the collector, with the clock where the code reads it.
pub data Hook : Type 0 where
  message : ℕ → Message → Hook
  elected : NodeId → Hook
  snapshot : NodeId → ℕ → Hook
  checked_up : ℕ → Bool → Hook

abbrev pub call : Hook → MetricsCollector → MetricsCollector
call (message now msg) m = on_message now msg m
call (elected i) m = record_leader_change i m
call (snapshot i battery) m = snapshot_energy i battery m
call (checked_up now up) m = record_availability now up m

unfoldable pub call_all : List Hook → MetricsCollector → MetricsCollector
unfolding on_message record_leader_change snapshot_energy record_availability
call_all [] m = m
call_all (h ∷ hs) m = call_all hs (call h m)

-- The clock after a call, and that no call is made before the one ahead of it.
abbrev pub clock : ℕ → Hook → ℕ
clock now (message t msg) = t
clock now (checked_up t up) = t
clock now h = now

abbrev pub IsOrdered : ℕ → List Hook → Type 0
IsOrdered now [] = Unit
IsOrdered now (h ∷ hs) = (now ≤ clock now h) × IsOrdered (clock now h) hs

abbrev pub sum_counts : Dict ℕ → ℕ
sum_counts [] = 0
sum_counts ((k, n) ∷ d) = n + sum_counts d

abbrev pub messages_in : Option ConsensusRound → ℕ
messages_in none = 0
messages_in (some r) = r.messages

-- A finished round has a commit time that is not before its trigger.
abbrev pub IsFinished : ConsensusRound → Type 0
IsFinished r = (t : ℕ) × (r.commit_time ≡ some t) × (r.trigger_time ≤ t)

abbrev pub IsOpen : ℕ → Option ConsensusRound → Type 0
IsOpen now none = Unit
IsOpen now (some r) = (r.commit_time ≡ none) × (r.trigger_time ≤ now)

-- The counters of a collector that beganed at `began`, at the time `now`.
pub record IsTallied (began now : ℕ) (m : MetricsCollector) : Type 0 where
  pub by_type : sum_counts m.messages_by_type ≡ m.total_messages
  pub in_rounds : sum (messages_of m.rounds) + messages_in m.active_round ≤ m.total_messages
  pub times : began + m.cluster_up_time + m.cluster_down_time ≡ m.last_check
  pub checked : m.last_check ≤ now
  pub finished : All IsFinished m.rounds
  pub opened : IsOpen now m.active_round

pub sum_counts-put :
    (k : String) (d : Dict ℕ) → sum_counts (put k (get_or k 0 d + 1) d) ≡ sum_counts d + 1
unfolding put get_or
sum_counts-put k [] = refl
sum_counts-put k ((j, n) ∷ d) = ground (arith, sum_counts-put k d)

sum-snoc :
    (rs : List ConsensusRound) (r : ConsensusRound)
    → sum (messages_of (rs ++ r ∷ [])) ≡ sum (messages_of rs) + r.messages
sum-snoc [] r = omega arith
sum-snoc (x ∷ rs) r = omega (arith, sum-snoc rs r)

All-snoc {ℓ κ} :
    {A : Type ℓ} (P : A → Type κ) (xs : List A) (x : A) → All P xs → P x → All P (xs ++ x ∷ [])
All-snoc P [] x h p = (p, tt)
All-snoc P (y ∷ xs) x h p = (h.0, All-snoc P xs x h.1 p)

pub one_more-messages : (r : Option ConsensusRound) → messages_in (one_more r) ≤ messages_in r + 1
one_more-messages none = omega arith
one_more-messages (some r) = omega arith

pub one_more-IsOpen :
    (now t : ℕ) (r : Option ConsensusRound) → now ≤ t → IsOpen now r → IsOpen t (one_more r)
one_more-IsOpen now t none h k = tt
one_more-IsOpen now t (some r) h k = (k.0, omega (arith, k.1))

-- A round that begins has no message, and begins now.
abbrev pub Opens : ℕ → Option ConsensusRound → Option ConsensusRound → Type 0
Opens t r s = (messages_in s ≡ messages_in r) × IsOpen t s

begin_round-Opens :
    (t : ℕ) (trigger : TriggerType) (es : List LogEntry) → Opens t none (begin_round t trigger es)
begin_round-Opens t trigger [] = (refl, tt)
begin_round-Opens t trigger (e ∷ es) = (refl, (refl, omega arith))

pub open_round-Opens :
    (t : ℕ) (payload : Payload) (r : Option ConsensusRound)
    → IsOpen t r
    → Opens t r (open_round t payload r)
open_round-Opens t (Payload.append_entries rpc) none h =
    begin_round-Opens t rpc.trigger_type rpc.entries
open_round-Opens t (Payload.append_entries rpc) (some r) h = (refl, h)
open_round-Opens t (Payload.request_vote p) r h = (refl, h)
open_round-Opens t (Payload.request_vote_response p) r h = (refl, h)
open_round-Opens t (Payload.append_entries_response p) r h = (refl, h)
open_round-Opens t (Payload.liveness_ping p) r h = (refl, h)
open_round-Opens t (Payload.leadership_handoff p) r h = (refl, h)
open_round-Opens t (Payload.leaf_register p) r h = (refl, h)
open_round-Opens t (Payload.leaf_register_response p) r h = (refl, h)
open_round-Opens t (Payload.sensor_data p) r h = (refl, h)

close_at-IsTallied :
    (began t : ℕ) (r : ConsensusRound) (committed : Option ℕ) (m : MetricsCollector)
    → m.active_round ≡ some r
    → IsTallied began t m
    → IsTallied began t (close_at t r committed m)
close_at-IsTallied began t r (some u) m h k = k
close_at-IsTallied began t r none m h k =
    let done = record r { commit_time = some t } in
    let open_r : IsOpen t (some r) = subst (IsOpen t) h k.opened in
    record {
      by_type = k.by_type;
      in_rounds = omega (arith, k.in_rounds, sum-snoc m.rounds done, ap messages_in h);
      times = k.times;
      checked = k.checked;
      finished = All-snoc IsFinished m.rounds done k.finished (t, refl, open_r.1);
      opened = tt;
    }

pub close_round-IsTallied :
    (began t : ℕ) (r : Option ConsensusRound) (m : MetricsCollector)
    → m.active_round ≡ r
    → IsTallied began t m
    → IsTallied began t (close_round t r m)
close_round-IsTallied began t none m h k = k
close_round-IsTallied began t (some r) m h k = close_at-IsTallied began t r r.commit_time m h k
