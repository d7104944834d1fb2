-- ===== src/Cluster.antt =====
-- Several coordinators that run together: simulation/core/cluster.py, from the outside.
--
-- A step is a call of one of them: a tick of its event loop, one of its public methods, or the
-- arrival of a message. A message that has been sent may arrive late, in any order, more than once or
-- never, so every run of the message bus, with or without partitions, is a run of this system. What
-- leaves and drivers send may arrive at any time; no message of theirs is a vote or a vote request.
pub mod Quorum
pub mod Ballots
pub mod Added
pub mod Steps
pub mod Counts
pub mod Safety
use mathlib.Core.List.{Memᴰ}
use echod.Prelude.{Bool, List, String, false, if◌then◌else◌, some, true, ℕ, ◌==◌, ◌≡◌, ◌⊎◌}
use echod.Leaf.{coordinator_ids, first}
use echod.Machine.{Event, is_calm, react, receives}
use echod.Messages.{NodeId, Payload}
use echod.Node.{Coordinator, Env, Peer, Protocol}
use echod.Prelude.Dict.{member}
use echod.Timers.{create}

abbrev pub System : Type 0
System = NodeId → Coordinator

abbrev pub with_node : System → NodeId → Coordinator → System
with_node s i c = λ j. if i == j then c else s j

-- `add_node` of new objects, each created with its own clock, class and battery.
abbrev pub begin : (String → ℕ) → (NodeId → Env) → (NodeId → Protocol) → (NodeId → ℕ) → System
begin crc32 envs protocols batteries = λ i. create crc32 (envs i) (protocols i) i (batteries i)

-- The coordinators of a cluster, as a node looks at it, are those of the list.
abbrev pub Knows : List NodeId → Env → Type 0
Knows cids env = (ps : List Peer) × (env.cluster ≡ some ps) × (coordinator_ids ps ≡ cids)

abbrev pub is_vote : Payload → Bool
is_vote (Payload.request_vote rpc) = true
is_vote (Payload.request_vote_response resp) = true
is_vote _ = false

-- A message arrives at its recipient, after a coordinator has sent it; or it is from elsewhere.
abbrev pub Arrives : System → NodeId → Event → Type 0
Arrives s i (receives msg) =
    (is_vote msg.payload ≡ false)
    ⊎ ((msg.recipient_id ≡ i) × ((j : NodeId) × Memᴰ msg (s j).outbox))
Arrives s i event = Unit

pub data Step (cids : List NodeId) (s : System) : System → Type 0 where
  moves :
      (i : NodeId) (env : Env) (event : Event)
      → member i cids ≡ true
      → Knows cids env
      → is_calm event ≡ true
      → Arrives s i event
      → Step cids s (with_node s i (react env event (s i)))

pub data Reach (cids : List NodeId) (first : System) : System → Type 0 where
  start : Reach cids first first
  later : {s t : System} → Reach cids first s → Step cids s t → Reach cids first t
