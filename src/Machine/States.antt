-- ===== src/Machine/States.antt =====
-- The state diagram over every call, and how a node comes to lead.
use echod.Log
use echod.Prelude.{Bool, true}
use echod.Dispatch.States.{may_idle, may_move, may_receive}
use echod.Log.Commits.{change}
use echod.Machine.{Event, drains, idles, receives}
use echod.Messages.{NodeState, follower, observer}

-- As `may_move`, and a battery change may also make any node an observer, and an observer a
-- follower.
abbrev pub may_turn : Event → NodeState → NodeState → Bool
may_turn (drains change) observer follower = true
may_turn (drains change) s observer = true
may_turn (receives msg) s t = may_receive msg.payload s t
may_turn idles s t = may_idle s t
may_turn e s t = may_move s t
