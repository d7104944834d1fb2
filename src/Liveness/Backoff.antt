-- ===== src/Liveness/Backoff.antt =====
-- The ping interval of echoD.
use echod.Prelude.{ap, arith, min, refl, suc, zero, ℕ, ◌*◌, ◌<◌, ◌∙◌, ◌≡◌, ◌≤◌}
use echod.Config.{echod_ping_max_interval, liveness_ping_interval}
use echod.Election.Silence.{same}
use echod.Liveness.{send_liveness_ping}
use echod.Node.{Coordinator, Env, echo_d}

abbrev pub PingInRange : ℕ → Type 0
PingInRange interval = (liveness_ping_interval ≤ interval) × (interval ≤ echod_ping_max_interval)

-- A ping keeps the interval within its two bounds.
pub send_liveness_ping-PingInRange :
    (env : Env) (c : Coordinator)
    → PingInRange c.ping_interval
    → PingInRange (send_liveness_ping env c).ping_interval
unfolding send_liveness_ping
send_liveness_ping-PingInRange env c h = ground arith

-- n pings of the idle loop, which notes the time of each.
pub pings : ℕ → Env → Coordinator → Coordinator
pings zero env c = c
pings (suc n) env c = pings n env (record (send_liveness_ping env c) { last_ping_time = env.now })

-- A leader of echoD that has seen no consensus activity since its last ping, nor up to now.
abbrev pub IsIdle : Env → Coordinator → Type 0
IsIdle env c =
    (c.protocol ≡ echo_d)
    × (c.last_consensus_activity < c.last_ping_time)
    × (c.last_consensus_activity < env.now)

pings-suc :
    (n : ℕ) (env : Env) (c : Coordinator)
    → IsIdle env c
    → (d : Coordinator) × (pings (suc n) env c ≡ pings n env d)
      × IsIdle env d
      × (d.ping_interval ≡ min (c.ping_interval * 2) 250)
unfolding pings send_liveness_ping
pings-suc n env c h = (
  record (send_liveness_ping env c) { last_ping_time = env.now },
  refl,
  ground arith,
  ground arith,
)

capped :
    (n : ℕ) (env : Env) (c : Coordinator)
    → IsIdle env c
    → c.ping_interval ≡ 250
    → (pings n env c).ping_interval ≡ 250
capped zero env c h e = unfold pings in e
capped (suc n) env c h e =
    let (d, same, idle, next) = pings-suc n env c h in
    ap Coordinator.ping_interval same ∙ capped n env d idle (omega (arith, next))

-- An idle leader of echoD whose interval is in range is at the longest interval after three pings
-- and any more. After consensus activity at the time of its last ping or later, the next ping has the
-- fast interval.
pub pings-cap :
    (n activity : ℕ) (env : Env) (c : Coordinator)
    → IsIdle env c
    → PingInRange c.ping_interval
    → c.last_ping_time ≤ activity
    → ((pings (suc (suc (suc n))) env c).ping_interval ≡ echod_ping_max_interval)
      × ((send_liveness_ping env (record c { last_consensus_activity = activity })).ping_interval
          ≡ liveness_ping_interval)
pings-cap n activity env c h r recent =
    let (d, d_same, d_idle, d_next) = pings-suc (suc (suc n)) env c h in
    let (e, e_same, e_idle, e_next) = pings-suc (suc n) env d d_idle in
    let (f, f_same, f_idle, f_next) = pings-suc n env e e_idle in
    (
      ap Coordinator.ping_interval (d_same ∙ e_same ∙ f_same)
          ∙ capped n env f f_idle (omega (arith, d_next, e_next, f_next)),
      unfold send_liveness_ping in rw (h.0) (ground arith),
    )
