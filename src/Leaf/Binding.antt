-- ===== src/Leaf/Binding.antt =====
-- When a leaf has a coordinator, and how it looks for one.
use echod.Prelude.{Bool, List, String, [], arith, none, refl, ℕ, ℤ, ◌∷◌, ◌≡◌, ◌≢◌}
use echod.Leaf.{
  Leaf, LeafEnv, LeafEvent, create_leaf, handle_leaf_register_response, hears, inject_reading,
  injects, leaf_append_entries, leaf_liveness_ping, leaf_on_idle, leaf_payload, leaf_react,
  leaf_run, loses, ticks,
}
use echod.Log.Commits.{change}
use echod.Messages.{NodeId, Payload, active}
use echod.Node.{Env}

-- An active leaf has a coordinator, and any other leaf has none.
abbrev pub IsBound : Leaf → Type 0
IsBound l =
    ((l.state ≡ active) → l.coordinator_id ≢ none) × ((l.state ≢ active) → l.coordinator_id ≡ none)

payload-IsBound :
    (env : Env) (sender : NodeId) (p : Payload) (l : Leaf)
    → IsBound l
    → IsBound (leaf_payload env sender p l)
unfolding leaf_payload handle_leaf_register_response leaf_append_entries leaf_liveness_ping
payload-IsBound env sender p l h = ground arith

idle-IsBound : (env : LeafEnv) (l : Leaf) → IsBound l → IsBound (leaf_on_idle env l)
unfolding leaf_on_idle
idle-IsBound env l h = ground arith

react-IsBound :
    (env : LeafEnv) (event : LeafEvent) (l : Leaf) → IsBound l → IsBound (leaf_react env event l)
unfolding leaf_react inject_reading
react-IsBound env (hears sender p) l h = payload-IsBound env.outside sender p l h
react-IsBound env ticks l h = idle-IsBound env l h
react-IsBound env (injects value) l h = ground arith
react-IsBound env (loses change) l h = h

run-IsBound : (es : List (LeafEnv × LeafEvent)) (l : Leaf) → IsBound l → IsBound (leaf_run es l)
unfolding leaf_run
run-IsBound [] l h = h
run-IsBound ((env, event) ∷ rest) l h =
    run-IsBound rest (leaf_react env event l) (react-IsBound env event l h)

-- A leaf of either kind, after any events from its creation on, has a coordinator exactly while it
-- is active.
pub leaf_run-create-IsBound :
    (env : Env) (filters : Bool) (i : NodeId) (sensor : String) (battery : ℕ) (auto : Bool)
    (drawn : ℤ) (es : List (LeafEnv × LeafEvent))
    → IsBound (leaf_run es (create_leaf env filters i sensor battery auto drawn))
unfolding create_leaf
leaf_run-create-IsBound env filters i sensor battery auto drawn es =
    run-IsBound es (create_leaf env filters i sensor battery auto drawn)
      ((λ e. ground arith), (λ e. refl))
