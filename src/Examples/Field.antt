-- ===== src/Examples/Field.antt =====
-- Leaves and the message bus.
use echod.Log
use echod.Prelude.{
  String, [], arith, false, if◌then◌else◌, inl, negsuc, none, pos, refl, some, true, ◌++◌, ◌==◌,
  ◌↔◌, ◌∷◌, ◌≡◌, ◌≢◌, ◌⊎◌,
}
use echod.Bus.{Bus, can_reach, heal_partition, inject_partition, route, route_all}
use echod.Bus.Routes.{inbox_of, inject_partition-isolates, route-delivers}
use echod.Examples.Data.{env, peers}
use echod.Leaf.{
  Leaf, LeafEnv, create_leaf, handle_leaf_register_response, hears, inject_reading, leaf_on_idle,
  leaf_run, registration, ticks,
}
use echod.Leaf.Binding.{IsBound, leaf_run-create-IsBound}
use echod.Leaf.Silence.{inject_reading-loses, is_coordinator_in, leaf_on_idle-searches}
use echod.Messages.{LeafRegisterResponse, Message, Payload, active, searching}
use echod.Node.{address}
use echod.Prelude.Dict.{get, member}

abbrev young_leaf : Leaf
young_leaf = create_leaf env true "l0" "temp" 900_000 true (pos 500_000_000)

leaf_run-create-IsBound_example : IsBound (
    leaf_run
      ((record { outside = env; jitter = pos 3; draw = 4 }, ticks)
        ∷ (
          record { outside = env; jitter = pos 3; draw = 4 },
          hears "c1" (
              Payload.leaf_register_response
                (record { accepted = true; coordinator_id = "c1"; term = 2 })),
        )
        ∷ [])
      young_leaf)
leaf_run-create-IsBound_example =
    leaf_run-create-IsBound env true "l0" "temp" 900_000 true (pos 500_000_000) (
      (record { outside = env; jitter = pos 3; draw = 4 }, ticks)
      ∷ (
        record { outside = env; jitter = pos 3; draw = 4 },
        hears "c1" (
            Payload.leaf_register_response
              (record { accepted = true; coordinator_id = "c1"; term = 2 })),
      )
      ∷ [])

abbrev field : LeafEnv
field = record { outside = env; jitter = negsuc 7; draw = 4 }

abbrev bound_leaf : Leaf
bound_leaf = record {
  filters = true;
  node_id = "l0";
  battery = 900_000;
  sensor_type = "temp";
  state = active;
  coordinator_id = some "c0";
  auto_report = true;
  last_coordinator_contact = 2_900_000_000;
  last_sample_time = 2_900_000_000;
  sensor_value = pos 21_000_000_000;
  log = Log.empty;
  last_transmitted = some (pos 21_000_000_000);
  suppressed_count = 0;
  outbox = [];
}

abbrev lost_leaf : Leaf
lost_leaf = record bound_leaf { state = searching; coordinator_id = none }

abbrev accepting : LeafRegisterResponse
accepting = record { accepted = true; coordinator_id = "c1"; term = 2 }

leaf_on_idle-searches_example :
    let d = leaf_on_idle field bound_leaf in
    let asked = leaf_on_idle field d in
    let bound = leaf_on_idle field (handle_leaf_register_response env accepting asked) in
    (d.state ≡ searching)
    × (d.coordinator_id ≡ none)
    × (d.outbox ≡ [])
    × ((i : String) × (is_coordinator_in i peers ≡ true)
        × (asked.outbox ≡ [] ++ address "l0" (i ∷ []) (registration bound_leaf)))
    × (bound.state ≡ active)
    × (bound.coordinator_id ≡ some "c1")
leaf_on_idle-searches_example =
    leaf_on_idle-searches field field field env accepting bound_leaf peers "c1" refl (omega arith)
      refl refl refl (omega arith)

inject_reading-loses_example :
    let registered =
      handle_leaf_register_response env accepting
        (inject_reading env (pos 25_000_000_000) lost_leaf) in
    (inject_reading env (pos 25_000_000_000) registered).outbox ≡ []
inject_reading-loses_example =
    inject_reading-loses env env env (pos 25_000_000_000) accepting lost_leaf refl refl

abbrev wires : Bus
wires = record {
  inboxes = ("c0", []) ∷ ("c1", []) ∷ ("c2", []) ∷ [];
  partitions = [];
  total_messages = 0;
}

abbrev ping_to : String → Message
ping_to i = record {
  sender_id = "c0";
  recipient_id = i;
  payload = Payload.liveness_ping (record { term = 2; leader_id = "c0" });
}

route-delivers_example :
    let (d, delivered) = route (ping_to "c1") wires in
    ((delivered ≡ true) ↔ ((get "c1" wires.inboxes ≢ none) × (can_reach wires "c0" "c1" ≡ true)))
    × ((delivered ≡ true) ⊎ (d ≡ wires))
    × ((delivered ≡ false) ⊎ (d.total_messages ≡ 1))
    × ((delivered ≡ false)
        ⊎ (get "c2" d.inboxes ≡ (
            if "c1" == "c2"
            then some (inbox_of (get "c2" wires.inboxes) ++ ping_to "c1" ∷ [])
            else get "c2" wires.inboxes)))
route-delivers_example = route-delivers (ping_to "c1") "c2" wires

inject_partition-isolates_example :
    let split = inject_partition ("c0" ∷ []) ("c1" ∷ "c2" ∷ []) wires in
    (route_all (ping_to "c1" ∷ ping_to "c2" ∷ []) split ≡ split)
    × ((route
          (ping_to "c1")
          (heal_partition (route_all (ping_to "c1" ∷ ping_to "c2" ∷ []) split))).1
        ≡ true)
unfolding member get
inject_partition-isolates_example =
    inject_partition-isolates ("c0" ∷ []) ("c1" ∷ "c2" ∷ []) (ping_to "c1" ∷ ping_to "c2" ∷ [])
      (ping_to "c1") wires (inl (refl, refl), (inl (refl, refl), tt)) (λ e. ground arith)
