-- ===== src/Bus/Routes.antt =====
-- Who gets which message, under a partition and after it.
use echod.Prelude.{
  All, List, Option, [], ap, arith, eq_iff, false, if◌then◌else◌, none, refl, some, true, ℕ, ◌++◌,
  ◌+◌, ◌==◌, ◌↔◌, ◌∙◌, ◌∷◌, ◌≡◌, ◌≢◌, ◌≤◌, ◌⊎◌,
}
use echod.Bus.{Bus, can_reach, heal_partition, inject_partition, route, route_all, tick_weighted}
use echod.Messages.{Message, NodeId, is_leading}
use echod.Node.{Coordinator}
use echod.Prelude.Dict.{get, get-put, member}

abbrev pub inbox_of : Option (List Message) → List Message
inbox_of none = []
inbox_of (some inbox) = inbox

-- A message is delivered exactly if its recipient is registered and its sender reaches it. Then it
-- is the last one of the recipient's inbox, every other inbox is as it was, and the count of
-- messages is one more; otherwise the bus is as it was.
pub route-delivers :
    (msg : Message) (i : NodeId) (bus : Bus)
    → let (d, delivered) = route msg bus in
      ((delivered ≡ true) ↔ (
        (get msg.recipient_id bus.inboxes ≢ none)
        × (can_reach bus msg.sender_id msg.recipient_id ≡ true)))
      × ((delivered ≡ true) ⊎ (d ≡ bus))
      × ((delivered ≡ false) ⊎ (d.total_messages ≡ bus.total_messages + 1))
      × ((delivered ≡ false)
          ⊎ (get i d.inboxes ≡ (
              if msg.recipient_id == i
              then some (inbox_of (get i bus.inboxes) ++ msg ∷ [])
              else get i bus.inboxes)))
unfolding route
route-delivers msg i bus =
    let g =
      get-put msg.recipient_id i (inbox_of (get msg.recipient_id bus.inboxes) ++ msg ∷ [])
        bus.inboxes in
    let same = eq_iff msg.recipient_id i in
    (ground arith, ground arith, ground arith, ground (arith, g, same))

-- The sender is in one group only, and the recipient is not in that group.
abbrev pub IsAcross : List NodeId → List NodeId → Message → Type 0
IsAcross a b msg =
    ((member msg.sender_id b ≡ false) × (member msg.recipient_id a ≡ false))
    ⊎ ((member msg.sender_id a ≡ false) × (member msg.recipient_id b ≡ false))

route-across :
    (a b : List NodeId) (msg : Message) (bus : Bus)
    → IsAcross a b msg
    → (route msg (inject_partition a b bus)).0 ≡ inject_partition a b bus
unfolding route inject_partition
route-across a b msg bus h = ground arith

across_dropped :
    (a b : List NodeId) (msgs : List Message) (bus : Bus)
    → All (IsAcross a b) msgs
    → route_all msgs (inject_partition a b bus) ≡ inject_partition a b bus
unfolding route_all
across_dropped a b [] bus h = refl
across_dropped a b (msg ∷ msgs) bus h =
    ap (route_all msgs) (route-across a b msg bus h.0) ∙ across_dropped a b msgs bus h.1

healed_route :
    (msg : Message) (bus : Bus)
    → get msg.recipient_id bus.inboxes ≢ none
    → (route msg (heal_partition bus)).1 ≡ true
unfolding route heal_partition
healed_route msg bus h = ground arith

-- Between two groups of a partition no message passes, however many are sent: the bus stays as it
-- was when the partition was injected. After it has healed, any message to a registered node is
-- delivered again.
pub inject_partition-isolates :
    (a b : List NodeId) (msgs : List Message) (msg : Message) (bus : Bus)
    → All (IsAcross a b) msgs
    → get msg.recipient_id bus.inboxes ≢ none
    → let split = inject_partition a b bus in
      (route_all msgs split ≡ split)
      × ((route msg (heal_partition (route_all msgs split))).1 ≡ true)
inject_partition-isolates a b msgs msg bus h r =
    let dropped = across_dropped a b msgs bus h in
    (
      dropped,
      ap (λ (d : Bus). (route msg (heal_partition d)).1) dropped
          ∙ healed_route msg (inject_partition a b bus) (unfold inject_partition in r),
    )

-- Of two coordinators with the same charge, one that leads and one that does not, the one that
-- leads has no more charge left after a weighted battery tick.
pub tick_weighted-order :
    (base : ℕ) (c d : Coordinator)
    → c.battery ≡ d.battery
    → is_leading c.state ≡ true
    → is_leading d.state ≡ false
    → (tick_weighted base c).battery ≤ (tick_weighted base d).battery
unfolding tick_weighted
tick_weighted-order base c d e l n = ground arith
