-- ===== src/Node/Battery.antt =====
-- Battery changes and the observer state.
use echod.Prelude.{arith, ℤ, ◌*◌, ◌<◌, ◌↔◌, ◌≡◌, ◌≢◌, ◌≤◌, ◌⊎◌}
use echod.Config.{full_charge, one_percent, t_low, t_restore}
use echod.Messages.{follower, observer}
use echod.Node.{Coordinator, tick_battery}

-- After a battery change of any size or sign the charge is at most full. The node is then an
-- observer exactly if the charge is below `T_LOW`, or it was an observer and the charge is below
-- `T_RESTORE`; if it is not, its state is the one that it had, or it has left the observer state and
-- is a follower. The term stays, and so does the vote, but for a node that becomes an observer.
pub tick_battery-hysteresis :
    (change : ℤ) (c : Coordinator)
    → let d = tick_battery change c in
      (d.battery ≤ full_charge)
      × ((d.state ≡ observer) ↔ (
          (d.battery < t_low * one_percent)
          ⊎ ((c.state ≡ observer) × (d.battery < t_restore * one_percent))))
      × ((d.state ≡ observer) ⊎ (d.state ≡ c.state) ⊎ ((c.state ≡ observer) × (d.state ≡ follower)))
      × (d.current_term ≡ c.current_term)
      × ((d.voted_for ≡ c.voted_for) ⊎ ((c.state ≢ observer) × (d.state ≡ observer)))
unfolding tick_battery
tick_battery-hysteresis change c =
    (ground arith, (λ h. ground arith, λ h. ground arith), ground arith, ground arith, ground arith)
