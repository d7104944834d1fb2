-- ===== src/Pi/Split.antt =====
-- Whom a hardware coordinator hears during a partition, and after it.
use echod.Prelude.{Bool, List, Option, [], false, if◌then◌else◌, not, true, ◌&&◌, ◌==◌, ◌∷◌}
use echod.Messages.{NodeId}
use echod.Pi.Partition.{includes, own_group, same_set}
use echod.Prelude.Dict.{member}

-- Some group other than the node's own has the node `j`.
unfoldable pub is_outside : Option (List NodeId) → List (List NodeId) → NodeId → Bool
unfolding includes
is_outside mine [] j = false
is_outside mine (group ∷ groups) j =
    let rest = is_outside mine groups j in
    if member j group && not (same_set group mine) then true else rest

-- Whether a node drops what `j` sends it while the cluster is split into groups.
abbrev pub is_cut_off : NodeId → List (List NodeId) → NodeId → Bool
is_cut_off me groups j = not (j == me) && is_outside (own_group me groups) groups j
