-- ===== src/Gossip/Merge.antt =====
-- How a node takes over a fact about a member (`merge` and `maybe_refute_self` of
-- crates/gems-cluster/src/gossip.rs).
use gems.Prelude.{
  Bool, true, false, not, ◌&&◌, ◌||◌, Option, none, some, List, [], ◌∷◌, ltb, ◌==◌, if◌then◌else◌,
  inc64,
}
use gems.Prelude.Maps.{lookup, insert, remove}
use gems.Gossip.State.{Status, alive, suspect, dead, rank, Member, GossipItem, SwimCore}
use gems.Gossip.Queue.{queue_gossip}

abbrev pub is_alive : Status → Bool
is_alive alive = true
is_alive _ = false

abbrev pub is_suspect : Status → Bool
is_suspect suspect = true
is_suspect _ = false

abbrev pub is_dead : Status → Bool
is_dead dead = true
is_dead _ = false

unfoldable pub maybe_refute_self : SwimCore → GossipItem → SwimCore × Bool
unfolding queue_gossip
maybe_refute_self c incoming =
    if is_alive incoming.status || ltb incoming.incarnation c.incarnation
    then (c, false)
    else let fresh = inc64 incoming.incarnation in
      (
        queue_gossip
            (record c {
              incarnation = fresh;
              members = insert c.id (record { status = alive; incarnation = fresh }) c.members;
            })
            (record { member = c.id; status = alive; incarnation = fresh }),
        true,
      )

-- Whether a fact outweighs what is recorded.
abbrev pub should_apply : GossipItem → Option Member → Bool
should_apply incoming none = true
should_apply incoming (some m) =
    not (is_dead m.status)
    && (ltb m.incarnation incoming.incarnation
        || (incoming.incarnation == m.incarnation && ltb (rank m.status) (rank incoming.status)))

unfoldable pub apply_fact : SwimCore → GossipItem → SwimCore
unfolding queue_gossip
apply_fact c incoming =
    queue_gossip
      (record c {
        members =
            insert incoming.member
              (record { status = incoming.status; incarnation = incoming.incarnation }) c.members;
        suspect_elapsed =
            if is_suspect incoming.status
            then insert incoming.member 0 c.suspect_elapsed
            else remove incoming.member c.suspect_elapsed;
      })
      incoming

unfoldable pub merge : SwimCore → GossipItem → SwimCore × Bool
unfolding maybe_refute_self apply_fact
merge c incoming =
    if incoming.member == c.id
    then maybe_refute_self c incoming
    else if should_apply incoming (lookup incoming.member c.members)
    then (apply_fact c incoming, true)
    else (c, false)

unfoldable pub merge_all : List GossipItem → SwimCore → SwimCore
unfolding merge
merge_all [] c = c
merge_all (g ∷ gs) c = merge_all gs (merge c g).0
