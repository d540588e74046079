-- ===== src/Gossip/Refutation.antt =====
-- How a node that is suspected clears itself, at home and with the others.
use gems.Prelude.{◌+◌}
use gems.Gossip.State.{alive, GossipItem}

-- The fact with which an accused node answers.
abbrev pub answer_to : GossipItem → GossipItem
answer_to g = record { member = g.member; status = alive; incarnation = g.incarnation + 1 }
