-- ===== src/Replica/Ticket.antt =====
-- The replicas that a write goes to (`ReplicationTicket` of src/replication/mod.rs).
use little_actors.Prelude.{
  Bool, true, not, ◌&&◌, List, [], ◌∷◌, ◌==◌, leb, any, length, Checked, ◌>>◌, ensure,
}
use little_actors.Prelude.Text.{Text, text_eq}
use little_actors.Replica.{ReplicaTarget, max_replicas}

pub record ReplicationTicket : Type 0 where
  pub replicas : List ReplicaTarget

-- As many different values as values: `collect::<HashSet<_>>().len() == count`
unfoldable pub all_distinct : List Text → Bool
all_distinct [] = true
all_distinct (x ∷ xs) = not (any (λ y. y == x) xs) && all_distinct xs

abbrev pub hosts : List ReplicaTarget → List Text
hosts [] = []
hosts (r ∷ rs) = r.host_id ∷ hosts rs

abbrev pub urls : List ReplicaTarget → List Text
urls [] = []
urls (r ∷ rs) = r.url ∷ urls rs

-- `ReplicationTicket::validate`
unfoldable pub validate_ticket : ReplicationTicket → Checked
unfolding all_distinct
validate_ticket ticket = do
  ensure (leb 1 (length ticket.replicas) && leb (length ticket.replicas) max_replicas)
      "invalid replica count"
  ensure (all_distinct (hosts ticket.replicas) && all_distinct (urls ticket.replicas))
      "replica hosts must be distinct"
