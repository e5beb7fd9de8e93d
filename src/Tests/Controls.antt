-- ===== src/Tests/Controls.antt =====
-- A run of the groups of replicas (src/control_plane/replication/store.rs).
use little_actors.Prelude.{ℕ, true, refl, List, [], ◌∷◌}
use little_actors.Prelude.Text.{text, text_beq}
use little_actors.Prelude.Dict.{lookup}
use little_actors.Replica.{ReplicaScope}
use little_actors.Tests.Documents.{documents}
use little_actors.ControlPlane.Groups.{
  Slot, Row, Rows, GroupCall, new_instance, recording, retrying, retiring_group, forgetting,
  deleting, serve_groups,
}
use little_actors.ControlPlane.Groups.Closing.{IsRetiredAt, serve_groups-IsRetiredAt}

abbrev a_group_scope : ReplicaScope
a_group_scope = record {
  actor = record { project_id = text "p"; actor_name = text "a"; actor_id = text "1" };
  host = text "h";
  session = text "s";
  region = text "eu";
}

abbrev some_slots : List Slot
some_slots = record { region = text "eu"; instances = new_instance (text "replica.1") ∷ [] } ∷ []

abbrev retiring_row : Row
retiring_row = record {
  config = record { scope = a_group_scope; image = text "i"; retiring = true; slots = some_slots };
  updated_at = 0;
  checked_at = 0;
}

abbrev some_rows : Rows
some_rows = (text "g", retiring_row) ∷ []

abbrev some_calls : List (ℕ × GroupCall)
some_calls =
    (1, retrying (λ n. text "replica.2") (text "g") (text "replica.1"))
    ∷ (
      2,
      recording (text "g") 0
          (record { host_id = text "replica.1"; url = text "u"; region = text "eu" }),
    )
    ∷ (200_000, retiring_group (text "g"))
    ∷ (200_001, forgetting (text "g") (text "replica.1"))
    ∷ (200_002, deleting (text "x"))
    ∷ []

serve_groups-IsRetiredAt_example :
    IsRetiredAt (text "g") some_slots (serve_groups documents some_calls some_rows)
unfolding lookup text_beq
serve_groups-IsRetiredAt_example =
    serve_groups-IsRetiredAt documents (text "g") some_slots some_calls some_rows
      (tt, (tt, (tt, (tt, (refl, tt))))) (retiring_row, refl, (refl, λ host h. h))
