-- ===== src/Lease.antt =====
-- Host leases and what a host reports of an activation (src/host_leases.rs), and socket connections
-- (src/actor/executor_connection.rs).
use little_actors.Prelude.{ℕ, Bool, Option, List, Checked, ltb, leb, ◌>>◌, ensure}
use little_actors.Prelude.Text.{Text}
use little_actors.Json.{Value}

abbrev pub max_host_lease_duration_ms : ℕ
max_host_lease_duration_ms = 60_000

pub record HostLease : Type 0 where
  pub id : Text
  pub session_id : Text
  pub route : Text
  pub expires_at_ms : ℕ

pub record HostLeaseRequest : Type 0 where
  pub id : Text
  pub session_id : Text
  pub route : Text
  pub duration_ms : ℕ

unfoldable pub validate_duration : HostLeaseRequest → Checked
validate_duration request = do
  ensure (ltb 0 request.duration_ms) "host lease duration must be positive"
  ensure (leb request.duration_ms max_host_lease_duration_ms)
      "host lease duration must not exceed 60000ms"

pub record ActorSocketConnection : Type 0 where
  pub id : Text
  pub metadata : Value
  pub tags : List Text

pub record WaitingOperation : Type 0 where
  pub id : Text
  pub operation : Text

pub record ActivationInventory : Type 0 where
  pub resident : Option Bool
  pub connections : List ActorSocketConnection
  pub waiting : Option (List WaitingOperation)
