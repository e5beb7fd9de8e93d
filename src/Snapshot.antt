-- ===== src/Snapshot.antt =====
-- The snapshot of an actor's state and its validation (src/state_log.rs).
use little_actors.Prelude.{
  ℕ, ◌*◌, Bool, not, ◌&&◌, Option, [], ◌∷◌, ◌==◌, ltb, leb, length, Checked, ◌>>◌, ensure,
}
use little_actors.Prelude.Text.{Text, text_eq, starts_with}
use little_actors.Json.{Value}

abbrev pub max_actor_state_bytes : ℕ
max_actor_state_bytes = 16 * 1024 * 1024

pub record StateAttribution : Type 0 where
  pub operation : Text
  pub connection_id : Option Text
  pub committed_at_ms : ℕ
  pub interleaved : Bool

-- `state` is the raw JSON text.
pub record StateSnapshot : Type 0 where
  pub attribution : Option StateAttribution
  pub state_version : ℕ
  pub owner_epoch : ℕ
  pub request_id : Text
  pub state : Text
  pub result : Value

unfoldable pub validate : StateSnapshot → Checked
validate snapshot = do
  ensure (ltb 0 snapshot.state_version) "actor state version must be positive"
  ensure (ltb 0 snapshot.owner_epoch) "owner epoch must be positive"
  ensure (not (snapshot.request_id == []) && leb (length snapshot.request_id) 255)
      "actor state request ID is invalid"
  ensure (starts_with (b'{' ∷ []) snapshot.state) "actor state must be a JSON object"
  ensure (leb (length snapshot.state) max_actor_state_bytes) "actor state exceeds the limit"
