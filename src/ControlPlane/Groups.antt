-- ===== src/ControlPlane/Groups.antt =====
-- The groups of replicas of the sessions (src/control_plane/replication/store.rs). The table of the
-- database is a map from identifiers to rows; an update runs in a transaction on its row. The clock
-- and the names of new instances are arguments, times are in milliseconds.
pub mod Closing
use little_actors.Prelude.{
  ℕ, zero, suc, ◌+◌, Bool, true, false, not, ◌&&◌, ◌||◌, Option, none, some, List, [], ◌∷◌, ◌++◌,
  ◌==◌, ltb, leb, any, keep, take, last, map, length, Result, ok, err, ◌>>=◌, ◌>>◌, ensure, context,
  if◌then◌else◌,
}
use little_actors.Prelude.Dict.{Dict, lookup, insert, remove}
use little_actors.Prelude.Text.{Text, text_eq}
use little_actors.Actor.{actor_beq}
use little_actors.Replica.{ReplicaScope, ReplicaTarget}
use little_actors.Authority.Paths.{scope_identity}
use little_actors.Wire.{Codec}

pub record Instance : Type 0 where
  pub host : Text
  pub target : Option ReplicaTarget

pub record Slot : Type 0 where
  pub region : Text
  pub instances : List Instance

pub record Group : Type 0 where
  pub scope : ReplicaScope
  pub image : Text
  pub retiring : Bool
  pub slots : List Slot

-- A row of `durable_actors_replica_groups`
pub record Row : Type 0 where
  pub config : Group
  pub updated_at : ℕ
  pub checked_at : ℕ

abbrev pub Rows : Type 0
Rows = Dict Text Row

-- `interval '120 seconds'`
abbrev pub provisioning_ms : ℕ
provisioning_ms = 120_000

-- `Instance::new`, with its name
abbrev pub new_instance : Text → Instance
new_instance host = record { host = host; target = none }

abbrev pub scope_beq : ReplicaScope → ReplicaScope → Bool
scope_beq a b =
    actor_beq a.actor b.actor && a.host == b.host && a.session == b.session && a.region == b.region

-- One slot for each region, with the names of the new instances.
unfoldable pub new_slots : (ℕ → Text) → ℕ → List Text → List Slot
new_slots fresh n [] = []
new_slots fresh n (region ∷ regions) =
    record { region = region; instances = new_instance (fresh n) ∷ [] }
    ∷ new_slots fresh (suc n) regions

-- The row that an update reads.
abbrev pub selected : ℕ → Bool → Option Row → Option Row
selected now retiring none = none
selected now retiring (some row) =
    if not retiring || ltb (row.updated_at + provisioning_ms) now then some row else none

module _ (now : ℕ) (id : Text) (touch : Bool) where
  -- The row as it is written back, if the change succeeded.
  abbrev pub write_back : Rows → Row → Result Group → Rows × Result Group
  write_back rows row (err e) = (rows, err e)
  write_back rows row (ok group) = (
    insert id (record row { config = group; updated_at = if touch then now else row.updated_at })
        rows,
    ok group,
  )

  abbrev pub change_row : (Group → Result Group) → Rows → Option Row → Rows × Result Group
  change_row change rows none = (rows, err "replica group missing or provisioning is in progress")
  change_row change rows (some row) = write_back rows row (change row.config)

-- `Store::update`
unfoldable pub update : ℕ → Text → Bool → Bool → (Group → Result Group) → Rows → Rows × Result Group
update now id touch retiring change rows =
    change_row now id touch change rows (selected now retiring (lookup id rows))

-- A new instance in each slot whose current one failed.
unfoldable pub replace_failed : (ℕ → Text) → ℕ → List Text → List Slot → Result (List Slot)
replace_failed fresh n failed [] = ok []
replace_failed fresh n failed (slot ∷ slots) = do
  current ← context (last slot.instances) "replica slot is empty"
  rest ← replace_failed fresh (suc n) failed slots
  ok (
      (if any (λ host. host == current.host) failed
        then record slot { instances = slot.instances ++ (new_instance (fresh n) ∷ []) }
        else slot)
      ∷ rest)

unfoldable pub prepare_change : (ℕ → Text) → ℕ → ReplicaScope → List Text → Group → Result Group
unfolding replace_failed
prepare_change fresh n scope failed group = do
  ensure (not group.retiring && scope_beq group.scope scope)
      "replica activation is retired or changed"
  slots ← replace_failed fresh n failed group.slots
  ok (record group { slots = slots })

-- `ON CONFLICT DO NOTHING`
abbrev pub insert_absent : Text → Row → Option Row → Rows → Rows
insert_absent id row none rows = insert id row rows
insert_absent id row (some existing) rows = rows

unfoldable pub prepare :
    Codec
    → ℕ
    → (ℕ → Text)
    → ReplicaScope
    → List Text
    → Text
    → List Text
    → Rows
    → Rows × Result Group
unfolding update prepare_change new_slots
prepare c now fresh scope regions image failed rows =
    let id = scope_identity c scope in
    let group : Group = record {
      scope = scope;
      image = image;
      retiring = false;
      slots = new_slots fresh 0 regions;
    } in
    update now id true false (prepare_change fresh (length regions) scope failed) (
      insert_absent id (record { config = group; updated_at = now; checked_at = now })
        (lookup id rows) rows)

-- The target of the current instance.
unfoldable pub record_target : ReplicaTarget → List Instance → Result (List Instance)
record_target target [] = err "replica slot is empty"
record_target target (current ∷ []) = do
  ensure (current.host == target.host_id) "replica was replaced concurrently"
  ok (record current { target = some target } ∷ [])
record_target target (instance' ∷ next ∷ instances) = do
  rest ← record_target target (next ∷ instances)
  ok (instance' ∷ rest)

-- At an index, which panics out of range.
unfoldable pub record_in : ℕ → ReplicaTarget → List Slot → Result (List Slot)
unfolding record_target
record_in slot target [] = err "index out of bounds"
record_in zero target (s ∷ slots) = do
  instances ← record_target target s.instances
  ok (record s { instances = instances } ∷ slots)
record_in (suc slot) target (s ∷ slots) = do rest ← record_in slot target slots; ok (s ∷ rest)

unfoldable pub record_change : ℕ → ReplicaTarget → Group → Result Group
unfolding record_in
record_change slot target group = do
  ensure (not group.retiring) "replica group is retiring"
  slots ← record_in slot target group.slots
  ok (record group { slots = slots })

abbrev pub has_target : Instance → Bool
has_target i = elim i.target [ none ↦ false | some target ↦ true ]

-- `is_some_and` of the current instance
abbrev pub awaits : Text → Option Instance → Bool
awaits host none = false
awaits host (some i) = i.host == host && not (has_target i)

unfoldable pub retry_slots : (ℕ → Text) → ℕ → Text → List Slot → List Slot
retry_slots fresh n host [] = []
retry_slots fresh n host (slot ∷ slots) =
    (if awaits host (last slot.instances)
      then record slot { instances = slot.instances ++ (new_instance (fresh n) ∷ []) }
      else slot)
    ∷ retry_slots fresh (suc n) host slots

unfoldable pub retry_change : (ℕ → Text) → Text → Group → Result Group
unfolding retry_slots
retry_change fresh host group = do
  ensure (not group.retiring) "replica group is retiring"
  ok (record group { slots = retry_slots fresh 0 host group.slots })

abbrev pub retire_change : Group → Result Group
retire_change group = ok (record group { retiring = true })

-- Whether an instance stays when a host is forgotten.
abbrev pub stays : Text → Option Instance → Instance → Bool
stays host none i = not (i.host == host)
stays host (some current) i = not (i.host == host) || current.host == i.host

unfoldable pub forget_slots : Text → List Slot → List Slot
forget_slots host [] = []
forget_slots host (slot ∷ slots) =
    record slot { instances = keep (stays host (last slot.instances)) slot.instances }
    ∷ forget_slots host slots

abbrev pub forget_change : Text → Group → Result Group
forget_change host group = ok (record group { slots = forget_slots host group.slots })

-- `Store::checked`
abbrev pub mark_checked : ℕ → Text → Option Row → Rows → Rows
mark_checked now id none rows = rows
mark_checked now id (some row) rows = insert id (record row { checked_at = now }) rows

unfoldable pub insert_row : Row → List Row → List Row
insert_row row [] = row ∷ []
insert_row row (other ∷ rows) =
    if leb row.checked_at other.checked_at then row ∷ other ∷ rows else other ∷ insert_row row rows

-- The rows that are not being provisioned, by the time of their check.
unfoldable pub idle_rows : ℕ → Rows → List Row
unfolding insert_row
idle_rows now [] = []
idle_rows now ((id, row) ∷ rows) =
    if ltb (row.updated_at + provisioning_ms) now
    then insert_row row (idle_rows now rows)
    else idle_rows now rows

-- `Store::candidates`
unfoldable pub candidates : ℕ → Rows → List Group
unfolding idle_rows
candidates now rows = map (λ (row : Row). row.config) (take 64 (idle_rows now rows))

-- The operations of the store that write.
pub data GroupCall : Type 0 where
  preparing : (ℕ → Text) → ReplicaScope → List Text → Text → List Text → GroupCall
  recording : Text → ℕ → ReplicaTarget → GroupCall
  retrying : (ℕ → Text) → Text → Text → GroupCall
  checking : Text → GroupCall
  retiring_group : Text → GroupCall
  forgetting : Text → Text → GroupCall
  deleting : Text → GroupCall

unfoldable pub serve_group : Codec → ℕ → GroupCall → Rows → Rows
unfolding prepare update record_change retry_change forget_slots
serve_group c now (preparing fresh scope regions image failed) rows =
    (prepare c now fresh scope regions image failed rows).0
serve_group c now (recording id slot target) rows =
    (update now id true false (record_change slot target) rows).0
serve_group c now (retrying fresh id host) rows =
    (update now id true false (retry_change fresh host) rows).0
serve_group c now (checking id) rows = mark_checked now id (lookup id rows) rows
serve_group c now (retiring_group id) rows = (update now id false true retire_change rows).0
serve_group c now (forgetting id host) rows =
    (update now id false false (forget_change host) rows).0
serve_group c now (deleting id) rows = remove id rows

-- Calls with the times at which they come.
unfoldable pub serve_groups : Codec → List (ℕ × GroupCall) → Rows → Rows
unfolding serve_group
serve_groups c [] rows = rows
serve_groups c ((now, call) ∷ calls) rows = serve_groups c calls (serve_group c now call rows)
