-- ===== src/ControlPlane/Groups/Closing.antt =====
-- Groups that retire, and what the store does with them (src/control_plane/replication/store.rs).
use little_actors.Prelude.{
  ℕ, ◌≡◌, refl, sym, ◌∙◌, Bool, true, false, ◌||◌, Option, none, some, Bool-cases, inl, inr, List,
  [], ◌∷◌, ◌==◌, ==_iff, All, any, keep, last, length, Result, ok, err, ok-injective, arith, subst,
  if◌then◌else◌,
}
use little_actors.Prelude.Dict.{lookup, lookup-insert, lookup-remove}
use little_actors.Prelude.Text.{Text, text_eq}
use little_actors.Replica.{ReplicaScope, ReplicaTarget}
use little_actors.Authority.Paths.{scope_identity}
use little_actors.Wire.{Codec}
use little_actors.ControlPlane.Groups.{
  Instance, Slot, Group, Row, Rows, selected, write_back, change_row, update, prepare_change,
  insert_absent, prepare, record_change, retry_change, retire_change, stays, forget_slots,
  forget_change, mark_checked, GroupCall, preparing, recording, retrying, checking, retiring_group,
  forgetting, deleting, serve_group, serve_groups,
}

-- An instance with this host is in the slots.
unfoldable pub has_host : Text → List Slot → Bool
has_host host [] = false
has_host host (slot ∷ slots) =
    any (λ (i : Instance). i.host == host) slot.instances || has_host host slots

-- The group retires, with no host but those of the slots.
abbrev pub IsRetired : List Slot → Group → Type 0
IsRetired slots group =
    (group.retiring ≡ true)
    × ((host : Text) → has_host host group.slots ≡ true → has_host host slots ≡ true)

abbrev pub IsRetiredAt : Text → List Slot → Rows → Type 0
IsRetiredAt id slots rows = (row : Row) × (lookup id rows ≡ some row) × IsRetired slots row.config

-- A change that a retired group survives.
abbrev KeepsRetired : (Group → Result Group) → Type 0
KeepsRetired change =
    (slots : List Slot) (group after : Group)
    → IsRetired slots group
    → change group ≡ ok after
    → IsRetired slots after

prepare_change-KeepsRetired :
    (fresh : ℕ → Text) (n : ℕ) (scope : ReplicaScope) (failed : List Text)
    → KeepsRetired (prepare_change fresh n scope failed)
unfolding prepare_change
prepare_change-KeepsRetired fresh n scope failed slots group after (r, h) e =
    absurd (let e' = rw r at e in cc)

record_change-KeepsRetired :
    (slot : ℕ) (target : ReplicaTarget) → KeepsRetired (record_change slot target)
unfolding record_change
record_change-KeepsRetired slot target slots group after (r, h) e =
    absurd (let e' = rw r at e in cc)

retry_change-KeepsRetired :
    (fresh : ℕ → Text) (host : Text) → KeepsRetired (retry_change fresh host)
unfolding retry_change
retry_change-KeepsRetired fresh host slots group after (r, h) e = absurd (let e' = rw r at e in cc)

retire_change-KeepsRetired : KeepsRetired retire_change
retire_change-KeepsRetired slots group after (r, h) e =
    subst (IsRetired slots) (ok-injective e) (refl, h)

any-keep : (p q : Instance → Bool) (xs : List Instance) → any p (keep q xs) ≡ true → any p xs ≡ true
any-keep p q [] h = h
any-keep p q (x ∷ xs) h = ground (arith, any-keep p q xs)

forget_slots-fewer :
    (host forgotten : Text) (slots : List Slot)
    → has_host host (forget_slots forgotten slots) ≡ true
    → has_host host slots ≡ true
unfolding has_host forget_slots
forget_slots-fewer host forgotten [] h = h
forget_slots-fewer host forgotten (slot ∷ slots) h = ground (
  arith,
  any-keep (λ (i : Instance). i.host == host) (stays forgotten (last slot.instances))
      slot.instances,
  forget_slots-fewer host forgotten slots,
)

forget_change-KeepsRetired : (host : Text) → KeepsRetired (forget_change host)
forget_change-KeepsRetired host slots group after (r, h) e =
    subst (IsRetired slots) (ok-injective e)
      (r, λ other k. h other (forget_slots-fewer other host group.slots k))

selected-some :
    (now : ℕ) (retiring : Bool) (o : Option Row) {row : Row}
    → selected now retiring o ≡ some row
    → o ≡ some row
selected-some now retiring none h = h
selected-some now retiring (some row) h = ground (arith)

module _ (now : ℕ) (id other : Text) (touch : Bool) (slots : List Slot) where
  write_back-IsRetiredAt :
      (change : Group → Result Group) (rows : Rows) (x : Row) (result : Result Group)
      → KeepsRetired change
      → lookup other rows ≡ some x
      → change x.config ≡ result
      → IsRetiredAt id slots rows
      → IsRetiredAt id slots (write_back now other touch rows x result).0
  write_back-IsRetiredAt change rows x (err e) keeps found changed v = v
  write_back-IsRetiredAt change rows x (ok group) keeps found changed (row, e, r) =
      let x' : Row = record x {
        config = group;
        updated_at = if touch then now else x.updated_at;
      } in
      elim (Bool-cases (other == id)) [
        | inl same ↦
            let here : lookup id rows ≡ some x =
              subst (λ (k : Text). lookup k rows ≡ some x) ((==_iff other id).0 same) found in
            let same_row : row ≡ x = (let q : some row ≡ some x = sym e ∙ here in cc) in
            (
              x',
              lookup-insert id other x' rows ∙ rw same refl,
              keeps slots x.config group (subst (λ (y : Row). IsRetired slots y.config) same_row r)
                  changed,
            )
        | inr differs ↦ (row, lookup-insert id other x' rows ∙ rw differs e, r)
      ]

  change_row-IsRetiredAt :
      (change : Group → Result Group) (rows : Rows) (o : Option Row)
      → KeepsRetired change
      → ((x : Row) → o ≡ some x → lookup other rows ≡ some x)
      → IsRetiredAt id slots rows
      → IsRetiredAt id slots (change_row now other touch change rows o).0
  change_row-IsRetiredAt change rows none keeps found v = v
  change_row-IsRetiredAt change rows (some x) keeps found v =
      write_back-IsRetiredAt change rows x (change x.config) keeps (found x refl) refl v

  update-IsRetiredAt :
      (retiring : Bool) (change : Group → Result Group) (rows : Rows)
      → KeepsRetired change
      → IsRetiredAt id slots rows
      → IsRetiredAt id slots (update now other touch retiring change rows).0
  unfolding update
  update-IsRetiredAt retiring change rows keeps v =
      change_row-IsRetiredAt change rows (selected now retiring (lookup other rows)) keeps
        (λ x h. selected-some now retiring (lookup other rows) h) v

-- Another row, or one that is there, leaves the group.
insert_absent-IsRetiredAt :
    (id other : Text) (new : Row) (slots : List Slot) (rows : Rows) (o : Option Row)
    → lookup other rows ≡ o
    → IsRetiredAt id slots rows
    → IsRetiredAt id slots (insert_absent other new o rows)
insert_absent-IsRetiredAt id other new slots rows (some x) h v = v
insert_absent-IsRetiredAt id other new slots rows none h (row, e, r) =
    elim (Bool-cases (other == id)) [
      | inl same ↦
          let here : lookup id rows ≡ none =
            subst (λ (k : Text). lookup k rows ≡ none) ((==_iff other id).0 same) h in
          absurd (let q : none ≡ some row = sym here ∙ e in cc)
      | inr differs ↦ (row, lookup-insert id other new rows ∙ rw differs e, r)
    ]

mark_checked-IsRetiredAt :
    (now : ℕ) (id other : Text) (slots : List Slot) (rows : Rows) (o : Option Row)
    → lookup other rows ≡ o
    → IsRetiredAt id slots rows
    → IsRetiredAt id slots (mark_checked now other o rows)
mark_checked-IsRetiredAt now id other slots rows none h v = v
mark_checked-IsRetiredAt now id other slots rows (some x) h (row, e, r) =
    let x' : Row = record x { checked_at = now } in
    elim (Bool-cases (other == id)) [
      | inl same ↦
          let here : lookup id rows ≡ some x =
            subst (λ (k : Text). lookup k rows ≡ some x) ((==_iff other id).0 same) h in
          let same_row : row ≡ x = (let q : some row ≡ some x = sym e ∙ here in cc) in
          (
            x',
            lookup-insert id other x' rows ∙ rw same refl,
            subst (λ (y : Row). IsRetired slots y.config) same_row r,
          )
      | inr differs ↦ (row, lookup-insert id other x' rows ∙ rw differs e, r)
    ]

-- The call does not delete the group.
abbrev pub IsLeft : Text → GroupCall → Type 0
IsLeft id (deleting other) = (other == id) ≡ false
IsLeft id (preparing fresh scope regions image failed) = Unit
IsLeft id (recording other slot target) = Unit
IsLeft id (retrying fresh other host) = Unit
IsLeft id (checking other) = Unit
IsLeft id (retiring_group other) = Unit
IsLeft id (forgetting other host) = Unit

serve_group-IsRetiredAt :
    (c : Codec) (now : ℕ) (id : Text) (slots : List Slot) (call : GroupCall) (rows : Rows)
    → IsLeft id call
    → IsRetiredAt id slots rows
    → IsRetiredAt id slots (serve_group c now call rows)
unfolding serve_group prepare
serve_group-IsRetiredAt c now id slots (preparing fresh scope regions image failed) rows left v =
    update-IsRetiredAt now id (scope_identity c scope) true slots false
      (prepare_change fresh (length regions) scope failed) _
      (prepare_change-KeepsRetired fresh (length regions) scope failed)
      (insert_absent-IsRetiredAt id (scope_identity c scope) _ slots rows
        (lookup (scope_identity c scope) rows) refl v)
serve_group-IsRetiredAt c now id slots (recording other slot target) rows left v =
    update-IsRetiredAt now id other true slots false (record_change slot target) rows
      (record_change-KeepsRetired slot target) v
serve_group-IsRetiredAt c now id slots (retrying fresh other host) rows left v =
    update-IsRetiredAt now id other true slots false (retry_change fresh host) rows
      (retry_change-KeepsRetired fresh host) v
serve_group-IsRetiredAt c now id slots (checking other) rows left v =
    mark_checked-IsRetiredAt now id other slots rows (lookup other rows) refl v
serve_group-IsRetiredAt c now id slots (retiring_group other) rows left v =
    update-IsRetiredAt now id other false slots true retire_change rows retire_change-KeepsRetired v
serve_group-IsRetiredAt c now id slots (forgetting other host) rows left v =
    update-IsRetiredAt now id other false slots false (forget_change host) rows
      (forget_change-KeepsRetired host) v
serve_group-IsRetiredAt c now id slots (deleting other) rows left (row, e, r) =
    (row, lookup-remove id other rows ∙ rw left e, r)

-- A group that retires and is not deleted stays so whatever calls the store serves, at whatever
-- times, whether they succeed or fail: it goes on retiring, and no host is in its slots that was not
-- there before, so that no new replica is provisioned for it.
pub serve_groups-IsRetiredAt :
    (c : Codec) (id : Text) (slots : List Slot) (calls : List (ℕ × GroupCall)) (rows : Rows)
    → All (λ (now, call). IsLeft id call) calls
    → IsRetiredAt id slots rows
    → IsRetiredAt id slots (serve_groups c calls rows)
unfolding serve_groups
serve_groups-IsRetiredAt c id slots [] rows left v = v
serve_groups-IsRetiredAt c id slots ((now, call) ∷ calls) rows (l, left) v =
    serve_groups-IsRetiredAt c id slots calls (serve_group c now call rows) left
      (serve_group-IsRetiredAt c now id slots call rows l v)
