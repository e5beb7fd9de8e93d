-- ===== src/Tests/Documents.antt =====
-- A codec for the tests: a document is the record that was written, and its checksum its kind.
use native.Mathlib.Decide.{ℕ_discrete}
use little_actors.Prelude.{Bool, true, false, ◌≡◌, ◌↔◌, refl, Result, ok, err}
use little_actors.Prelude.Text.{Text, text}
use little_actors.Snapshot.{StateSnapshot}
use little_actors.Authority.{Session, Ownership}
use little_actors.Wire.{Codec}

pub data Document : Type 0 where
  snapshot : StateSnapshot → Document
  session : Session → Document
  ownership : Ownership → Document

unfoldable pub Document-discrete : Discrete Document
Document-discrete = hlevel ℕ_discrete

abbrev pub is_yes : {P : Type 0} → Dec P → Bool
is_yes (yes p) = true
is_yes (no p) = false

pub is_yes_iff : {P : Type 0} (d : Dec P) → (is_yes d ≡ true) ↔ P
is_yes_iff (yes p) = (λ h. p, λ h. refl)
is_yes_iff (no p) = (λ h. absurd (let q : false ≡ true = h in cc), λ h. absurd (p h))

abbrev pub document_beq : Document → Document → Bool
document_beq a b = is_yes (Document-discrete a b)

abbrev pub read_snapshot : Document → Result StateSnapshot
read_snapshot (snapshot s) = ok s
read_snapshot d = err "not a snapshot"

abbrev pub read_session : Document → Result Session
read_session (session s) = ok s
read_session d = err "not a session"

abbrev pub read_ownership : Document → Result Ownership
read_ownership (ownership o) = ok o
read_ownership d = err "not an ownership"

abbrev pub checksum : Document → Text
checksum (snapshot s) = s.request_id
checksum (session s) = s.id
checksum (ownership o) = o.mutation

abbrev pub documents : Codec
documents = record {
  Bytes = Document;
  bytes_eq = record { beq = document_beq; beq_correct = λ a b. is_yes_iff (Document-discrete a b) };
  len = λ d. 10;
  checksum = checksum;
  read_snapshot = read_snapshot;
  write_session = session;
  read_session = read_session;
  write_ownership = ownership;
  read_ownership = read_ownership;
  component = λ s. s;
  shard = λ s. text "00";
  read-write_session = λ s. refl;
  read-write_ownership = λ o. refl;
}
