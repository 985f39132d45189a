-- ===== src/Artifacts.antt =====
-- sources/app/api/socket/artifactUpdateHandler.ts: the four events on artifacts. A handler waits for
-- the database between its calls, so an update is a reading part, a write and a re-reading part, each
-- on the table as it then is. A version is a natural number: any other number matches no row.
pub mod Socket
pub mod Routes
pub mod Updates
pub mod Ownership
mod Examples
use happy_server.Common.{
  ℕ, ◌+◌, String, Bool, true, false, not, ◌&&◌, ◌||◌, Option, none, some, List, ◌==◌, nat_eq,
  if◌then◌else◌, update, is_null,
}
use happy_server.EventRouter.Events.{Versioned, ArtifactColumns}
use happy_server.KeyValue.{Base64}

-- The model `Artifact`.
pub record Artifact : Type 0 where
  pub account_id : String
  pub header : List ℕ
  pub header_version : ℕ
  pub body : List ℕ
  pub body_version : ℕ
  pub data_encryption_key : List ℕ
  pub seq : ℕ
  pub created_at : ℕ
  pub updated_at : ℕ

-- The rows by their identifier.
abbrev pub ArtifactTable : Type 0
ArtifactTable = String → Option Artifact

abbrev pub columns : String → Artifact → ArtifactColumns
columns id a = record {
  id = id;
  seq = a.seq;
  header = a.header;
  header_version = a.header_version;
  body = a.body;
  body_version = a.body_version;
  data_encryption_key = a.data_encryption_key;
  created_at = a.created_at;
  updated_at = a.updated_at;
}

-- `findFirst({ where: { id, accountId } })`.
unfoldable pub find_artifact : ArtifactTable → String → String → Option Artifact
find_artifact table id user_id = elim (table id) [
  | none ↦ none
  | some a ↦ if a.account_id == user_id then some a else none
]

-- What an answer shows of an artifact.
pub record ArtifactView : Type 0 where
  pub id : String
  pub header : String
  pub header_version : ℕ
  pub body : String
  pub body_version : ℕ
  pub seq : ℕ
  pub created_at : ℕ
  pub updated_at : ℕ

abbrev pub view_of : Base64 → String → Artifact → ArtifactView
view_of base64 id a = record {
  id = id;
  header = base64.encode a.header;
  header_version = a.header_version;
  body = base64.encode a.body;
  body_version = a.body_version;
  seq = a.seq;
  created_at = a.created_at;
  updated_at = a.updated_at;
}

-- What the write of an update carries. A part's `version` is the expected one.
pub record PlannedUpdate : Type 0 where
  pub artifact_id : String
  pub user_id : String
  pub header_part : Option (Versioned String)
  pub body_part : Option (Versioned String)
  pub next_seq : ℕ
  pub now : ℕ

-- `part && current !== part.expectedVersion`.
abbrev pub part_mismatch : ℕ → Option (Versioned String) → Bool
part_mismatch current none = false
part_mismatch current (some p) = not (nat_eq current p.version)

abbrev pub next_version : ℕ → Option (Versioned String) → ℕ
next_version current none = current
next_version current (some p) = p.version + 1

abbrev pub next_bytes : Base64 → List ℕ → Option (Versioned String) → List ℕ
next_bytes base64 current none = current
next_bytes base64 current (some p) = base64.decode p.value

-- `updateData` on a row.
unfoldable pub updated_artifact : Base64 → PlannedUpdate → Artifact → Artifact
updated_artifact base64 p a = record a {
  header = next_bytes base64 a.header p.header_part;
  header_version = next_version a.header_version p.header_part;
  body = next_bytes base64 a.body p.body_part;
  body_version = next_version a.body_version p.body_part;
  seq = p.next_seq;
  updated_at = p.now;
}

unfoldable pub put_artifact : ArtifactTable → String → Artifact → ArtifactTable
put_artifact table id a = update table id (some a)

-- `findUnique` and then `create` of an artifact that is new.
abbrev pub new_artifact_row : Base64 → ℕ → String → String → String → String → Artifact
new_artifact_row base64 now user_id header body data_encryption_key = record {
  account_id = user_id;
  header = base64.decode header;
  header_version = 1;
  body = base64.decode body;
  body_version = 1;
  data_encryption_key = base64.decode data_encryption_key;
  seq = 0;
  created_at = now;
  updated_at = now;
}
