-- ===== src/Artifacts/Routes.antt =====
-- sources/app/api/routes/artifactsRoutes.ts: the routes on one artifact. The schema of a request has
-- been checked: an optional field that is absent is `none`.
use happy_server.Common.{ℕ, ◌+◌, String, ◌||◌, Option, none, some, ◌==◌, if◌then◌else◌, update}
use happy_server.EventRouter.{user_scoped_only}
use happy_server.EventRouter.Events.{
  Versioned, build_new_artifact_update, build_update_artifact_update, build_delete_artifact_update,
}
use happy_server.KeyValue.{Base64}
use happy_server.Publishing.{Outbound, publish}
use happy_server.Artifacts.{
  Artifact, ArtifactTable, ArtifactView, PlannedUpdate, columns, view_of, find_artifact,
  part_mismatch, updated_artifact, put_artifact, new_artifact_row,
}
use happy_server.Artifacts.Socket.{Context, current_part, written_part}

-- `{ …, dataEncryptionKey }`.
pub record KeyedView : Type 0 where
  pub view : ArtifactView
  pub data_encryption_key : String

abbrev pub keyed_view : Base64 → String → Artifact → KeyedView
keyed_view base64 id a = record {
  view = view_of base64 id a;
  data_encryption_key = base64.encode a.data_encryption_key;
}

pub record ArtifactUpdateBody : Type 0 where
  pub header : Option String
  pub expected_header_version : Option ℕ
  pub body : Option String
  pub expected_body_version : Option ℕ

-- The reply: its code where it is an error, or the object that is sent.
pub data Reply : Type 0 where
  error : ℕ → String → Reply
  sent : KeyedView → Reply
  mismatched : Option (Versioned String) → Option (Versioned String) → Reply
  saved : Option ℕ → Option ℕ → Reply
  removed : Reply

unfoldable pub get_artifact : Context → ArtifactTable → String → String → Reply
unfolding find_artifact
get_artifact ctx table user_id id = elim (find_artifact table id user_id) [
  | none ↦ error 404 "Artifact not found"
  | some a ↦ sent (keyed_view ctx.base64 id a)
]

unfoldable pub post_artifact :
    Context
    → ArtifactTable
    → Outbound
    → String
    → String
    → String
    → String
    → String
    → ArtifactTable × Outbound × Reply
unfolding put_artifact publish
post_artifact ctx table out user_id id header body key = elim (table id) [
  | some a ↦
      if a.account_id == user_id
      then (table, out, sent (keyed_view ctx.base64 id a))
      else (table, out, error 409 "Artifact with this ID already exists for another account")
  | none ↦
      let a = new_artifact_row ctx.base64 ctx.now user_id header body key in
      elim (publish out user_id
        (λ n. build_new_artifact_update ctx.base64.encode ctx.now (columns id a) n ctx.update_id)
        user_scoped_only) [
          | none ↦ (put_artifact table id a, out, error 500 "Failed to create artifact")
          | some out' ↦ (put_artifact table id a, out', sent (keyed_view ctx.base64 id a))
        ]
]

-- A part counts where both its content and its expected version are given.
abbrev pub given_part : Option String → Option ℕ → Option (Versioned String)
given_part none v = none
given_part (some t) none = none
given_part (some t) (some v) = some (record { value = t; version = v })

pub data RouteChecked : Type 0 where
  replied : Reply → RouteChecked
  ready : PlannedUpdate → RouteChecked

unfoldable pub plan_route_update :
    Context
    → Artifact
    → String
    → String
    → Option (Versioned String)
    → Option (Versioned String)
    → RouteChecked
plan_route_update ctx a user_id id header body =
    if part_mismatch a.header_version header || part_mismatch a.body_version body
    then replied (
        mismatched
          (current_part ctx.base64 (part_mismatch a.header_version header) a.header
            a.header_version)
          (current_part ctx.base64 (part_mismatch a.body_version body) a.body a.body_version))
    else ready (record {
      artifact_id = id;
      user_id = user_id;
      header_part = header;
      body_part = body;
      next_seq = a.seq + 1;
      now = ctx.now;
    })

-- `POST /v1/artifacts/:id` up to its write.
unfoldable pub check_route_update :
    Context → ArtifactTable → String → String → ArtifactUpdateBody → RouteChecked
unfolding find_artifact plan_route_update
check_route_update ctx table user_id id b = elim (find_artifact table id user_id) [
  | none ↦ replied (error 404 "Artifact not found")
  | some a ↦
      plan_route_update ctx a user_id id (given_part b.header b.expected_header_version)
        (given_part b.body b.expected_body_version)
]

abbrev pub part_version : Option (Versioned String) → Option ℕ
part_version none = none
part_version (some p) = some p.version

-- `artifact.update({ where: { id } })`, which throws where the row is gone, and the rest.
unfoldable pub finish_route_update :
    Context → ArtifactTable → Outbound → PlannedUpdate → ArtifactTable × Outbound × Reply
unfolding updated_artifact put_artifact publish
finish_route_update ctx table out p = elim (table p.artifact_id) [
  | none ↦ (table, out, error 500 "Failed to update artifact")
  | some a ↦
      let table' = put_artifact table p.artifact_id (updated_artifact ctx.base64 p a) in
      elim (publish out p.user_id
        (λ n.
          build_update_artifact_update ctx.now p.artifact_id n ctx.update_id
            (written_part p.header_part) (written_part p.body_part))
        user_scoped_only) [
          | none ↦ (table', out, error 500 "Failed to update artifact")
          | some out' ↦ (
            table',
            out',
            saved (part_version (written_part p.header_part))
                (part_version (written_part p.body_part)),
          )
        ]
]

unfoldable pub delete_artifact_row :
    Context → ArtifactTable → Outbound → String → String → ArtifactTable × Outbound × Reply
unfolding publish
delete_artifact_row ctx table out user_id id = elim (table id) [
  | none ↦ (table, out, error 500 "Failed to delete artifact")
  | some a ↦
      elim (publish out user_id (λ n. build_delete_artifact_update ctx.now id n ctx.update_id)
        user_scoped_only) [
          | none ↦ (update table id none, out, error 500 "Failed to delete artifact")
          | some out' ↦ (update table id none, out', removed)
        ]
]

unfoldable pub delete_artifact_route :
    Context → ArtifactTable → Outbound → String → String → ArtifactTable × Outbound × Reply
unfolding find_artifact delete_artifact_row
delete_artifact_route ctx table out user_id id = elim (find_artifact table id user_id) [
  | none ↦ (table, out, error 404 "Artifact not found")
  | some a ↦ delete_artifact_row ctx table out user_id id
]
