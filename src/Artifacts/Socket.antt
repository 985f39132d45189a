-- ===== src/Artifacts/Socket.antt =====
-- sources/app/api/socket/artifactUpdateHandler.ts: the handlers of `artifact-read`,
-- `artifact-update`, `artifact-create` and `artifact-delete`. A field that has not the type that the
-- code asks for is `none`.
use happy_server.Common.{
  ℕ, ◌+◌, String, Bool, true, false, not, ◌&&◌, ◌||◌, Option, none, some, List, ◌==◌, if◌then◌else◌,
  update, is_null,
}
use happy_server.EventRouter.{user_scoped_only}
use happy_server.EventRouter.Events.{
  Versioned, build_new_artifact_update, build_update_artifact_update, build_delete_artifact_update,
}
use happy_server.KeyValue.{Base64}
use happy_server.Publishing.{Outbound, publish}
use happy_server.Artifacts.{
  Artifact, ArtifactTable, ArtifactView, PlannedUpdate, columns, view_of, find_artifact,
  part_mismatch, updated_artifact, put_artifact, new_artifact_row,
}

pub record UpdatePart : Type 0 where
  pub content : Option String
  pub expected_version : Option ℕ

pub record UpdateRequest : Type 0 where
  pub artifact_id : String
  pub header : Option UpdatePart
  pub body : Option UpdatePart

pub record CreateRequest : Type 0 where
  pub id : String
  pub header : Option String
  pub body : Option String
  pub data_encryption_key : Option String

-- The argument of the callback.
pub data SocketAnswer : Type 0 where
  failure : String → SocketAnswer
  shown : ArtifactView → SocketAnswer
  version_mismatch : Option (Versioned String) → Option (Versioned String) → SocketAnswer
  updated : Option (Versioned String) → Option (Versioned String) → SocketAnswer
  deleted : SocketAnswer

-- The clock, the random key of the update, and the codec.
pub record Context : Type 0 where
  pub now : ℕ
  pub update_id : String
  pub base64 : Base64

unfoldable pub artifact_read : Context → ArtifactTable → String → String → SocketAnswer
unfolding find_artifact
artifact_read ctx table user_id artifact_id =
    if artifact_id == ""
    then failure "Invalid parameters"
    else elim (find_artifact table artifact_id user_id) [
      | none ↦ failure "Artifact not found"
      | some a ↦ shown (view_of ctx.base64 artifact_id a)
    ]

-- A part that is given must have both fields; `none` is the refusal.
abbrev pub checked_fields : Option String → Option ℕ → Option (Option (Versioned String))
checked_fields none v = none
checked_fields (some t) none = none
checked_fields (some t) (some v) = some (some (record { value = t; version = v }))

abbrev pub checked_part : Option UpdatePart → Option (Option (Versioned String))
checked_part none = some none
checked_part (some p) = checked_fields p.content p.expected_version

-- The current content and version of the parts that `tell` selects.
abbrev pub current_part : Base64 → Bool → List ℕ → ℕ → Option (Versioned String)
current_part base64 tell bytes version =
    if tell then some (record { value = base64.encode bytes; version = version }) else none

pub data Checked : Type 0 where
  answered : SocketAnswer → Checked
  planned : PlannedUpdate → Checked

-- The version check on the row that was read, and `updateData`.
unfoldable pub plan_update :
    Context
    → Artifact
    → String
    → String
    → Option (Versioned String)
    → Option (Versioned String)
    → Checked
plan_update ctx a user_id artifact_id header body =
    if part_mismatch a.header_version header || part_mismatch a.body_version body
    then answered (
        version_mismatch
          (current_part ctx.base64 (part_mismatch a.header_version header) a.header
            a.header_version)
          (current_part ctx.base64 (part_mismatch a.body_version body) a.body a.body_version))
    else planned (record {
      artifact_id = artifact_id;
      user_id = user_id;
      header_part = header;
      body_part = body;
      next_seq = a.seq + 1;
      now = ctx.now;
    })

-- `artifact-update` up to its write.
unfoldable pub check_update : Context → ArtifactTable → String → UpdateRequest → Checked
unfolding find_artifact plan_update
check_update ctx table user_id r =
    if r.artifact_id == ""
    then answered (failure "Invalid parameters")
    else if is_null r.header && is_null r.body
    then answered (failure "No updates provided")
    else elim (checked_part r.header) [
      | none ↦ answered (failure "Invalid header parameters")
      | some header ↦ elim (checked_part r.body) [
        | none ↦ answered (failure "Invalid body parameters")
        | some body ↦ elim (find_artifact table r.artifact_id user_id) [
          | none ↦ answered (failure "Artifact not found")
          | some a ↦ plan_update ctx a user_id r.artifact_id header body
        ]
      ]
    ]

-- `updateMany` with the versions in its condition; the result is whether it updated the row.
unfoldable pub write_update : Base64 → ArtifactTable → PlannedUpdate → ArtifactTable × Bool
unfolding find_artifact updated_artifact put_artifact
write_update base64 table p = elim (find_artifact table p.artifact_id p.user_id) [
  | none ↦ (table, false)
  | some a ↦
      if part_mismatch a.header_version p.header_part || part_mismatch a.body_version p.body_part
      then (table, false)
      else (put_artifact table p.artifact_id (updated_artifact base64 p a), true)
]

-- The answer where the write found no row, from the row as it is read again.
unfoldable pub mismatch_answer : Base64 → ArtifactTable → PlannedUpdate → SocketAnswer
unfolding find_artifact
mismatch_answer base64 table p = elim (find_artifact table p.artifact_id p.user_id) [
  | none ↦ version_mismatch none none
  | some a ↦
      version_mismatch (current_part base64 (not (is_null p.header_part)) a.header a.header_version)
        (current_part base64 (not (is_null p.body_part)) a.body a.body_version)
]

-- The new version and content of a part.
abbrev pub written_part : Option (Versioned String) → Option (Versioned String)
written_part none = none
written_part (some p) = some (record { value = p.value; version = p.version + 1 })

-- The update that is emitted and the answer of a write that succeeded. Where the account has no
-- counter the handler has thrown, and the write stands.
unfoldable pub announce_update : Context → Outbound → PlannedUpdate → Outbound × SocketAnswer
unfolding publish
announce_update ctx out p =
    elim (publish out p.user_id
      (λ n.
        build_update_artifact_update ctx.now p.artifact_id n ctx.update_id
          (written_part p.header_part) (written_part p.body_part))
      user_scoped_only) [
        | none ↦ (out, failure "Internal error")
        | some out' ↦ (out', updated (written_part p.header_part) (written_part p.body_part))
      ]

-- The write and the rest of the handler; `later` is the table that is read again.
unfoldable pub finish_update :
    Context
    → ArtifactTable
    → ArtifactTable
    → Outbound
    → PlannedUpdate
    → ArtifactTable × Outbound × SocketAnswer
unfolding write_update mismatch_answer announce_update
finish_update ctx table later out p =
    let (table', done) = write_update ctx.base64 table p in
    if done
    then (let (out', answer) = announce_update ctx out p in (table', out', answer))
    else (table', out, mismatch_answer ctx.base64 later p)

-- `artifact-update` where nothing else happens meanwhile.
unfoldable pub artifact_update :
    Context
    → ArtifactTable
    → Outbound
    → String
    → UpdateRequest
    → ArtifactTable × Outbound × SocketAnswer
unfolding check_update finish_update
artifact_update ctx table out user_id r = elim (check_update ctx table user_id r) [
  | answered a ↦ (table, out, a)
  | planned p ↦ finish_update ctx table table out p
]

abbrev pub created_artifact :
    Context
    → ArtifactTable
    → Outbound
    → String
    → String
    → Artifact
    → ArtifactTable × Outbound × SocketAnswer
created_artifact ctx table out user_id id a =
    elim (publish out user_id
      (λ n. build_new_artifact_update ctx.base64.encode ctx.now (columns id a) n ctx.update_id)
      user_scoped_only) [
        | none ↦ (put_artifact table id a, out, failure "Internal error")
        | some out' ↦ (put_artifact table id a, out', shown (view_of ctx.base64 id a))
      ]

-- The existing row decides, or a new one is created.
unfoldable pub create_or_show :
    Context
    → ArtifactTable
    → Outbound
    → String
    → String
    → String
    → String
    → String
    → ArtifactTable × Outbound × SocketAnswer
unfolding put_artifact publish
create_or_show ctx table out user_id id header body key = elim (table id) [
  | some a ↦
      if a.account_id == user_id
      then (table, out, shown (view_of ctx.base64 id a))
      else (table, out, failure "Artifact with this ID already exists for another account")
  | none ↦
      created_artifact ctx table out user_id id
        (new_artifact_row ctx.base64 ctx.now user_id header body key)
]

unfoldable pub artifact_create :
    Context
    → ArtifactTable
    → Outbound
    → String
    → CreateRequest
    → ArtifactTable × Outbound × SocketAnswer
unfolding create_or_show
artifact_create ctx table out user_id r =
    if r.id == "" then (table, out, failure "Invalid parameters") else elim r.header [
      | none ↦ (table, out, failure "Invalid parameters")
      | some header ↦ elim r.body [
        | none ↦ (table, out, failure "Invalid parameters")
        | some body ↦ elim r.data_encryption_key [
          | none ↦ (table, out, failure "Invalid parameters")
          | some key ↦ create_or_show ctx table out user_id r.id header body key
        ]
      ]
    ]

-- `artifact-delete`: the row is deleted by its identifier alone, and a row that is gone by then makes
-- the call throw.
unfoldable pub delete_row :
    Context → ArtifactTable → Outbound → String → String → ArtifactTable × Outbound × SocketAnswer
unfolding publish
delete_row ctx table out user_id id = elim (table id) [
  | none ↦ (table, out, failure "Internal error")
  | some a ↦
      elim (publish out user_id (λ n. build_delete_artifact_update ctx.now id n ctx.update_id)
        user_scoped_only) [
          | none ↦ (update table id none, out, failure "Internal error")
          | some out' ↦ (update table id none, out', deleted)
        ]
]

unfoldable pub artifact_delete :
    Context → ArtifactTable → Outbound → String → String → ArtifactTable × Outbound × SocketAnswer
unfolding find_artifact delete_row
artifact_delete ctx table out user_id artifact_id =
    if artifact_id == ""
    then (table, out, failure "Invalid parameters")
    else elim (find_artifact table artifact_id user_id) [
      | none ↦ (table, out, failure "Artifact not found")
      | some a ↦ delete_row ctx table out user_id artifact_id
    ]
