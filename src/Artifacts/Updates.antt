-- ===== src/Artifacts/Updates.antt =====
-- Concurrent updates of one artifact, over the socket and over the routes.
use happy_server.Common.{
  ℕ, ◌+◌, String, Bool, true, false, ◌&&◌, ◌||◌, Option, none, some, ◌==◌, eq_iff, eq_refl, nat_eq,
  arith, ◌≡◌, inl, inr, Option-cases,
}
use happy_server.EventRouter.Events.{Versioned}
use happy_server.KeyValue.{Base64}
use happy_server.Publishing.{Outbound}
use happy_server.Artifacts.{
  Artifact, ArtifactTable, PlannedUpdate, find_artifact, updated_artifact, put_artifact,
}
use happy_server.Artifacts.Socket.{Context, planned, plan_update, write_update}
use happy_server.Artifacts.Routes.{
  ArtifactUpdateBody, ready, saved, check_route_update, finish_route_update,
}

abbrev pub same_version : Option (Versioned String) → Option (Versioned String) → Bool
same_version (some p) (some q) = nat_eq p.version q.version
same_version _ _ = false

-- Both updates write the same part of an artifact at the same version.
abbrev pub collide : PlannedUpdate → PlannedUpdate → Bool
collide p q =
    p.artifact_id == q.artifact_id
    && (same_version p.header_part q.header_part || same_version p.body_part q.body_part)

-- Of two updates over the socket that expect the same version of a part only one is written,
-- whatever tables they were checked on: after one, the other finds no row and changes nothing.
pub one_update_wins :
    (base64 : Base64) (table : ArtifactTable) (p q : PlannedUpdate)
    → collide p q ≡ true
    → (write_update base64 table p).1 ≡ true
    → write_update base64 (write_update base64 table p).0 q
      ≡ ((write_update base64 table p).0, false)
unfolding write_update
one_update_wins base64 table p q both done = elim (Option-cases (table p.artifact_id)) [
  | inl absent ↦ ground arith
  | inr (a, there) ↦ ground (arith, eq_iff p.artifact_id q.artifact_id, eq_refl q.artifact_id)
]

abbrev pub part_at : String → ℕ → Option (Versioned String)
part_at content v = some (record { value = content; version = v })

-- Two updates over the socket, of the header and of the body, that were checked on the same row are
-- both written, and the row's counter has grown by one only.
pub two_parts_one_seq :
    (ctx ctx' : Context) (table : ArtifactTable) (id user : String) (a : Artifact) (h b : String)
    → find_artifact table id user ≡ some a
    → (p q : PlannedUpdate) × (a' : Artifact) × (plan_update ctx a user id
          (part_at h a.header_version)
          none
        ≡ planned p)
      × (plan_update ctx' a user id none (part_at b a.body_version) ≡ planned q)
      × ((write_update ctx.base64 table p).1 ≡ true)
      × (write_update ctx'.base64 (write_update ctx.base64 table p).0 q
          ≡ (put_artifact (write_update ctx.base64 table p).0 id a', true))
      × (a'.header ≡ ctx.base64.decode h)
      × (a'.body ≡ ctx'.base64.decode b)
      × (a'.header_version ≡ a.header_version + 1)
      × (a'.body_version ≡ a.body_version + 1)
      × (a'.seq ≡ a.seq + 1)
unfolding write_update plan_update
two_parts_one_seq ctx ctx' table id user a h b there =
    let p : PlannedUpdate = record {
      artifact_id = id;
      user_id = user;
      header_part = part_at h a.header_version;
      body_part = none;
      next_seq = a.seq + 1;
      now = ctx.now;
    } in
    let q : PlannedUpdate = record {
      artifact_id = id;
      user_id = user;
      header_part = none;
      body_part = part_at b a.body_version;
      next_seq = a.seq + 1;
      now = ctx'.now;
    } in
    (
      p,
      q,
      updated_artifact ctx'.base64 q (updated_artifact ctx.base64 p a),
      ground arith,
      ground arith,
      ground (arith, eq_refl user),
      ground (arith, eq_refl user, eq_refl id),
      ground arith,
      ground arith,
      ground arith,
      ground arith,
      ground arith,
    )

abbrev pub header_body : String → ℕ → ArtifactUpdateBody
header_body content v = record {
  header = some content;
  expected_header_version = some v;
  body = none;
  expected_body_version = none;
}

-- Two updates of the header over the route that were checked on the same row are both answered with
-- the next version, though the second overwrites what the first wrote: the first is lost.
pub route_update_lost :
    (ctx ctx' : Context) (table : ArtifactTable) (out : Outbound) (id user h h' : String)
    (a : Artifact) (n : ℕ)
    → find_artifact table id user ≡ some a
    → out.account_seq user ≡ some n
    → (p q : PlannedUpdate) × (table' table'' : ArtifactTable) × (out' out'' : Outbound)
      × (a'' : Artifact) × (check_route_update ctx table user id (header_body h a.header_version)
          ≡ ready p)
      × (check_route_update ctx' table user id (header_body h' a.header_version) ≡ ready q)
      × (finish_route_update ctx table out p
          ≡ (table', out', saved (some (a.header_version + 1)) none))
      × (finish_route_update ctx' table' out' q
          ≡ (table'', out'', saved (some (a.header_version + 1)) none))
      × (table'' id ≡ some a'')
      × (a''.header ≡ ctx'.base64.decode h')
      × (a''.header_version ≡ a.header_version + 1)
unfolding check_route_update finish_route_update
route_update_lost ctx ctx' table out id user h h' a n there counted =
    let planned_with : ℕ → String → PlannedUpdate = λ (now : ℕ) (content : String). record {
      artifact_id = id;
      user_id = user;
      header_part = part_at content a.header_version;
      body_part = none;
      next_seq = a.seq + 1;
      now = now;
    } in
    let p : PlannedUpdate = planned_with ctx.now h in
    let q : PlannedUpdate = planned_with ctx'.now h' in
    let first = finish_route_update ctx table out p in
    let second = finish_route_update ctx' first.0 first.1 q in
    (
      p,
      q,
      first.0,
      second.0,
      first.1,
      second.1,
      updated_artifact ctx'.base64 q (updated_artifact ctx.base64 p a),
      ground arith,
      ground arith,
      ground (arith, eq_refl user),
      ground (arith, eq_refl user, eq_refl id),
      ground (arith, eq_refl user, eq_refl id),
      ground arith,
      ground arith,
    )
