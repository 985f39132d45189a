-- ===== src/Artifacts/Ownership.antt =====
-- What the handlers of a user do to the artifacts of other accounts.
use happy_server.Common.{String, false, some, ◌==◌, eq_iff, arith, ◌≡◌, inl, inr, Option-cases}
use happy_server.Publishing.{Outbound}
use happy_server.Artifacts.{Artifact, ArtifactTable, PlannedUpdate}
use happy_server.Artifacts.Socket.{
  Context, CreateRequest, failure, finish_update, create_or_show, artifact_create, artifact_delete,
  artifact_read,
}

module _ (ctx : Context) (table : ArtifactTable) (out : Outbound) (user id : String) (a : Artifact)
    (there : table id ≡ some a) (foreign : (a.account_id == user) ≡ false) where
  update-keeps :
      (later : ArtifactTable) (p : PlannedUpdate)
      → p.user_id ≡ user
      → (finish_update ctx table later out p).0 id ≡ some a
  unfolding finish_update
  update-keeps later p mine = elim (Option-cases (table p.artifact_id)) [
    | inl absent ↦ ground arith
    | inr (x, held) ↦ ground (arith, eq_iff p.artifact_id id)
  ]

  create-keeps : (r : CreateRequest) → (artifact_create ctx table out user r).0 id ≡ some a
  unfolding artifact_create
  create-keeps r = elim (Option-cases (table r.id)) [
    | inl absent ↦ ground (arith, eq_iff r.id id)
    | inr (x, held) ↦ ground arith
  ]

  delete-keeps : (k : String) → (artifact_delete ctx table out user k).0 id ≡ some a
  unfolding artifact_delete
  delete-keeps k = elim (Option-cases (table k)) [
    | inl absent ↦ ground arith
    | inr (x, held) ↦ ground (arith, eq_iff k id)
  ]

  -- The socket's events of a user leave an artifact of another account as it is: an update, whatever
  -- table it was checked on, a creation and a deletion, the last two where nothing happens between
  -- their check and their write; and neither a read nor a creation shows it.
  pub foreign_artifact_kept :
      (later : ArtifactTable) (p : PlannedUpdate) (r : CreateRequest) (k : String)
      → p.user_id ≡ user
      → (id == "") ≡ false
      → ((finish_update ctx table later out p).0 id ≡ some a)
        × ((artifact_create ctx table out user r).0 id ≡ some a)
        × ((artifact_delete ctx table out user k).0 id ≡ some a)
        × (artifact_read ctx table user id ≡ failure "Artifact not found")
        × ((h b key : String)
            → create_or_show ctx table out user id h b key
              ≡ (table, out, failure "Artifact with this ID already exists for another account"))
  unfolding artifact_read create_or_show
  foreign_artifact_kept later p r k mine named = (
    update-keeps later p mine,
    create-keeps r,
    delete-keeps k,
    ground (arith, there, foreign),
    λ h b key. ground (arith, there, foreign),
  )
