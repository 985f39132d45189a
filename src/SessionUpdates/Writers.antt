-- ===== src/SessionUpdates/Writers.antt =====
-- Two updates of one column of a session: at most one of those that expect a version writes.
use happy_server.Common.{
  ℕ, ◌+◌, String, true, false, Option, some, arith, ◌≡◌, refl, nat_eq, ◌==◌, Option-cases,
  Bool-cases, inl, inr,
}
use happy_server.RuntimeLease.{Session}
use happy_server.EventRouter.{ClientConnection, session_scoped, user_scoped, machine_scoped}
use happy_server.Publishing.{Outbound}
use happy_server.SessionUpdates.{runtime_write_authorization}
use happy_server.SessionUpdates.Writes.{
  SessionField, Moments, find_session, commit_write, lost_write, session_write, metadata_field,
  state_field, update_metadata, update_state,
}
use happy_server.SessionUpdates.Fence.{is_written}
use happy_server.SessionUpdates.Versions.{
  version_at, Bumps, Compares, metadata-Bumps, metadata-Compares, state-Bumps, state-Compares,
}

module _ {A : Type 0} (field : SessionField A) (quiet : is_written field.on_missing ≡ false)
    (bumps : Bumps field) (compares : Compares field) (out : Outbound) (user sid : String)
    (v : ℕ) where
  lost_unwritten :
      (m : Moments) (c : ClientConnection) (s : Session)
      → is_written (lost_write field m c user sid s).1 ≡ false
  unfolding lost_write
  lost_unwritten m (session_scoped c) s =
      elim (Option-cases (find_session m.when_read_again user sid)) [
        | inl missing ↦ ground arith
        | inr (current, found) ↦ ground arith
      ]
  lost_unwritten m (user_scoped c) s = refl
  lost_unwritten m (machine_scoped c) s = refl

  -- An answer that the column was written follows a write that found its row.
  written_after :
      (m : Moments) (c : ClientConnection) (content : A)
      → is_written (session_write field m out c user sid v content).3 ≡ true
      → version_at field (session_write field m out c user sid v content).0 sid ≡ some (v + 1)
  unfolding session_write commit_write
  written_after m c content said = elim (Option-cases (runtime_write_authorization c sid)) [
    | inl unauthorized ↦ ground arith
    | inr (a, authorized) ↦ elim (Option-cases (find_session m.when_read user sid)) [
      | inl missing ↦ ground arith
      | inr (s, found) ↦
          ground (arith, lost_unwritten m c s, bumps m.when_written m.now c user sid a v content)
    ]
  ]

  stale_unwritten :
      (m : Moments) (c : ClientConnection) (w : ℕ) (content : A)
      → version_at field m.when_written sid ≡ some w
      → nat_eq w v ≡ false
      → let (db', out', c', answer) = session_write field m out c user sid v content in
        (db' ≡ m.when_written) × (out' ≡ out) × (is_written answer ≡ false)
  unfolding session_write commit_write
  stale_unwritten m c w content stored other =
      elim (Option-cases (runtime_write_authorization c sid)) [
        | inl unauthorized ↦ (ground arith, ground arith, ground arith)
        | inr (a, authorized) ↦ elim (Option-cases (find_session m.when_read user sid)) [
          | inl missing ↦ (ground arith, ground arith, ground arith)
          | inr (s, found) ↦
              let refused = compares m.when_written m.now c user sid a v w content stored other in
              (
                ground (arith, refused),
                ground (arith, refused),
                ground (arith, refused, lost_unwritten m c s),
              )
        ]
      ]

module _ {A : Type 0} (field : SessionField A) (quiet : is_written field.on_missing ≡ false)
    (bumps : Bumps field) (compares : Compares field) (m m' : Moments) (out out' : Outbound)
    (c c' : ClientConnection) (user user' sid : String) (v : ℕ) where
  later_unwritten :
      (content content' : A)
      → is_written (session_write field m out c user sid v content).3 ≡ true
      → m'.when_written ≡ (session_write field m out c user sid v content).0
      → let (db', out'', c'', answer) = session_write field m' out' c' user' sid v content' in
        (db' ≡ m'.when_written) × (out'' ≡ out') × (is_written answer ≡ false)
  later_unwritten content content' said after =
      stale_unwritten field quiet bumps compares out' user' sid v m' c' (v + 1) content'
        (rw after (written_after field quiet bumps compares out user sid v m c content said))
        (ground arith)

module _ (m m' : Moments) (out out' : Outbound) (c c' : ClientConnection) (user user' sid : String)
    (v : ℕ) where
  -- Of two updates of a session's metadata, or of its agent state, that expect the same version, by
  -- any connections and whatever each had read before, at most one writes: if the first is answered
  -- as written and the second's write comes next, the second changes no table, emits nothing and is
  -- not answered as written.
  pub one_update_per_version :
      ((a b : String)
        → is_written (update_metadata m out c user sid (some a) (some v)).3 ≡ true
        → m'.when_written ≡ (update_metadata m out c user sid (some a) (some v)).0
        → let (db', out'', c'', answer) = update_metadata m' out' c' user' sid (some b) (some v) in
          (db' ≡ m'.when_written) × (out'' ≡ out') × (is_written answer ≡ false))
      × ((a b : Option String)
          → is_written (update_state m out c user sid (some a) (some v)).3 ≡ true
          → m'.when_written ≡ (update_state m out c user sid (some a) (some v)).0
          → let (db', out'', c'', answer) = update_state m' out' c' user' sid (some b) (some v) in
            (db' ≡ m'.when_written) × (out'' ≡ out') × (is_written answer ≡ false))
  unfolding update_metadata update_state
  one_update_per_version = elim (Bool-cases (sid == "")) [
    | inl nameless ↦ (
      λ a b said after. (ground arith, ground arith, ground arith),
      λ a b said after. (ground arith, ground arith, ground arith),
    )
    | inr named ↦ (
      λ a b said after. simp (named) (
          later_unwritten metadata_field refl metadata-Bumps metadata-Compares m m' out out' c c'
            user user' sid v a b (ground arith) (ground arith)),
      λ a b said after. simp (named) (
          later_unwritten state_field refl state-Bumps state-Compares m m' out out' c c' user user'
            sid v a b (ground arith) (ground arith)),
    )
  ]
