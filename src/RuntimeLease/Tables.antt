-- ===== src/RuntimeLease/Tables.antt =====
-- What the row writes of the runtime-connection tables do to each row, for every statement.
use happy_server.Common.{
  String, Bool, true, ◌&&◌, some, arith, ◌≡◌, ◌==◌, eq_iff, if◌then◌else◌, Option-cases, inl, inr,
}
use happy_server.RuntimeLease.{
  Session, Db, Retirement, put_session, put_retirement, update_where, is_retired,
}

-- Every session row passes the test `p`.
abbrev pub AllRows : (String → Session → Bool) → Db → Type 0
AllRows p db = (k : String) (s : Session) → db.session k ≡ some s → p k s ≡ true

pub put_session-AllRows :
    (p : String → Session → Bool) (db : Db) (k : String) (s : Session)
    → p k s ≡ true
    → AllRows p db
    → AllRows p (put_session db k s)
unfolding put_session
put_session-AllRows p db k s new old j t e = ground (arith, eq_iff k j, old j t)

pub retirement-update_where :
    (db : Db) (k a : String) (test : Session → Bool) (assign : Session → Session)
    → (update_where db k a test assign).0.retirement ≡ db.retirement
unfolding update_where put_session
retirement-update_where db k a test assign = ground arith

-- An update keeps a property of all rows, if it keeps it of a row that passes its test.
pub update_where-AllRows :
    (p : String → Session → Bool) (db : Db) (k a : String) (test : Session → Bool)
    (assign : Session → Session)
    → ((s : Session) → test s ≡ true → p k s ≡ true → p k (assign s) ≡ true)
    → AllRows p db
    → AllRows p (update_where db k a test assign).0
unfolding update_where put_session
update_where-AllRows p db k a test assign keep all j t e = elim (Option-cases (db.session k)) [
  | inl missing ↦ ground (arith, all j t)
  | inr (s, found) ↦ ground (arith, eq_iff k j, all j t, all k s, keep s)
]

-- A retirement that is written is found at its own key only.
pub is_retired-put_retirement :
    (db : Db) (k i : String) (r : Retirement) (k' i' : String)
    → is_retired (put_retirement db k i r) k' i'
      ≡ (if k == k' && i == i' then true else is_retired db k' i')
unfolding is_retired put_retirement
is_retired-put_retirement db k i r k' i' = ground (arith, eq_iff k k', eq_iff i i')
