-- ===== src/Social/Consistency.antt =====
-- Which statuses two users can have towards one another, after any run of additions and removals.
use happy_server.Common.{
  ℕ, String, Bool, true, false, Option, none, some, arith, ◌≡◌, ◌==◌, eq_iff, Option-cases,
  Bool-cases, inl, inr, ◌⊎◌, List, [], ◌∷◌,
}
use happy_server.Social.{
  RelationshipStatus, unrelated, requested, pending, friend, rejected, Tables, Account,
  relationship_get,
}
use happy_server.Social.Friends.{Answer, friend_add, friend_remove}
use happy_server.Social.Transitions.{
  Sets, add_mine, add_theirs, remove_mine, remove_theirs, friend_add_refines, friend_remove_refines,
}

-- The pairs of statuses that two users may have.
unfoldable pub may_stand : RelationshipStatus → RelationshipStatus → Bool
may_stand unrelated unrelated = true
may_stand unrelated rejected = true
may_stand rejected unrelated = true
may_stand requested pending = true
may_stand pending requested = true
may_stand requested rejected = true
may_stand rejected requested = true
may_stand rejected pending = true
may_stand pending rejected = true
may_stand rejected rejected = true
may_stand friend friend = true
may_stand _ _ = false

pub record IsConsistent (db : Tables) : Type 0 where
  pub pairs : (a b : String) → may_stand (relationship_get db a b) (relationship_get db b a) ≡ true
  pub no_self : (a : String) → relationship_get db a a ≡ unrelated

may_stand_sym : (x y : RelationshipStatus) → may_stand x y ≡ true → may_stand y x ≡ true
unfolding may_stand
may_stand_sym x y h = ground arith

may_stand_add :
    (x y : RelationshipStatus)
    → may_stand x y ≡ true
    → may_stand (add_mine x y) (add_theirs x y) ≡ true
unfolding may_stand
may_stand_add x y h = ground arith

may_stand_remove :
    (x y : RelationshipStatus)
    → may_stand x y ≡ true
    → may_stand (remove_mine x) (remove_theirs x y) ≡ true
unfolding may_stand
may_stand_remove x y h = ground arith

Sets-IsConsistent :
    (db db' : Tables) (me them : String) (x y : RelationshipStatus)
    → (me == them) ≡ false
    → may_stand x y ≡ true
    → Sets db db' me them x y
    → IsConsistent db
    → IsConsistent db'
Sets-IsConsistent db db' me them x y apart fits sets h = record {
  pairs = λ a b. ground (
    arith,
    sets a b,
    sets b a,
    h.pairs a b,
    may_stand_sym x y fits,
    eq_iff me a,
    eq_iff them b,
    eq_iff them a,
    eq_iff me b,
    eq_iff me them,
  );
  no_self = λ a. ground (arith, sets a a, h.no_self a, eq_iff me a, eq_iff them a, eq_iff me them);
}

pub data FriendCall : Type 0 where
  adds removes : String → String → FriendCall

abbrev committed : Tables → Option (Tables × Answer) → Tables
committed db none = db
committed db (some (db', answer)) = db'

unfoldable pub friend_step : Tables → ℕ → FriendCall → Tables
friend_step db now (adds me them) = committed db (friend_add db now me them)
friend_step db now (removes me them) = (friend_remove db now me them).0

unfoldable pub friend_run : Tables → List (ℕ × FriendCall) → Tables
unfolding friend_step
friend_run db [] = db
friend_run db ((now, c) ∷ cs) = friend_run (friend_step db now c) cs

-- What a missing account does to either call.
unchanged_without_accounts :
    (db : Tables) (now : ℕ) (me them : String)
    → (db.account me ≡ none) ⊎ (db.account them ≡ none)
    → (friend_step db now (adds me them) ≡ db) × (friend_step db now (removes me them) ≡ db)
unfolding friend_step friend_add friend_remove
unchanged_without_accounts db now me them (inl gone) = (ground arith, ground arith)
unchanged_without_accounts db now me them (inr gone) = (ground arith, ground arith)

-- A call on oneself changes nothing either, where no one stands to oneself in any relation.
unchanged_on_self :
    (db : Tables) (now : ℕ) (me them : String)
    → (me == them) ≡ true
    → IsConsistent db
    → (friend_step db now (adds me them) ≡ db) × (friend_step db now (removes me them) ≡ db)
unfolding friend_step friend_add friend_remove
unchanged_on_self db now me them same h =
    (ground arith, ground (arith, eq_iff me them, h.no_self me))

both_calls :
    (db : Tables) (now : ℕ) (me them : String) (u v : Account)
    → (me == them) ≡ false
    → db.account me ≡ some u
    → db.account them ≡ some v
    → IsConsistent db
    → IsConsistent (friend_step db now (adds me them))
      × IsConsistent (friend_step db now (removes me them))
unfolding friend_step
both_calls db now me them u v apart there there' h =
    let (db', done, sets) = friend_add_refines db now me them u v apart there there' in
    let fits = h.pairs me them in
    (
      rw done (
          Sets-IsConsistent db db' me them _ _ apart
            (may_stand_add (relationship_get db me them) (relationship_get db them me) fits) sets
            h),
      Sets-IsConsistent db _ me them _ _ apart
          (may_stand_remove (relationship_get db me them) (relationship_get db them me) fits)
          (friend_remove_refines db now me them u v apart there there') h,
    )

calls-IsConsistent :
    (db : Tables) (now : ℕ) (me them : String)
    → IsConsistent db
    → IsConsistent (friend_step db now (adds me them))
      × IsConsistent (friend_step db now (removes me them))
calls-IsConsistent db now me them h = elim (Bool-cases (me == them)) [
  | inl same ↦ let (x, y) = unchanged_on_self db now me them same h in (rw x h, rw y h)
  | inr apart ↦ elim (Option-cases (db.account me)) [
    | inl gone ↦
        let (x, y) = unchanged_without_accounts db now me them (inl gone) in (rw x h, rw y h)
    | inr (u, there) ↦ elim (Option-cases (db.account them)) [
      | inl gone ↦
          let (x, y) = unchanged_without_accounts db now me them (inr gone) in (rw x h, rw y h)
      | inr (v, there') ↦ both_calls db now me them u v apart there there' h
    ]
  ]
]

step-IsConsistent :
    (db : Tables) (now : ℕ) (c : FriendCall) → IsConsistent db → IsConsistent (friend_step db now c)
step-IsConsistent db now (adds me them) h = (calls-IsConsistent db now me them h).0
step-IsConsistent db now (removes me them) h = (calls-IsConsistent db now me them h).1

-- From consistent tables, any run of additions and removals by any users leads to consistent tables:
-- two users are friends both ways or neither way, a request is answered by a pending or a rejected
-- mark (never by another request), a pending mark by a request or a rejection, and no one stands in
-- a relation to oneself.
pub friend_run-IsConsistent :
    (db : Tables) (cs : List (ℕ × FriendCall)) → IsConsistent db → IsConsistent (friend_run db cs)
unfolding friend_run
friend_run-IsConsistent db [] h = h
friend_run-IsConsistent db ((now, c) ∷ cs) h =
    friend_run-IsConsistent (friend_step db now c) cs (step-IsConsistent db now c h)
