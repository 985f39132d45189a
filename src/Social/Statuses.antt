-- ===== src/Social/Statuses.antt =====
-- How the writes of the friendship code show in the status of each directed relationship.
use Prim.Native.String.{◌++◌}
use happy_server.Common.{
  ℕ, String, ◌&&◌, Option, some, arith, ◌≡◌, refl, ◌==◌, eq_iff, if◌then◌else◌, Option-cases, inl,
  inr,
}
use happy_server.Social.{
  friend_accepted, RelationshipStatus, unrelated, requested, pending, friend, rejected, Tables,
  FeedBody, Account, relationship_get, relationship_set,
}
use happy_server.Social.Notices.{notify, send_friendship_established_notification}

pub get-set :
    (db : Tables) (now : ℕ) (from to : String) (x : RelationshipStatus) (n : Option ℕ)
    (a b : String)
    → relationship_get (relationship_set db now from to x n) a b
      ≡ (if from == a && to == b then x else relationship_get db a b)
unfolding relationship_get relationship_set
get-set db now from to friend n a b = ground (arith, eq_iff from a, eq_iff to b)
get-set db now from to unrelated n a b = ground (arith, eq_iff from a, eq_iff to b)
get-set db now from to requested n a b = ground (arith, eq_iff from a, eq_iff to b)
get-set db now from to pending n a b = ground (arith, eq_iff from a, eq_iff to b)
get-set db now from to rejected n a b = ground (arith, eq_iff from a, eq_iff to b)

pub account-set :
    (db : Tables) (now : ℕ) (from to : String) (x : RelationshipStatus) (n : Option ℕ)
    → (relationship_set db now from to x n).account ≡ db.account
unfolding relationship_set
account-set db now from to friend n = refl
account-set db now from to unrelated n = refl
account-set db now from to requested n = refl
account-set db now from to pending n = refl
account-set db now from to rejected n = refl

-- A notice changes no status.
pub get-notify :
    (db db' : Tables) (now : ℕ) (receiver other : String) (body : FeedBody) (key a b : String)
    → notify db now receiver other body key ≡ some db'
    → relationship_get db' a b ≡ relationship_get db a b
unfolding notify relationship_get
get-notify db db' now receiver other body key a b done =
    ground (arith, eq_iff receiver a, eq_iff other b)

-- A notice to an account that exists does not fail, and leaves every account in place.
pub notify_total :
    (db : Tables) (now : ℕ) (receiver other : String) (body : FeedBody) (key : String) (u : Account)
    → db.account receiver ≡ some u
    → (db' : Tables) × (notify db now receiver other body key ≡ some db')
unfolding notify
notify_total db now receiver other body key u there =
    elim (Option-cases (notify db now receiver other body key)) [
      | inl thrown ↦ ground arith
      | inr (db', done) ↦ (db', done)
    ]

pub account-notify :
    (db db' : Tables) (now : ℕ) (receiver other : String) (body : FeedBody) (key a : String)
    (u : Account)
    → notify db now receiver other body key ≡ some db'
    → db.account a ≡ some u
    → (u' : Account) × (db'.account a ≡ some u')
unfolding notify
account-notify db db' now receiver other body key a u done there =
    elim (Option-cases (db'.account a)) [
      | inl gone ↦ ground (arith, eq_iff receiver a)
      | inr (u', still) ↦ (u', still)
    ]

pub get-established :
    (db db' : Tables) (now : ℕ) (user1 user2 a b : String)
    → send_friendship_established_notification db now user1 user2 ≡ some db'
    → relationship_get db' a b ≡ relationship_get db a b
unfolding send_friendship_established_notification
get-established db db' now user1 user2 a b done =
    elim (Option-cases
      (notify db now user1 user2 (friend_accepted user2) ("friend_accepted_" ++ user2))) [
        | inl thrown ↦ ground arith
        | inr (mid, first) ↦ ground (
          arith,
          get-notify db mid now user1 user2 (friend_accepted user2) ("friend_accepted_" ++ user2) a
              b,
          get-notify mid db' now user2 user1 (friend_accepted user1) ("friend_accepted_" ++ user1) a
              b,
        )
      ]

-- Between accounts that exist the notices do not fail.
pub established_total :
    (db : Tables) (now : ℕ) (user1 user2 : String) (u v : Account)
    → db.account user1 ≡ some u
    → db.account user2 ≡ some v
    → (db' : Tables) × (send_friendship_established_notification db now user1 user2 ≡ some db')
unfolding send_friendship_established_notification
established_total db now user1 user2 u v there there' =
    let (mid, first) =
      notify_total db now user1 user2 (friend_accepted user2) ("friend_accepted_" ++ user2) u
        there in
    let (v', still) =
      account-notify db mid now user1 user2 (friend_accepted user2) ("friend_accepted_" ++ user2)
        user2 v first there' in
    let (db', second) =
      notify_total mid now user2 user1 (friend_accepted user1) ("friend_accepted_" ++ user1) v'
        still in
    (db', rw (first, send_friendship_established_notification) second)
