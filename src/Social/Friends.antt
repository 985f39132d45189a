-- ===== src/Social/Friends.antt =====
-- sources/app/social/friendAdd.ts and friendRemove.ts. The result is the account and the status that
-- the code hands to `buildUserProfile`; the outer `none` stands for a thrown database error.
use happy_server.Common.{ℕ, String, Option, none, some, if◌then◌else◌, ◌==◌}
use happy_server.Social.{
  RelationshipStatus, unrelated, requested, pending, friend, rejected, Account, Tables,
  relationship_get, relationship_set,
}
use happy_server.Social.Notices.{
  send_friend_request_notification, send_friendship_established_notification,
}

abbrev pub Answer : Type 0
Answer = Option (Account × RelationshipStatus)

abbrev with_answer : Option Tables → Account → RelationshipStatus → Option (Tables × Answer)
with_answer none account status = none
with_answer (some db) account status = some (db, some (account, status))

-- Case 1: the target has asked; both become friends.
unfoldable pub accept : Tables → ℕ → String → String → Account → Option (Tables × Answer)
accept db now me them target =
    with_answer
      (send_friendship_established_notification
        (relationship_set (relationship_set db now them me friend none) now me them friend none) now
        me them)
      target friend

abbrev pub mark_pending : Tables → ℕ → String → String → RelationshipStatus → Tables
mark_pending db now them me unrelated = relationship_set db now them me pending none
mark_pending db now them me other = db

-- Case 2: a new request.
unfoldable pub ask :
    Tables → ℕ → String → String → Account → RelationshipStatus → Option (Tables × Answer)
ask db now me them target theirs =
    with_answer
      (send_friend_request_notification
        (mark_pending (relationship_set db now me them requested none) now them me theirs) now them
        me)
      target requested

-- The cases on the status of the target towards the user, and of the user towards the target.
unfoldable pub add_case :
    Tables
    → ℕ
    → String
    → String
    → Account
    → RelationshipStatus
    → RelationshipStatus
    → Option (Tables × Answer)
unfolding accept ask
add_case db now me them target mine requested = accept db now me them target
add_case db now me them target unrelated theirs = ask db now me them target theirs
add_case db now me them target rejected theirs = ask db now me them target theirs
add_case db now me them target mine theirs = some (db, some (target, mine))

-- Both accounts, or `none` where one is missing.
abbrev both_accounts : Option Account → Option Account → Option (Account × Account)
both_accounts none b = none
both_accounts (some a) none = none
both_accounts (some a) (some b) = some (a, b)

unfoldable pub friend_add : Tables → ℕ → String → String → Option (Tables × Answer)
unfolding add_case
friend_add db now me them =
    if me == them then some (db, none) else elim (both_accounts (db.account me) (db.account them)) [
      | none ↦ some (db, none)
      | some (current, target) ↦
          add_case db now me them target (relationship_get db me them) (relationship_get db them me)
    ]

abbrev clear_unless_rejected : Tables → ℕ → String → String → RelationshipStatus → Tables
clear_unless_rejected db now them me rejected = db
clear_unless_rejected db now them me other = relationship_set db now them me unrelated none

unfoldable pub remove_case :
    Tables
    → ℕ
    → String
    → String
    → Account
    → RelationshipStatus
    → RelationshipStatus
    → Tables × Answer
remove_case db now me them target requested theirs =
    (relationship_set db now me them rejected none, some (target, rejected))
remove_case db now me them target friend theirs = (
  relationship_set (relationship_set db now them me requested none) now me them pending none,
  some (target, requested),
)
remove_case db now me them target pending theirs = (
  clear_unless_rejected (relationship_set db now me them unrelated none) now them me theirs,
  some (target, unrelated),
)
remove_case db now me them target unrelated theirs = (db, some (target, unrelated))
remove_case db now me them target rejected theirs = (db, some (target, rejected))

unfoldable pub friend_remove : Tables → ℕ → String → String → Tables × Answer
unfolding remove_case
friend_remove db now me them = elim (both_accounts (db.account me) (db.account them)) [
  | none ↦ (db, none)
  | some (current, target) ↦
      remove_case db now me them target (relationship_get db me them) (relationship_get db them me)
]
