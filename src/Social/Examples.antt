-- ===== src/Social/Examples.antt =====
-- The theorems on friendships at the users "a" and "b", and tests.
use happy_server.Common.{String, Option, none, some, [], ◌∷◌, arith, ◌≡◌, refl, update}
use happy_server.Social.{
  requested, pending, unrelated, friend, Relationship, Account, Tables, relationship_get,
  relationship_set, friend_request,
}
use happy_server.Social.Notices.{
  send_friend_request_notification, send_friendship_established_notification, notify,
}
use happy_server.Social.Friends.{friend_add, friend_remove}
use happy_server.Social.Transitions.{
  friend_add_refines, friend_remove_refines, friend_remove_answer,
}
use happy_server.Social.Consistency.{
  IsConsistent, may_stand, adds, friend_run, friend_run-IsConsistent,
}
use happy_server.Social.Cooldown.{notice_cools_down}

abbrev account_of : String → Account
account_of id = record {
  id = id;
  first_name = none;
  last_name = none;
  username = none;
  avatar = none;
  github_user = none;
  feed_seq = 0;
}

abbrev two_accounts : String → Option Account
two_accounts = update (update (λ k. none) "a" (some (account_of "a"))) "b" (some (account_of "b"))

abbrev strangers : Tables
strangers = record { account = two_accounts; relationship = λ a b. none; feed = []; after_tx = [] }

abbrev befriended : Tables
befriended = friend_run strangers ((1, adds "a" "b") ∷ (2, adds "b" "a") ∷ [])

strangers-IsConsistent : IsConsistent strangers
unfolding may_stand relationship_get
strangers-IsConsistent = record { pairs = λ a b. refl; no_self = λ a. refl }

friendship_test :
    (relationship_get befriended "a" "b" ≡ friend) × (relationship_get befriended "b" "a" ≡ friend)
unfolding friend_run friend_add relationship_get relationship_set notify
    send_friend_request_notification send_friendship_established_notification
friendship_test = (refl, refl)

friend_run-IsConsistent_example : IsConsistent befriended
friend_run-IsConsistent_example =
    friend_run-IsConsistent strangers ((1, adds "a" "b") ∷ (2, adds "b" "a") ∷ [])
      strangers-IsConsistent

friend_add_refines_example :
    friend_add strangers 1 "a" "b"
    ≡ some (
      (friend_add_refines strangers 1 "a" "b" (account_of "a") (account_of "b") refl refl refl).0,
      some (account_of "b", requested),
    )
unfolding relationship_get
friend_add_refines_example =
    (friend_add_refines strangers 1 "a" "b" (account_of "a") (account_of "b") refl refl refl).1

friend_remove_refines_example :
    relationship_get (friend_remove strangers 1 "a" "b").0 "a" "b" ≡ unrelated
unfolding relationship_get
friend_remove_refines_example =
    friend_remove_refines strangers 1 "a" "b" (account_of "a") (account_of "b") refl refl refl "a"
      "b"

friend_remove_answer_example :
    relationship_get (friend_remove strangers 1 "a" "b").0 "a" "b" ≡ unrelated
unfolding relationship_get
friend_remove_answer_example =
    (friend_remove_answer strangers 1 "a" "b" (account_of "a") (account_of "b") refl refl refl).0

abbrev asked_row : Relationship
asked_row = record { status = pending; accepted_at = none; last_notified_at = none }

abbrev asked_tables : Tables
asked_tables = record strangers {
  relationship = update (λ a b. none) "b" (update (λ k. none) "a" (some asked_row));
}

abbrev noticed : Tables
noticed = record {
  account = update two_accounts "b" (some (record (account_of "b") { feed_seq = 1 }));
  relationship = update asked_tables.relationship "b" (
      update (asked_tables.relationship "b") "a"
        (some (record asked_row { last_notified_at = some 5 })));
  feed =
      record {
        counter = 1;
        user_id = "b";
        repeat_key = some "k";
        body = friend_request "a";
        created_at = 5;
      }
      ∷ [];
  after_tx =
      record {
        counter = 1;
        user_id = "b";
        repeat_key = some "k";
        body = friend_request "a";
        created_at = 5;
      }
      ∷ [];
}

notice_cools_down_example : notify noticed 6 "b" "a" (friend_request "a") "k" ≡ some noticed
unfolding notify
notice_cools_down_example =
    (notice_cools_down asked_tables noticed 5 6 "b" "a" (friend_request "a") (friend_request "a")
      "k" "k" asked_row refl refl refl (omega arith)).1

abbrev posted : Tables
posted = record noticed { relationship = asked_tables.relationship }
