-- ===== src/Social/Notices.antt =====
-- sources/app/feed/feedPost.ts and sources/app/social/friendNotification.ts. `none` stands for a
-- thrown database error, after which the transaction rolls back.
use Prim.Native.String.{◌++◌}
use happy_server.Common.{
  ℕ, ◌+◌, ◌*◌, String, Bool, true, false, ◌&&◌, Option, none, some, List, [], ◌∷◌, ltb,
  if◌then◌else◌, sql_eq, truthy, update, ◌==◌,
}
use happy_server.Social.{
  RelationshipStatus, unrelated, requested, pending, friend, rejected, FeedBody, friend_request,
  friend_accepted, FeedItem, Tables, put_relationship,
}

-- `deleteMany` of the user's items under a key.
unfoldable pub without_key : String → String → List FeedItem → List FeedItem
without_key uid key [] = []
without_key uid key (item ∷ items) =
    let rest = without_key uid key items in
    if item.user_id == uid && sql_eq item.repeat_key key then rest else item ∷ rest

abbrev pub delete_repeated : String → Option String → List FeedItem → List FeedItem
delete_repeated uid none items = items
delete_repeated uid (some key) items = without_key uid key items

unfoldable pub feed_post : Tables → ℕ → String → FeedBody → Option String → Option Tables
unfolding without_key
feed_post db now uid body repeat_key = elim (db.account uid) [
  | none ↦ none
  | some a ↦
      let item : FeedItem = record {
        counter = a.feed_seq + 1;
        user_id = uid;
        repeat_key = repeat_key;
        body = body;
        created_at = now;
      } in
      some (record db {
        account = update db.account uid (some (record a { feed_seq = a.feed_seq + 1 }));
        feed = item ∷ delete_repeated uid (truthy repeat_key) db.feed;
        after_tx = item ∷ db.after_tx;
      })
]

abbrev pub twenty_four_hours : ℕ
twenty_four_hours = 24 * 60 * 60 * 1000

abbrev is_rejected : RelationshipStatus → Bool
is_rejected rejected = true
is_rejected unrelated = false
is_rejected requested = false
is_rejected pending = false
is_rejected friend = false

-- `lastNotifiedAt < now - 24h` is written without the subtraction.
abbrev cooled_down : ℕ → Option ℕ → Bool
cooled_down now none = true
cooled_down now (some at) = ltb (at + twenty_four_hours) now

unfoldable pub should_send_notification : ℕ → Option ℕ → RelationshipStatus → Bool
should_send_notification now last_notified_at status =
    if is_rejected status then false else cooled_down now last_notified_at

-- One notice: a check of the receiver's own relationship, the feed item, and the time of the notice.
unfoldable pub notify : Tables → ℕ → String → String → FeedBody → String → Option Tables
unfolding feed_post put_relationship should_send_notification
notify db now receiver other body repeat_key = elim (db.relationship receiver other) [
  | none ↦ some db
  | some r ↦
      if should_send_notification now r.last_notified_at r.status
      then elim (feed_post db now receiver body (some repeat_key)) [
        | none ↦ none
        | some db' ↦
            some (put_relationship db' receiver other (record r { last_notified_at = some now }))
      ]
      else some db
]

unfoldable pub send_friend_request_notification : Tables → ℕ → String → String → Option Tables
send_friend_request_notification db now receiver sender =
    notify db now receiver sender (friend_request sender) ("friend_request_" ++ sender)

unfoldable pub send_friendship_established_notification :
    Tables → ℕ → String → String → Option Tables
send_friendship_established_notification db now user1 user2 =
    elim (notify db now user1 user2 (friend_accepted user2) ("friend_accepted_" ++ user2)) [
      | none ↦ none
      | some db' ↦ notify db' now user2 user1 (friend_accepted user1) ("friend_accepted_" ++ user1)
    ]
