-- ===== src/Social/Cooldown.antt =====
-- When a friendship notice reaches the feed, and how often.
use happy_server.Common.{
  ℕ, ◌+◌, ◌≤◌, String, true, false, ◌&&◌, none, some, List, [], ◌∷◌, arith, ◌≡◌, refl, ◌==◌, eq_iff,
  eq_refl, if◌then◌else◌, sql_eq, ◌⊎◌, inl, inr, Option-cases, truthy,
}
use happy_server.Social.{
  rejected, Relationship, Account, Tables, FeedBody, FeedItem, put_relationship,
}
use happy_server.Social.Notices.{
  notify, feed_post, should_send_notification, twenty_four_hours, without_key, delete_repeated,
}

-- The item that a notice puts into the receiver's feed, whose account is `a`.
abbrev pub notice_item : Account → ℕ → String → FeedBody → String → FeedItem
notice_item a now receiver body key = record {
  counter = a.feed_seq + 1;
  user_id = receiver;
  repeat_key = some key;
  body = body;
  created_at = now;
}

-- The notice stands in the receiver's feed, and is to be emitted after the transaction.
notice_posted :
    (db db' : Tables) (now : ℕ) (receiver other : String) (body : FeedBody) (key : String)
    (r : Relationship)
    → db.relationship receiver other ≡ some r
    → should_send_notification now r.last_notified_at r.status ≡ true
    → notify db now receiver other body key ≡ some db'
    → (a : Account) × (rest : List FeedItem) × (db.account receiver ≡ some a)
      × (db'.feed ≡ notice_item a now receiver body key ∷ rest)
      × (db'.after_tx ≡ notice_item a now receiver body key ∷ db.after_tx)
unfolding notify feed_post put_relationship
notice_posted db db' now receiver other body key r there due done =
    elim (Option-cases (db.account receiver)) [
      | inl missing ↦ ground arith
      | inr (a, found) ↦ (
        a,
        delete_repeated receiver (truthy (some key)) db.feed,
        found,
        ground arith,
        ground arith,
      )
    ]

-- A notice that was due, and did not fail, puts an item with its body and its key on top of the
-- receiver's feed, numbered after the receiver's last one, and announces that item after the
-- transaction; within the next 24 hours no further notice to the receiver about the same user, of
-- either kind, changes anything.
pub notice_cools_down :
    (db db' : Tables) (now t : ℕ) (receiver other : String) (body body' : FeedBody)
    (key key' : String) (r : Relationship)
    → db.relationship receiver other ≡ some r
    → should_send_notification now r.last_notified_at r.status ≡ true
    → notify db now receiver other body key ≡ some db'
    → t ≤ now + twenty_four_hours
    → ((a : Account) × (rest : List FeedItem) × (db.account receiver ≡ some a)
        × (db'.feed ≡ notice_item a now receiver body key ∷ rest)
        × (db'.after_tx ≡ notice_item a now receiver body key ∷ db.after_tx))
      × (notify db' t receiver other body' key' ≡ some db')
unfolding notify
notice_cools_down db db' now t receiver other body body' key key' r there due done early = (
  notice_posted db db' now receiver other body key r there due done,
  ground (arith, eq_refl receiver, eq_refl other),
)

-- A receiver who rejected the other user, or has no relationship to them, gets no notice.
pub no_notice_to_rejecter :
    (db : Tables) (now : ℕ) (receiver other : String) (body : FeedBody) (key : String)
    (r : Relationship)
    → (db.relationship receiver other ≡ none)
      ⊎ ((db.relationship receiver other ≡ some r) × (r.status ≡ rejected))
    → notify db now receiver other body key ≡ some db
unfolding notify
no_notice_to_rejecter db now receiver other body key r (inl none_yet) = ground arith
no_notice_to_rejecter db now receiver other body key r (inr (there, refused)) = ground arith

-- How many items a user's feed holds under a key.
unfoldable pub count_key : String → String → List FeedItem → ℕ
count_key uid key [] = 0
count_key uid key (item ∷ items) =
    (if item.user_id == uid && sql_eq item.repeat_key key then 1 else 0) + count_key uid key items

count_key-without_key :
    (uid key : String) (items : List FeedItem) → count_key uid key (without_key uid key items) ≡ 0
unfolding count_key without_key
count_key-without_key uid key [] = refl
count_key-without_key uid key (item ∷ items) = ground (arith, count_key-without_key uid key items)

count_key-without_other :
    (uid key uid' key' : String) (items : List FeedItem)
    → (uid == uid' && key == key') ≡ false
    → count_key uid' key' (without_key uid key items) ≡ count_key uid' key' items
unfolding count_key without_key
count_key-without_other uid key uid' key' [] other = refl
count_key-without_other uid key uid' key' (item ∷ items) other =
    elim (Option-cases item.repeat_key) [
      | inl none_there ↦ ground (arith, count_key-without_other uid key uid' key' items other)
      | inr (k, there) ↦ ground (
        arith,
        eq_iff item.user_id uid,
        eq_iff item.user_id uid',
        eq_iff uid uid',
        eq_iff k key,
        eq_iff k key',
        eq_iff key key',
        count_key-without_other uid key uid' key' items other,
      )
    ]

-- A post under a key (not the empty text) replaces the user's posts under that key: exactly one is
-- left, and every other user's and key's count is as before.
pub post_replaces :
    (db db' : Tables) (now : ℕ) (uid key uid' key' : String) (body : FeedBody)
    → (key == "") ≡ false
    → feed_post db now uid body (some key) ≡ some db'
    → (uid == uid' && key == key') ≡ false
    → (count_key uid key db'.feed ≡ 1)
      × (count_key uid' key' db'.feed ≡ count_key uid' key' db.feed)
unfolding feed_post count_key
post_replaces db db' now uid key uid' key' body named done other = (
  ground (arith, eq_refl uid, eq_refl key, count_key-without_key uid key db.feed),
  ground (
    arith,
    eq_iff uid uid',
    eq_iff key key',
    count_key-without_other uid key uid' key' db.feed other,
  ),
)
