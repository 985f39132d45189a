-- ===== src/Social.antt =====
-- sources/app/social/relationshipGet.ts, relationshipSet.ts and sources/app/feed/types.ts: the tables
-- that friendships and their notices touch, and the reads and writes of one directed relationship.
pub mod Profile
pub mod Notices
pub mod Friends
pub mod Statuses
pub mod Transitions
pub mod Consistency
pub mod Cooldown
mod Examples
use happy_server.Common.{ℕ, String, Option, none, some, List, update, Bool, true, false}

pub data RelationshipStatus : Type 0 where
  unrelated requested pending friend rejected : RelationshipStatus

pub record Relationship : Type 0 where
  pub status : RelationshipStatus
  pub accepted_at : Option ℕ
  pub last_notified_at : Option ℕ

pub record ImageRef : Type 0 where
  pub path : String
  pub width : Option ℕ
  pub height : Option ℕ
  pub thumbhash : Option String

pub record GithubProfile : Type 0 where
  pub login : String
  pub bio : Option String

-- The columns of `Account` that these files read or write.
pub record Account : Type 0 where
  pub id : String
  pub first_name : Option String
  pub last_name : Option String
  pub username : Option String
  pub avatar : Option ImageRef
  pub github_user : Option GithubProfile
  pub feed_seq : ℕ

pub data FeedBody : Type 0 where
  friend_request friend_accepted text_post : String → FeedBody

pub record FeedItem : Type 0 where
  pub counter : ℕ
  pub user_id : String
  pub repeat_key : Option String
  pub body : FeedBody
  pub created_at : ℕ

-- `after_tx` holds the items whose update is emitted once the transaction has committed.
pub record Tables : Type 0 where
  pub account : String → Option Account
  pub relationship : String → String → Option Relationship
  pub feed : List FeedItem
  pub after_tx : List FeedItem

unfoldable pub put_relationship : Tables → String → String → Relationship → Tables
put_relationship db from to r = record db {
  relationship = update db.relationship from (update (db.relationship from) to (some r));
}

abbrev status_column : Option Relationship → RelationshipStatus
status_column none = unrelated
status_column (some r) = r.status

unfoldable pub relationship_get : Tables → String → String → RelationshipStatus
relationship_get db from to = status_column (db.relationship from to)

abbrev pub or_else : Option ℕ → Option ℕ → Option ℕ
or_else none b = b
or_else (some a) b = some a

-- The `lastNotifiedAt` of an existing row; `undefined` in the update keeps the column.
abbrev kept_notified_at : Option Relationship → Option ℕ
kept_notified_at none = none
kept_notified_at (some r) = r.last_notified_at

unfoldable pub relationship_set :
    Tables → ℕ → String → String → RelationshipStatus → Option ℕ → Tables
unfolding put_relationship
relationship_set db now from to friend notified = put_relationship db from to (record {
  status = friend;
  accepted_at = some now;
  last_notified_at = or_else notified (kept_notified_at (db.relationship from to));
})
relationship_set db now from to status notified = put_relationship db from to (record {
  status = status;
  accepted_at = none;
  last_notified_at = or_else notified (kept_notified_at (db.relationship from to));
})
