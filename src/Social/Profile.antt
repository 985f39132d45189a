-- ===== src/Social/Profile.antt =====
-- sources/app/social/type.ts: `buildUserProfile`. The address of a file is the object store's to
-- give, so `getPublicUrl` is a parameter.
use happy_server.Common.{ℕ, String, Option, none, some, ◌==◌, if◌then◌else◌, truthy}
use happy_server.Social.{RelationshipStatus, ImageRef, GithubProfile, Account}

pub record Avatar : Type 0 where
  pub path : String
  pub url : String
  pub width : Option ℕ
  pub height : Option ℕ
  pub thumbhash : Option String

pub record UserProfile : Type 0 where
  pub id : String
  pub first_name : String
  pub last_name : Option String
  pub avatar : Option Avatar
  pub username : String
  pub bio : Option String
  pub status : RelationshipStatus

-- `x || y` on a nullable text.
abbrev or_text : Option String → String → String
or_text none s = s
or_text (some t) s = if t == "" then s else t

abbrev login_of : Option GithubProfile → String
login_of none = ""
login_of (some p) = p.login

abbrev bio_of : Option GithubProfile → Option String
bio_of none = none
bio_of (some p) = truthy p.bio

avatar_of : (String → String) → Option ImageRef → Option Avatar
avatar_of get_public_url none = none
avatar_of get_public_url (some a) = some (record {
  path = a.path;
  url = get_public_url a.path;
  width = a.width;
  height = a.height;
  thumbhash = a.thumbhash;
})

unfoldable pub build_user_profile : (String → String) → Account → RelationshipStatus → UserProfile
unfolding avatar_of
build_user_profile get_public_url account status = record {
  id = account.id;
  first_name = or_text account.first_name "";
  last_name = account.last_name;
  avatar = avatar_of get_public_url account.avatar;
  username = or_text account.username (login_of account.github_user);
  bio = bio_of account.github_user;
  status = status;
}
