-- ===== src/Social/Transitions.antt =====
-- The friendship code against its abstract transitions on the pair of statuses of two users.
use Prim.Native.String.{◌++◌}
use happy_server.Common.{
  ℕ, String, Bool, true, false, ◌&&◌, eq_refl, none, some, arith, ◌≡◌, refl, ◌∙◌, ◌==◌, eq_iff,
  if◌then◌else◌,
}
use happy_server.Social.{
  friend_request, RelationshipStatus, unrelated, requested, pending, friend, rejected, Tables,
  Account, relationship_get, relationship_set,
}
use happy_server.Social.Notices.{send_friend_request_notification}
use happy_server.Social.Friends.{
  friend_add, friend_remove, add_case, remove_case, accept, ask, mark_pending,
}
use happy_server.Social.Statuses.{
  get-set, account-set, get-notify, notify_total, get-established, established_total,
}

-- The statuses of the user towards the target and back, before and after.
abbrev pub add_mine : RelationshipStatus → RelationshipStatus → RelationshipStatus
add_mine mine requested = friend
add_mine unrelated theirs = requested
add_mine rejected theirs = requested
add_mine mine theirs = mine

abbrev pub add_theirs : RelationshipStatus → RelationshipStatus → RelationshipStatus
add_theirs mine requested = friend
add_theirs unrelated unrelated = pending
add_theirs rejected unrelated = pending
add_theirs mine theirs = theirs

abbrev asked_theirs : RelationshipStatus → RelationshipStatus
asked_theirs unrelated = pending
asked_theirs requested = requested
asked_theirs pending = pending
asked_theirs friend = friend
asked_theirs rejected = rejected

abbrev pub remove_mine : RelationshipStatus → RelationshipStatus
remove_mine requested = rejected
remove_mine friend = pending
remove_mine pending = unrelated
remove_mine unrelated = unrelated
remove_mine rejected = rejected

abbrev pub remove_theirs : RelationshipStatus → RelationshipStatus → RelationshipStatus
remove_theirs friend theirs = requested
remove_theirs pending rejected = rejected
remove_theirs pending theirs = unrelated
remove_theirs mine theirs = theirs

-- `db'` differs from `db` in the statuses between two users at most, which are `x` and `y`.
abbrev pub Sets :
    Tables → Tables → String → String → RelationshipStatus → RelationshipStatus → Type 0
Sets db db' me them x y =
    (a b : String)
    → relationship_get db' a b ≡ (
        if me == a && them == b
        then x
        else if them == a && me == b
        then y
        else relationship_get db a b)

-- No write, one write, and the two writes in either order.
module _ (db : Tables) (now : ℕ) (me them : String) (x y : RelationshipStatus) where
  write_none :
      relationship_get db me them ≡ x → relationship_get db them me ≡ y → Sets db db me them x y
  write_none is_x is_y a b = ground (arith, eq_iff me a, eq_iff them b, eq_iff them a, eq_iff me b)

  write_mine :
      relationship_get db them me ≡ y → Sets db (relationship_set db now me them x none) me them x y
  write_mine is_y a b =
      rw (get-set db now me them x none a b)
        (ground (arith, eq_iff me a, eq_iff them b, eq_iff them a, eq_iff me b))

  module _ (apart : (me == them) ≡ false) where
    write_theirs_first :
        Sets db
          (relationship_set (relationship_set db now them me y none) now me them x none)
          me
          them
          x
          y
    write_theirs_first a b =
        rw
          (
            get-set (relationship_set db now them me y none) now me them x none a b,
            get-set db now them me y none a b,
          )
          (ground arith)

    write_mine_first :
        Sets db
          (relationship_set (relationship_set db now me them x none) now them me y none)
          me
          them
          x
          y
    write_mine_first a b =
        rw
          (
            get-set (relationship_set db now me them x none) now them me y none a b,
            get-set db now me them x none a b,
          )
          (ground (arith, eq_iff me a, eq_iff them a, eq_iff me them))

module _ (db : Tables) (now : ℕ) (me them : String) (target : Account) where
  remove_case-Sets :
      (mine theirs : RelationshipStatus)
      → (me == them) ≡ false
      → relationship_get db me them ≡ mine
      → relationship_get db them me ≡ theirs
      → Sets db
          (remove_case db now me them target mine theirs).0
          me
          them
          (remove_mine mine)
          (remove_theirs mine theirs)
  unfolding remove_case
  remove_case-Sets requested theirs apart is_mine is_theirs =
      write_mine db now me them rejected theirs is_theirs
  remove_case-Sets friend theirs apart is_mine is_theirs =
      write_theirs_first db now me them pending requested apart
  remove_case-Sets pending rejected apart is_mine is_theirs =
      write_mine db now me them unrelated rejected is_theirs
  remove_case-Sets pending theirs apart is_mine is_theirs =
      write_mine_first db now me them unrelated unrelated apart
  remove_case-Sets unrelated theirs apart is_mine is_theirs =
      write_none db now me them unrelated theirs is_mine is_theirs
  remove_case-Sets rejected theirs apart is_mine is_theirs =
      write_none db now me them rejected theirs is_mine is_theirs

  accept_written : Tables
  accept_written =
      relationship_set (relationship_set db now them me friend none) now me them friend none

  accept-Sets :
      (u v : Account)
      → (me == them) ≡ false
      → db.account me ≡ some u
      → db.account them ≡ some v
      → (db' : Tables) × (accept db now me them target ≡ some (db', some (target, friend)))
        × Sets db db' me them friend friend
  unfolding accept accept_written
  accept-Sets u v apart there there' =
      let same =
        account-set (relationship_set db now them me friend none) now me them friend none
        ∙ account-set db now them me friend none in
      let (db', done) =
        established_total accept_written now me them u v (rw same there) (rw same there') in
      (
        db',
        rw done refl,
        λ a b.
            get-established accept_written db' now me them a b done
            ∙ write_theirs_first db now me them friend friend apart a b,
      )

  asked : RelationshipStatus → Tables
  asked theirs = mark_pending (relationship_set db now me them requested none) now them me theirs

  asked-Sets :
      (theirs : RelationshipStatus)
      → (me == them) ≡ false
      → relationship_get db them me ≡ theirs
      → Sets db (asked theirs) me them requested (asked_theirs theirs)
  unfolding asked
  asked-Sets unrelated apart is_theirs = write_mine_first db now me them requested pending apart
  asked-Sets requested apart is_theirs = write_mine db now me them requested requested is_theirs
  asked-Sets pending apart is_theirs = write_mine db now me them requested pending is_theirs
  asked-Sets friend apart is_theirs = write_mine db now me them requested friend is_theirs
  asked-Sets rejected apart is_theirs = write_mine db now me them requested rejected is_theirs

  account-asked : (theirs : RelationshipStatus) → (asked theirs).account ≡ db.account
  unfolding asked
  account-asked unrelated =
      account-set (relationship_set db now me them requested none) now them me pending none
      ∙ account-set db now me them requested none
  account-asked requested = account-set db now me them requested none
  account-asked pending = account-set db now me them requested none
  account-asked friend = account-set db now me them requested none
  account-asked rejected = account-set db now me them requested none

  ask-Sets :
      (v : Account) (theirs : RelationshipStatus)
      → (me == them) ≡ false
      → db.account them ≡ some v
      → relationship_get db them me ≡ theirs
      → (db' : Tables) × (ask db now me them target theirs ≡ some (db', some (target, requested)))
        × Sets db db' me them requested (asked_theirs theirs)
  unfolding ask send_friend_request_notification asked
  ask-Sets v theirs apart there is_theirs =
      let (db', done) =
        notify_total (asked theirs) now them me (friend_request me) ("friend_request_" ++ me) v
          (rw (account-asked theirs) there) in
      (
        db',
        rw done refl,
        λ a b.
            get-notify (asked theirs) db' now them me (friend_request me) ("friend_request_" ++ me)
              a b done
            ∙ asked-Sets theirs apart is_theirs a b,
      )

  add_case-Sets :
      (u v : Account) (mine theirs : RelationshipStatus)
      → (me == them) ≡ false
      → db.account me ≡ some u
      → db.account them ≡ some v
      → relationship_get db me them ≡ mine
      → relationship_get db them me ≡ theirs
      → (db' : Tables) × (add_case db now me them target mine theirs
          ≡ some (db', some (target, add_mine mine theirs)))
        × Sets db db' me them (add_mine mine theirs) (add_theirs mine theirs)
  unfolding add_case
  add_case-Sets u v unrelated requested apart there there' is_mine is_theirs =
      accept-Sets u v apart there there'
  add_case-Sets u v requested requested apart there there' is_mine is_theirs =
      accept-Sets u v apart there there'
  add_case-Sets u v pending requested apart there there' is_mine is_theirs =
      accept-Sets u v apart there there'
  add_case-Sets u v friend requested apart there there' is_mine is_theirs =
      accept-Sets u v apart there there'
  add_case-Sets u v rejected requested apart there there' is_mine is_theirs =
      accept-Sets u v apart there there'
  add_case-Sets u v unrelated theirs apart there there' is_mine is_theirs =
      ask-Sets v theirs apart there' is_theirs
  add_case-Sets u v rejected theirs apart there there' is_mine is_theirs =
      ask-Sets v theirs apart there' is_theirs
  add_case-Sets u v mine theirs apart there there' is_mine is_theirs =
      (db, refl, write_none db now me them mine theirs is_mine is_theirs)

-- Between two accounts that exist, `friendAdd` does not fail: it sets the two statuses that the
-- transition gives, no other, and answers with the target and the user's new status.
pub friend_add_refines :
    (db : Tables) (now : ℕ) (me them : String) (u v : Account)
    → (me == them) ≡ false
    → db.account me ≡ some u
    → db.account them ≡ some v
    → let mine = relationship_get db me them in
      let theirs = relationship_get db them me in
      (db' : Tables) × (friend_add db now me them ≡ some (db', some (v, add_mine mine theirs)))
      × Sets db db' me them (add_mine mine theirs) (add_theirs mine theirs)
unfolding friend_add
friend_add_refines db now me them u v apart there there' =
    rw (apart, there, there')
      (add_case-Sets db now me them v u v (relationship_get db me them)
        (relationship_get db them me) apart there there' refl refl)

-- Between two accounts that exist, `friendRemove` sets the two statuses that the transition gives
-- and no other.
pub friend_remove_refines :
    (db : Tables) (now : ℕ) (me them : String) (u v : Account)
    → (me == them) ≡ false
    → db.account me ≡ some u
    → db.account them ≡ some v
    → let mine = relationship_get db me them in
      let theirs = relationship_get db them me in
      Sets db
        (friend_remove db now me them).0
        me
        them
        (remove_mine mine)
        (remove_theirs mine theirs)
unfolding friend_remove
friend_remove_refines db now me them u v apart there there' =
    rw (there, there', friend_remove)
      (remove_case-Sets db now me them v (relationship_get db me them) (relationship_get db them me)
        apart refl refl)

abbrev pub is_friend : RelationshipStatus → Bool
is_friend friend = true
is_friend unrelated = false
is_friend requested = false
is_friend pending = false
is_friend rejected = false

answered_case :
    (db : Tables) (now : ℕ) (me them : String) (v : Account) (mine theirs : RelationshipStatus)
    → (remove_case db now me them v mine theirs).1
      ≡ some (v, if is_friend mine then requested else remove_mine mine)
unfolding remove_case
answered_case db now me them v requested theirs = refl
answered_case db now me them v friend theirs = refl
answered_case db now me them v pending rejected = refl
answered_case db now me them v pending theirs = refl
answered_case db now me them v unrelated theirs = refl
answered_case db now me them v rejected theirs = refl

answered :
    (db : Tables) (now : ℕ) (me them : String) (u v : Account)
    → db.account me ≡ some u
    → db.account them ≡ some v
    → (friend_remove db now me them).1
      ≡ some (
        v,
        if is_friend (relationship_get db me them)
            then requested
            else remove_mine (relationship_get db me them),
      )
unfolding friend_remove
answered db now me them u v there there' =
    rw (there, there', friend_remove)
      (answered_case db now me them v (relationship_get db me them) (relationship_get db them me))

-- What `friendRemove` answers is the status of the user that the tables hold after the call, except
-- after the end of a friendship: there they hold pending, and the answer says requested. The user and
-- the target are two different accounts that exist.
pub friend_remove_answer :
    (db : Tables) (now : ℕ) (me them : String) (u v : Account)
    → (me == them) ≡ false
    → db.account me ≡ some u
    → db.account them ≡ some v
    → let mine = relationship_get db me them in
      let (db', answer) = friend_remove db now me them in
      (relationship_get db' me them ≡ remove_mine mine)
      × (answer ≡ some (v, if is_friend mine then requested else relationship_get db' me them))
unfolding friend_remove
friend_remove_answer db now me them u v apart there there' =
    let set = friend_remove_refines db now me them u v apart there there' me them in
    let stored : relationship_get (friend_remove db now me them).0 me them
        ≡ remove_mine (relationship_get db me them) =
      set ∙ ground (arith, eq_refl me, eq_refl them) in
    (stored, rw stored (answered db now me them u v there there'))
