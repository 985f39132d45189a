-- ===== src/SessionMessage/Idempotence.antt =====
-- Retries of a message with a local identifier.
use happy_server.Common.{
  ℕ, String, Bool, true, false, Option, none, some, arith, ◌≡◌, refl, ◌==◌, eq_iff, eq_refl,
  Option-cases, inl, inr, ◌⊎◌,
}
use happy_server.Common.Json.{
  JsonValue, null, bool, number, string, array, object, field, end_fields, get_field, is_text,
}
use happy_server.RuntimeLease.{Session}
use happy_server.SessionMessage.{
  Store, replay, PersistSessionMessageInput, Message, success, error, has_ciphertext,
  idempotency_conflict,
}
use happy_server.SessionMessage.Persist.{persist_session_message_in_tx, find_message}

is_text_other :
    (v : Option JsonValue) (c c' : String)
    → is_text v c ≡ true
    → (c == c') ≡ false
    → is_text v c' ≡ false
unfolding is_text
is_text_other none c c' h other = cc
is_text_other (some null) c c' h other = cc
is_text_other (some (bool b)) c c' h other = cc
is_text_other (some (number n)) c c' h other = cc
is_text_other (some (string t)) c c' h other = ground (arith, eq_iff t c)
is_text_other (some (array xs)) c c' h other = cc
is_text_other (some (object fs)) c c' h other = cc

has_ciphertext_other :
    (v : JsonValue) (c c' : String)
    → has_ciphertext v c ≡ true
    → (c == c') ≡ false
    → has_ciphertext v c' ≡ false
unfolding has_ciphertext
has_ciphertext_other (object fs) c c' h other =
    ground (arith, is_text_other (get_field "c" fs) c c')
has_ciphertext_other null c c' h other = cc
has_ciphertext_other (bool b) c c' h other = cc
has_ciphertext_other (number n) c c' h other = cc
has_ciphertext_other (string t) c c' h other = cc
has_ciphertext_other (array xs) c c' h other = cc

sealed :
    (c : String)
    → has_ciphertext (object (field "t" (string "encrypted") (field "c" (string c) end_fields))) c
      ≡ true
unfolding has_ciphertext get_field is_text
sealed c = ground (arith, eq_refl c)

-- The message that a successful request reports is the one that its key finds, with its ciphertext.
success_is_found :
    (store store' : Store) (now : ℕ) (id l : String) (input : PersistSessionMessageInput)
    (duplicate : Bool) (m : Message) (u : Option ℕ)
    → input.local_id ≡ some l
    → (l == "") ≡ false
    → persist_session_message_in_tx store now id input ≡ some (store', success duplicate m u)
    → (find_message input.session_id l store'.messages ≡ some m)
      × (has_ciphertext m.content input.ciphertext ≡ true)
unfolding persist_session_message_in_tx
success_is_found store store' now id l input duplicate m u keyed named first =
    elim (Option-cases (store.runtime.session input.session_id)) [
      | inl missing ↦ ground arith
      | inr (s, found) ↦ (
        ground (arith, eq_refl l, eq_refl input.session_id),
        ground (arith, sealed input.ciphertext),
      )
    ]

same_key_again :
    (store : Store) (now : ℕ) (id l : String) (input : PersistSessionMessageInput) (m : Message)
    (s : Session)
    → input.local_id ≡ some l
    → (l == "") ≡ false
    → find_message input.session_id l store.messages ≡ some m
    → has_ciphertext m.content input.ciphertext ≡ true
    → store.runtime.session input.session_id ≡ some s
    → s.account_id ≡ input.user_id
    → (input.runtime_authorization ≡ none)
      ⊎ ((i j : Option String) × (input.runtime_authorization ≡ some (replay i j)))
    → persist_session_message_in_tx store now id input ≡ some (store, success true m none)
unfolding persist_session_message_in_tx
same_key_again store now id l input m s keyed named at exact found mine (inl plain) =
    ground (arith, eq_refl input.user_id)
same_key_again store now id l input m s keyed named at exact found mine (inr (i, j, replayed)) =
    ground (arith, eq_refl input.user_id)

-- A producer that lost the answer gets it back, where its request carries a local identifier that is
-- not the empty text: after that request has succeeded, the same request under a replay authorization
-- of any incarnation and lease, valid or not, or under none, returns that message as a duplicate and
-- changes no table, in any tables that hold the same messages as the request left and the session with
-- the producer's account, whatever happened to the lease meanwhile.
pub answer_recovered :
    (store store' later : Store) (now after : ℕ) (id id' l : String)
    (input : PersistSessionMessageInput) (duplicate : Bool) (m : Message) (u : Option ℕ)
    (s : Session) (i j : Option String)
    → input.local_id ≡ some l
    → (l == "") ≡ false
    → persist_session_message_in_tx store now id input ≡ some (store', success duplicate m u)
    → later.messages ≡ store'.messages
    → later.runtime.session input.session_id ≡ some s
    → s.account_id ≡ input.user_id
    → (persist_session_message_in_tx later after id'
          (record input { runtime_authorization = some (replay i j) })
        ≡ some (later, success true m none))
      × (persist_session_message_in_tx later after id'
            (record input { runtime_authorization = none })
          ≡ some (later, success true m none))
answer_recovered store store' later now after id id' l input duplicate m u s i j keyed named first
      kept found mine =
    let (at, exact) =
      success_is_found store store' now id l input duplicate m u keyed named first in
    (
      same_key_again later after id' l (record input { runtime_authorization = some (replay i j) })
          m s keyed named (rw kept at) exact found mine (inr (i, j, refl)),
      same_key_again later after id' l (record input { runtime_authorization = none }) m s keyed
          named (rw kept at) exact found mine (inl refl),
    )

-- A key that was persisted with one ciphertext is refused with any other, without an authorization:
-- the answer is a conflict that is not worth a retry, and no table changes.
pub other_ciphertext_conflicts :
    (store store' : Store) (now after : ℕ) (id id' l other : String)
    (input : PersistSessionMessageInput) (duplicate : Bool) (m : Message) (u : Option ℕ)
    (s : Session)
    → input.local_id ≡ some l
    → (l == "") ≡ false
    → (input.ciphertext == other) ≡ false
    → persist_session_message_in_tx store now id input ≡ some (store', success duplicate m u)
    → store'.runtime.session input.session_id ≡ some s
    → s.account_id ≡ input.user_id
    → persist_session_message_in_tx store' after id'
        (record input { ciphertext = other; runtime_authorization = none })
      ≡ some (store', error idempotency_conflict false)
unfolding persist_session_message_in_tx
other_ciphertext_conflicts store store' now after id id' l other input duplicate m u s keyed named
      different first found mine =
    let (at, exact) =
      success_is_found store store' now id l input duplicate m u keyed named first in
    ground (
      arith,
      eq_refl input.user_id,
      has_ciphertext_other m.content input.ciphertext other exact different,
    )
