-- ===== src/SessionMessage/Sequence.antt =====
-- The order and the keys of stored messages, over any run of message requests and lease calls.
use happy_server.Common.{
  ℕ, ◌+◌, String, Bool, true, false, not, ◌&&◌, ◌||◌, none, some, List, [], ◌∷◌, arith, ◌≡◌, refl,
  ◌==◌, eq_iff, eq_refl, Option-cases, inl, inr, sql_eq_column, ltb, leb,
}
use happy_server.RuntimeLease.{Session, Db, put_session}
use happy_server.SessionMessage.{Store, PersistSessionMessageInput, Message, PersistResult}
use happy_server.SessionMessage.Persist.{
  persist_session_message_in_tx, find_message, find_local, create, new_message,
}

unfoldable pub all_messages : (Message → Bool) → List Message → Bool
all_messages p [] = true
all_messages p (m ∷ ms) = p m && all_messages p ms

-- `x` is of another session than `m`, or has a smaller sequence number and another local identifier.
pub comes_before : Message → Message → Bool
comes_before m x =
    not (x.session_id == m.session_id)
    || (ltb x.seq m.seq && not (sql_eq_column x.local_id m.local_id))

-- Newest first, each message comes after the rest of its session.
unfoldable pub in_order : List Message → Bool
unfolding comes_before all_messages
in_order [] = true
in_order (m ∷ ms) = all_messages (comes_before m) ms && in_order ms

-- The session of the message is there, and its counter has reached the message.
unfoldable pub is_counted : Db → Message → Bool
is_counted db m = elim (db.session m.session_id) [ none ↦ false | some s ↦ leb m.seq s.seq ]

pub record IsSequenced (store : Store) : Type 0 where
  pub ordered : in_order store.messages ≡ true
  pub counted : all_messages (is_counted store.runtime) store.messages ≡ true

-- What a session's counter allows, and the missing key, put the new message after the others.
new_comes_last :
    (db : Db) (now : ℕ) (id : String) (input : PersistSessionMessageInput) (s : Session)
    (ms : List Message)
    → db.session input.session_id ≡ some s
    → find_local input.session_id input.local_id ms ≡ none
    → all_messages (is_counted db) ms ≡ true
    → all_messages (comes_before (new_message now id input (s.seq + 1))) ms ≡ true
unfolding all_messages comes_before is_counted find_message new_message
new_comes_last db now id input s [] found free counted = refl
new_comes_last db now id input s (m ∷ ms) found free counted = elim (Option-cases input.local_id) [
  | inl anonymous ↦
      ground
        (arith, eq_iff m.session_id input.session_id, new_comes_last db now id input s ms found)
  | inr (l, keyed) ↦
      ground
        (arith, eq_iff m.session_id input.session_id, new_comes_last db now id input s ms found)
]

-- A counter that grows keeps every message counted.
still_counted :
    (db : Db) (k : String) (s s' : Session) (ms : List Message)
    → db.session k ≡ some s
    → leb s.seq s'.seq ≡ true
    → all_messages (is_counted db) ms ≡ true
    → all_messages (is_counted (put_session db k s')) ms ≡ true
unfolding all_messages is_counted put_session
still_counted db k s s' [] found grows counted = refl
still_counted db k s s' (m ∷ ms) found grows counted =
    ground (arith, eq_iff k m.session_id, still_counted db k s s' ms found grows)

create-IsSequenced :
    (store store' : Store) (now : ℕ) (id : String) (input : PersistSessionMessageInput)
    (s : Session) (r : PersistResult)
    → store.runtime.session input.session_id ≡ some s
    → create store now id input s ≡ some (store', r)
    → IsSequenced store
    → IsSequenced store'
unfolding create in_order all_messages is_counted put_session new_message
create-IsSequenced store store' now id input s r found done h =
    let last = new_comes_last store.runtime now id input s store.messages found in
    let kept =
      still_counted store.runtime input.session_id s
        (record s { seq = s.seq + 1; updated_at = now }) store.messages found in
    ground (arith, last, kept, eq_refl input.session_id)

pub persist-IsSequenced :
    (store store' : Store) (now : ℕ) (id : String) (input : PersistSessionMessageInput)
    (r : PersistResult)
    → persist_session_message_in_tx store now id input ≡ some (store', r)
    → IsSequenced store
    → IsSequenced store'
unfolding persist_session_message_in_tx
persist-IsSequenced store store' now id input r done h =
    elim (Option-cases (store.runtime.session input.session_id)) [
      | inl missing ↦ ground arith
      | inr (s, found) ↦ ground (arith, create-IsSequenced store store' now id input s r found)
    ]
