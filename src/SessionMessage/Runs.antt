-- ===== src/SessionMessage/Runs.antt =====
-- Runs of message requests and lease calls, in any order; a request that throws is rolled back.
use happy_server.Common.{
  ℕ, String, true, Option, none, some, List, [], ◌∷◌, arith, ◌≡◌, refl, Option-cases, inl, inr,
}
use happy_server.RuntimeLease.{Db}
use happy_server.RuntimeLease.Steps.{Call, step}
use happy_server.RuntimeLease.Counters.{seq_of, seq_of-step}
use happy_server.SessionMessage.{Store, PersistSessionMessageInput, Message, PersistResult}
use happy_server.SessionMessage.Persist.{persist_session_message_in_tx}
use happy_server.SessionMessage.Sequence.{
  IsSequenced, all_messages, is_counted, persist-IsSequenced,
}

pub data Action : Type 0 where
  requests : String → PersistSessionMessageInput → Action
  calls : Call → Action

abbrev committed : Store → Option (Store × PersistResult) → Store
committed store none = store
committed store (some (store', r)) = store'

unfoldable pub act : Store → ℕ → Action → Store
act store now (requests id input) =
    committed store (persist_session_message_in_tx store now id input)
act store now (calls c) = record store { runtime = step store.runtime now c }

unfoldable pub act_all : Store → List (ℕ × Action) → Store
unfolding act
act_all store [] = store
act_all store ((now, a) ∷ rest) = act_all (act store now a) rest

counted_by_seq :
    (db db' : Db) (ms : List Message)
    → ((k : String) → seq_of db' k ≡ seq_of db k)
    → all_messages (is_counted db) ms ≡ true
    → all_messages (is_counted db') ms ≡ true
unfolding all_messages is_counted
counted_by_seq db db' [] same h = refl
counted_by_seq db db' (m ∷ ms) same h =
    ground (arith, same m.session_id, counted_by_seq db db' ms same)

act-IsSequenced :
    (store : Store) (now : ℕ) (a : Action) → IsSequenced store → IsSequenced (act store now a)
unfolding act
act-IsSequenced store now (calls c) h = record {
  ordered = h.ordered;
  counted =
      counted_by_seq store.runtime (step store.runtime now c) store.messages
        (seq_of-step store.runtime now c) h.counted;
}
act-IsSequenced store now (requests id input) h =
    elim (Option-cases (persist_session_message_in_tx store now id input)) [
      | inl thrown ↦ rw (thrown, act) h
      | inr ((store', r), done) ↦
          rw (done, act) (persist-IsSequenced store store' now id input r done h)
    ]

-- From an ordered store, any run of message requests and lease calls, of any sessions and producers
-- and at any times, leads to an ordered store: within a session every later message has the larger
-- sequence number and another local identifier, and the session's counter has reached them all.
pub act_all-IsSequenced :
    (store : Store) (actions : List (ℕ × Action))
    → IsSequenced store
    → IsSequenced (act_all store actions)
unfolding act_all
act_all-IsSequenced store [] h = h
act_all-IsSequenced store ((now, a) ∷ rest) h =
    act_all-IsSequenced (act store now a) rest (act-IsSequenced store now a h)
