-- ===== src/Rpc/Progress.antt =====
-- A registration that waits for its owner's lock.
use happy_server.Common.{ℕ, String, Bool, true, false, ◌&&◌, List, [], ◌∷◌, ◌++◌, ◌≡◌, refl}
use happy_server.Rpc.{Platform}
use happy_server.Rpc.Lifecycle.{
  Lifecycle, Mark, Attempt, Fenced, completed, busy, not_owner, throws,
}

abbrev no_marks : List Mark → Bool
no_marks [] = true
no_marks (m ∷ ms) = false

abbrev is_retried : Fenced → Bool
is_retried busy = true
is_retried (throws reached) = true
is_retried not_owner = false
is_retried (completed now observed uuid) = false

-- Rounds that the loop repeats, without a mark.
abbrev pub all_retried : List Attempt → Bool
all_retried [] = true
all_retried (a ∷ attempts) =
    no_marks a.during
    && is_retried a.fenced
    && no_marks a.ending
    && no_marks a.waiting
    && all_retried attempts

abbrev pub success_at : ℕ → ℕ → String → Attempt
success_at now observed uuid = record {
  during = [];
  fenced = completed now observed uuid;
  ending = [];
  waiting = [];
}

-- What a call through the fence leaves of a lifecycle, whatever it comes to.
record IsKept (l l' : Lifecycle) : Type 0 where
  same_user : l'.user_id ≡ l.user_id
  same_socket : l'.socket_id ≡ l.socket_id
  same_ttl : l'.ttl_ms ≡ l.ttl_ms
  same_closing : l'.closing ≡ l.closing
  same_cancelled : l'.cancelled_methods ≡ l.cancelled_methods

abbrev kept_all : (l : Lifecycle) → IsKept l l
kept_all l = record {
  same_user = refl;
  same_socket = refl;
  same_ttl = refl;
  same_closing = refl;
  same_cancelled = refl;
}

module _ (js : Platform) (method : String) where
  module _ (now observed : ℕ) (uuid : String) where
    abbrev until_success : List Attempt → List Attempt
    until_success attempts = attempts ++ (success_at now observed uuid ∷ [])
