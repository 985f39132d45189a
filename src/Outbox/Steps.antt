-- ===== src/Outbox/Steps.antt =====
-- The steps that dispatchers and the insertion of messages take on the outbox, and runs of them.
use happy_server.Common.{
  ℕ, String, Bool, true, false, not, ◌&&◌, ◌||◌, none, some, List, [], ◌∷◌, ◌++◌, ltb, ◌==◌,
  if◌then◌else◌, update, is_null,
}
use happy_server.Outbox.{
  OutboxRow, Outbox, select_candidates, claim, mark_delivered, mark_failed, cleanup_delivered,
}

abbrev pub elem : String → List String → Bool
elem k [] = false
elem k (j ∷ js) = j == k || elem k js

-- Every row of the session comes before the given sequence number.
abbrev pub all_before : Outbox → List String → String → ℕ → Bool
all_before outbox [] session seq = true
all_before outbox (j ∷ js) session seq =
    let rest = all_before outbox js session seq in
    elim (outbox.row j) [
      | none ↦ rest
      | some e ↦ (not (e.in_session == session) || ltb e.message_seq seq) && rest
    ]

-- The outbox, and the candidates that some dispatcher has read.
abbrev pub Dispatching : Type 0
Dispatching = Outbox × List String

pub data OutboxStep : Type 0 where
  adds : String → String → ℕ → ℕ → OutboxStep
  selects : ℕ → ℕ → OutboxStep
  claims : ℕ → ℕ → String → String → OutboxStep
  delivers : String → String → ℕ → OutboxStep
  fails : String → String → String → ℕ → OutboxStep
  cleans : ℕ → OutboxStep

abbrev pub new_row : String → ℕ → ℕ → OutboxRow
new_row session seq now = record {
  in_session = session;
  message_seq = seq;
  attempts = 0;
  next_attempt_at = now;
  claimed_at = none;
  claim_token = none;
  delivered_at = none;
  last_error = none;
}

-- A row is added for a message that is the newest of its session, under a fresh identifier.
abbrev pub may_add : Outbox → List String → String → String → ℕ → Bool
may_add outbox read k session seq =
    is_null (outbox.row k) && not (elem k read) && all_before outbox outbox.ids session seq

abbrev pub add : Outbox → String → String → ℕ → ℕ → Outbox
add outbox k session seq now = record {
  ids = k ∷ outbox.ids;
  row = update outbox.row k (some (new_row session seq now));
}

abbrev pub outbox_step : Dispatching → OutboxStep → Dispatching
outbox_step (outbox, read) (adds k session seq now) =
    if may_add outbox read k session seq
    then (add outbox k session seq now, read)
    else (outbox, read)
outbox_step (outbox, read) (selects now lease_ms) =
    (outbox, select_candidates outbox now lease_ms outbox.ids ++ read)
outbox_step (outbox, read) (claims now lease_ms k token) =
    if elem k read then ((claim outbox now lease_ms k token).0, read) else (outbox, read)
outbox_step (outbox, read) (delivers k token now) = ((mark_delivered outbox k token now).0, read)
outbox_step (outbox, read) (fails k token error at) =
    ((mark_failed outbox k token error at).0, read)
outbox_step (outbox, read) (cleans before) = (cleanup_delivered outbox before, read)

unfoldable pub outbox_run : Dispatching → List OutboxStep → Dispatching
outbox_run s [] = s
outbox_run s (c ∷ cs) = outbox_run (outbox_step s c) cs
