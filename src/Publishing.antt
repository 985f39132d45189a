-- ===== src/Publishing.antt =====
-- What the handlers do after a committed write: sources/storage/seq.ts numbers the update and
-- `emitUpdate` of sources/app/events/eventRouter.ts sends it. The accounts' counters and the emitted
-- updates are the state; a missing account throws, which is `none`.
use happy_server.Common.{ℕ, ◌+◌, String, Option, none, some, List, ◌∷◌, update}
use happy_server.EventRouter.{RecipientFilter}
use happy_server.EventRouter.Events.{UpdatePayload}

pub record Emitted : Type 0 where
  pub to_user : String
  pub payload : UpdatePayload
  pub filter : RecipientFilter

-- The newest emission is first.
pub record Outbound : Type 0 where
  pub account_seq : String → Option ℕ
  pub emitted : List Emitted

unfoldable pub allocate_user_seq : Outbound → String → Option (Outbound × ℕ)
allocate_user_seq out account_id = elim (out.account_seq account_id) [
  | none ↦ none
  | some n ↦
      some (record out { account_seq = update out.account_seq account_id (some (n + 1)) }, n + 1)
]

-- The payload is built from the number that was allocated.
unfoldable pub publish : Outbound → String → (ℕ → UpdatePayload) → RecipientFilter → Option Outbound
unfolding allocate_user_seq
publish out user_id build filter = elim (allocate_user_seq out user_id) [
  | none ↦ none
  | some (out', n) ↦ some (record out' {
    emitted = record { to_user = user_id; payload = build n; filter = filter } ∷ out'.emitted;
  })
]
