-- ===== src/Outbox.antt =====
-- The repository of sources/app/session/sessionMessageNotificationOutbox.ts: claiming, marking and
-- cleaning up the notifications of committed messages. A claim is two steps, the SELECT of candidates
-- and the conditional UPDATE of one; ORDER BY and LIMIT only choose which candidates are tried.
pub mod Steps
pub mod Earlier
pub mod Order
pub mod Claims
mod Examples
use Prim.Native.String.{compare}
use Prim.Native.Nat.{Ordering}
use happy_server.Common.{
  ℕ, ◌+◌, ◌-◌, ◌*◌, ◌^◌, min, max, String, Bool, true, false, not, ◌&&◌, ◌||◌, Option, none, some,
  List, [], ◌∷◌, ltb, leb, nat_eq, ◌==◌, if◌then◌else◌, update, is_null, sql_eq,
}

-- The columns that the repository tests or sets, with the `seq` of the joined message.
pub record OutboxRow : Type 0 where
  pub in_session : String
  pub message_seq : ℕ
  pub attempts : ℕ
  pub next_attempt_at : ℕ
  pub claimed_at : Option ℕ
  pub claim_token : Option String
  pub delivered_at : Option ℕ
  pub last_error : Option String

-- The rows by their identifier, and the identifiers in use.
pub record Outbox : Type 0 where
  pub ids : List String
  pub row : String → Option OutboxRow

abbrev pub text_less : String → String → Bool
text_less a b = elim (compare a b) [ Ordering.lt ↦ true | _ ↦ false ]

-- Whether a row is undelivered and comes before the given one in its session.
abbrev pub is_earlier : String → OutboxRow → String → OutboxRow → Bool
is_earlier j e k c =
    e.in_session == c.in_session
    && is_null e.delivered_at
    && (ltb e.message_seq c.message_seq || (nat_eq e.message_seq c.message_seq && text_less j k))

-- `EXISTS` over the rows of the given identifiers.
unfoldable pub exists_earlier : Outbox → List String → String → OutboxRow → Bool
exists_earlier outbox [] k c = false
exists_earlier outbox (j ∷ js) k c =
    let rest = exists_earlier outbox js k c in
    elim (outbox.row j) [ none ↦ rest | some e ↦ is_earlier j e k c || rest ]

-- `pendingClaimWhere`, with the lease in place of the cutoff.
abbrev pub pending_claim_where : ℕ → ℕ → OutboxRow → Bool
pending_claim_where now lease_ms r =
    is_null r.delivered_at
    && leb r.next_attempt_at now
    && elim r.claimed_at [ none ↦ true | some t ↦ ltb (t + lease_ms) now ]

unfoldable pub is_candidate : Outbox → ℕ → ℕ → String → OutboxRow → Bool
unfolding exists_earlier
is_candidate outbox now lease_ms k r =
    pending_claim_where now lease_ms r && not (exists_earlier outbox outbox.ids k r)

abbrev pub candidate_at : Outbox → ℕ → ℕ → String → Bool
candidate_at outbox now lease_ms k = elim (outbox.row k) [
  | none ↦ false
  | some r ↦ is_candidate outbox now lease_ms k r
]

-- The SELECT of `claimBatch`.
unfoldable pub select_candidates : Outbox → ℕ → ℕ → List String → List String
select_candidates outbox now lease_ms [] = []
select_candidates outbox now lease_ms (k ∷ ks) =
    let rest = select_candidates outbox now lease_ms ks in
    if candidate_at outbox now lease_ms k then k ∷ rest else rest

-- `updateMany` on an identifier.
unfoldable pub update_row :
    Outbox → String → (OutboxRow → Bool) → (OutboxRow → OutboxRow) → Outbox × Bool
update_row outbox k test change = elim (outbox.row k) [
  | none ↦ (outbox, false)
  | some r ↦
      if test r
      then (record outbox { row = update outbox.row k (some (change r)) }, true)
      else (outbox, false)
]

abbrev pub claimed_row : ℕ → String → OutboxRow → OutboxRow
claimed_row now token r = record r {
  claimed_at = some now;
  claim_token = some token;
  attempts = r.attempts + 1;
}

-- The UPDATE of `claimBatch` on one candidate.
abbrev pub claim : Outbox → ℕ → ℕ → String → String → Outbox × Bool
claim outbox now lease_ms k token =
    update_row outbox k (pending_claim_where now lease_ms) (claimed_row now token)

abbrev pub holds_claim : String → OutboxRow → Bool
holds_claim token r = sql_eq r.claim_token token && is_null r.delivered_at

abbrev pub delivered_row : ℕ → OutboxRow → OutboxRow
delivered_row now r = record r {
  delivered_at = some now;
  claimed_at = none;
  claim_token = none;
  last_error = none;
}

abbrev pub mark_delivered : Outbox → String → String → ℕ → Outbox × Bool
mark_delivered outbox k token now = update_row outbox k (holds_claim token) (delivered_row now)

-- The error is the text that was cut to 1000 characters.
abbrev pub failed_row : String → ℕ → OutboxRow → OutboxRow
failed_row error next_attempt_at r = record r {
  next_attempt_at = next_attempt_at;
  claimed_at = none;
  claim_token = none;
  last_error = some error;
}

abbrev pub mark_failed : Outbox → String → String → String → ℕ → Outbox × Bool
mark_failed outbox k token error next_attempt_at =
    update_row outbox k (holds_claim token) (failed_row error next_attempt_at)

-- What `deleteMany` leaves of a row.
abbrev pub kept_row : ℕ → Option OutboxRow → Option OutboxRow
kept_row before none = none
kept_row before (some r) = elim r.delivered_at [
  | none ↦ some r
  | some t ↦ if ltb t before then none else some r
]

unfoldable pub cleanup_delivered : Outbox → ℕ → Outbox
cleanup_delivered outbox before = record outbox { row = λ k. kept_row before (outbox.row k) }

-- The bound of the retry delay: doubling from the base, at most the maximum.
unfoldable pub retry_ceiling : ℕ → ℕ → ℕ → ℕ
retry_ceiling retry_max_ms retry_base_ms tries =
    min retry_max_ms (retry_base_ms * 2 ^ min (tries - 1) 16)

-- `draw` is `Math.floor(this.random() * (ceiling + 1))`.
unfoldable pub retry_delay : ℕ → ℕ
retry_delay draw = max 1 draw
