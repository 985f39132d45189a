-- ===== src/Outbox/Order.antt =====
-- The order in which a session's messages are delivered, whatever the dispatchers do.
use happy_server.Common.{
  ℕ, String, Bool, true, false, not, ◌||◌, some, List, [], ◌∷◌, ◌++◌, arith, ◌≡◌, refl, ltb, ◌==◌,
  eq_iff, eq_refl, is_null, Option-cases, Bool-cases, inl, inr,
}
use happy_server.Outbox.{
  OutboxRow, Outbox, exists_earlier, pending_claim_where, is_candidate, select_candidates,
  update_row, claimed_row, holds_claim, delivered_row, failed_row, cleanup_delivered,
}
use happy_server.Outbox.Steps.{
  elem, OutboxStep, adds, selects, claims, delivers, fails, cleans, may_add, add, outbox_step,
  outbox_run,
}
use happy_server.Outbox.Earlier.{
  put_row, Keeps, exists-put, exists-same, exists-add, find_before, find-select, exists-clean,
  kept_was,
}

-- Whether a row was delivered, is claimed, or was read as a candidate.
abbrev pub touched : List String → String → OutboxRow → Bool
touched read k r = not (is_null r.delivered_at) || not (is_null r.claim_token) || elem k read

-- Nothing undelivered comes before a delivered or claimed row of its session.
pub record InOrder (outbox : Outbox) (read : List String) : Type 0 where
  pub heads :
      (k : String) (r : OutboxRow)
      → outbox.row k ≡ some r
      → touched read k r ≡ true
      → exists_earlier outbox outbox.ids k r ≡ false
  pub covered : (k : String) (r : OutboxRow) → outbox.row k ≡ some r → elem k outbox.ids ≡ true

put-InOrder :
    (outbox : Outbox) (read : List String) (j : String) (e e' : OutboxRow)
    → outbox.row j ≡ some e
    → Keeps e e'
    → (touched read j e' ≡ true → touched read j e ≡ true)
    → InOrder outbox read
    → InOrder (put_row outbox j e') read
put-InOrder outbox read j e e' there same before h = record {
  heads = λ k r held was. elim (Bool-cases (j == k)) [
    | inl here ↦
        let r_is : e' ≡ r = ground arith in
        let k_is : j ≡ k = (eq_iff j k).0 here in
        let now : touched read j e' ≡ true = ground arith in
        rw (← k_is, ← r_is)
          (exists-put outbox outbox.ids j e e' j e' there same
            (exists-same outbox outbox.ids j e e' same (h.heads j e there (before now))))
    | inr other ↦
        exists-put outbox outbox.ids j e e' k r there same (h.heads k r (ground arith) was)
  ];
  covered = λ k r held. ground (arith, eq_iff j k, h.covered k r, h.covered j e there);
}

update-InOrder :
    (outbox : Outbox) (read : List String) (j : String) (test : OutboxRow → Bool)
    (change : OutboxRow → OutboxRow)
    → ((e : OutboxRow) → test e ≡ true → Keeps e (change e))
    → ((e : OutboxRow) → test e ≡ true → touched read j (change e) ≡ true → touched read j e ≡ true)
    → InOrder outbox read
    → InOrder (update_row outbox j test change).0 read
unfolding update_row
update-InOrder outbox read j test change same before h = elim (Option-cases (outbox.row j)) [
  | inl absent ↦ rw (absent, update_row) h
  | inr (e, there) ↦ elim (Bool-cases (test e)) [
    | inr fails_it ↦ rw (there, fails_it, update_row) h
    | inl does ↦
        rw (there, does, update_row)
          (put-InOrder outbox read j e (change e) there (same e does) (before e does) h)
  ]
]

select-InOrder :
    (outbox : Outbox) (read : List String) (now lease_ms : ℕ)
    → InOrder outbox read
    → InOrder outbox (select_candidates outbox now lease_ms outbox.ids ++ read)
unfolding is_candidate
select-InOrder outbox read now lease_ms h = record {
  heads = λ k r there was.
      ground (arith, h.heads k r there, find-select outbox now lease_ms outbox.ids read k);
  covered = h.covered;
}

add-InOrder :
    (outbox : Outbox) (read : List String) (j session : String) (seq now : ℕ)
    → may_add outbox read j session seq ≡ true
    → InOrder outbox read
    → InOrder (add outbox j session seq now) read
unfolding exists_earlier
add-InOrder outbox read j session seq now allowed h = record {
  heads = λ k r there was. elim (Bool-cases (j == k)) [
    | inl here ↦ ground (arith, eq_iff j k)
    | inr other ↦
        let held : outbox.row k ≡ some r = ground arith in
        let less : (not (r.in_session == session) || ltb r.message_seq seq) ≡ true =
          find_before outbox outbox.ids session seq k r (ground arith) (h.covered k r held) held in
        let clear : exists_earlier (add outbox j session seq now) outbox.ids k r ≡ false =
          exists-add outbox outbox.ids j session seq now k r (ground arith) less
            (h.heads k r held was) in
        ground (arith, eq_refl j, eq_iff r.in_session session, eq_iff session r.in_session)
  ];
  covered = λ k r there. ground (arith, eq_iff j k, h.covered k r);
}

clean-InOrder :
    (outbox : Outbox) (read : List String) (before : ℕ)
    → InOrder outbox read
    → InOrder (cleanup_delivered outbox before) read
unfolding cleanup_delivered
clean-InOrder outbox read before h = record {
  heads = λ k r there was.
      exists-clean outbox before outbox.ids k r
        (h.heads k r (kept_was outbox before k r there) was);
  covered = λ k r there. h.covered k r (kept_was outbox before k r there);
}

step-InOrder :
    (outbox : Outbox) (read : List String) (c : OutboxStep)
    → InOrder outbox read
    → InOrder (outbox_step (outbox, read) c).0 (outbox_step (outbox, read) c).1
step-InOrder outbox read (adds k session seq now) h =
    elim (Bool-cases (may_add outbox read k session seq)) [
      | inl allowed ↦ rw allowed (add-InOrder outbox read k session seq now allowed h)
      | inr refused ↦ rw refused h
    ]
step-InOrder outbox read (selects now lease_ms) h = select-InOrder outbox read now lease_ms h
step-InOrder outbox read (claims now lease_ms k token) h = elim (Bool-cases (elem k read)) [
  | inr unread ↦ rw unread h
  | inl known ↦ rw known (
      update-InOrder outbox read k (pending_claim_where now lease_ms) (claimed_row now token)
        (λ e free. record { same_session = refl; same_seq = refl; stays_delivered = λ d. d })
        (λ e free was. ground arith) h)
]
step-InOrder outbox read (delivers k token now) h =
    update-InOrder outbox read k (holds_claim token) (delivered_row now)
      (λ e held. record {
        same_session = refl;
        same_seq = refl;
        stays_delivered = λ d. ground arith;
      })
      (λ e held was. ground arith) h
step-InOrder outbox read (fails k token error at) h =
    update-InOrder outbox read k (holds_claim token) (failed_row error at)
      (λ e held. record { same_session = refl; same_seq = refl; stays_delivered = λ d. d })
      (λ e held was. ground arith) h
step-InOrder outbox read (cleans before) h = clean-InOrder outbox read before h

-- However dispatchers interleave their selections, claims, deliveries, failures and clean-ups with
-- each other and with new messages, each the newest of its session: nothing undelivered of a session
-- comes before a message of it that was delivered, is claimed, or was read as a candidate.
pub outbox_run-InOrder :
    (outbox : Outbox) (read : List String) (cs : List OutboxStep)
    → InOrder outbox read
    → InOrder (outbox_run (outbox, read) cs).0 (outbox_run (outbox, read) cs).1
unfolding outbox_run
outbox_run-InOrder outbox read [] h = h
outbox_run-InOrder outbox read (c ∷ cs) h =
    outbox_run-InOrder (outbox_step (outbox, read) c).0 (outbox_step (outbox, read) c).1 cs
      (step-InOrder outbox read c h)
