-- ===== src/Outbox/Earlier.antt =====
-- What each change of the outbox does to the test that a session has an earlier undelivered row.
use happy_server.Common.{
  ℕ, String, true, false, not, ◌||◌, none, some, List, [], ◌∷◌, ◌++◌, arith, ◌≡◌, refl, ltb, ◌==◌,
  eq_iff, update, is_null, Option-cases, Bool-cases, inl, inr,
}
use happy_server.Outbox.{
  OutboxRow, Outbox, exists_earlier, candidate_at, select_candidates, cleanup_delivered,
}
use happy_server.Outbox.Steps.{elem, all_before, add}

abbrev pub put_row : Outbox → String → OutboxRow → Outbox
put_row outbox j e = record outbox { row = update outbox.row j (some e) }

-- A change that a row may undergo without overtaking.
pub record Keeps (e e' : OutboxRow) : Type 0 where
  pub same_session : e'.in_session ≡ e.in_session
  pub same_seq : e'.message_seq ≡ e.message_seq
  pub stays_delivered : is_null e'.delivered_at ≡ true → is_null e.delivered_at ≡ true

pub exists-put :
    (outbox : Outbox) (js : List String) (j : String) (e e' : OutboxRow) (k : String)
    (c : OutboxRow)
    → outbox.row j ≡ some e
    → Keeps e e'
    → exists_earlier outbox js k c ≡ false
    → exists_earlier (put_row outbox j e') js k c ≡ false
unfolding exists_earlier
exists-put outbox [] j e e' k c there h clear = refl
exists-put outbox (x ∷ js) j e e' k c there h clear = elim (Option-cases (outbox.row x)) [
  | inl absent ↦ ground (arith, eq_iff j x, exists-put outbox js j e e' k c there h)
  | inr (y, held) ↦ ground (
    arith,
    eq_iff j x,
    h.same_session,
    h.same_seq,
    h.stays_delivered,
    exists-put outbox js j e e' k c there h,
  )
]

pub exists-same :
    (outbox : Outbox) (js : List String) (k : String) (e e' : OutboxRow)
    → Keeps e e'
    → exists_earlier outbox js k e ≡ false
    → exists_earlier outbox js k e' ≡ false
unfolding exists_earlier
exists-same outbox [] k e e' h clear = refl
exists-same outbox (x ∷ js) k e e' h clear = elim (Option-cases (outbox.row x)) [
  | inl absent ↦ ground (arith, exists-same outbox js k e e' h)
  | inr (y, held) ↦ ground (arith, h.same_session, h.same_seq, exists-same outbox js k e e' h)
]

pub exists-add :
    (outbox : Outbox) (js : List String) (j session : String) (seq now : ℕ) (k : String)
    (c : OutboxRow)
    → outbox.row j ≡ none
    → (not (c.in_session == session) || ltb c.message_seq seq) ≡ true
    → exists_earlier outbox js k c ≡ false
    → exists_earlier (add outbox j session seq now) js k c ≡ false
unfolding exists_earlier
exists-add outbox [] j session seq now k c fresh less clear = refl
exists-add outbox (x ∷ js) j session seq now k c fresh less clear =
    elim (Option-cases (outbox.row x)) [
      | inl absent ↦ ground (
        arith,
        eq_iff j x,
        eq_iff session c.in_session,
        eq_iff c.in_session session,
        exists-add outbox js j session seq now k c fresh less,
      )
      | inr (y, held) ↦ ground (
        arith,
        eq_iff j x,
        eq_iff session c.in_session,
        eq_iff c.in_session session,
        exists-add outbox js j session seq now k c fresh less,
      )
    ]

pub find_before :
    (outbox : Outbox) (js : List String) (session : String) (seq : ℕ) (k : String) (r : OutboxRow)
    → all_before outbox js session seq ≡ true
    → elem k js ≡ true
    → outbox.row k ≡ some r
    → (not (r.in_session == session) || ltb r.message_seq seq) ≡ true
find_before outbox [] session seq k r all named there = cc
find_before outbox (x ∷ js) session seq k r all named there = elim (Option-cases (outbox.row x)) [
  | inl absent ↦ ground (arith, eq_iff x k, find_before outbox js session seq k r)
  | inr (y, held) ↦ ground (arith, eq_iff x k, find_before outbox js session seq k r)
]

pub find-select :
    (outbox : Outbox) (now lease_ms : ℕ) (ks read : List String) (k : String)
    → elem k (select_candidates outbox now lease_ms ks ++ read) ≡ true
    → (candidate_at outbox now lease_ms k || elem k read) ≡ true
unfolding select_candidates
find-select outbox now lease_ms [] read k named = ground arith
find-select outbox now lease_ms (x ∷ ks) read k named =
    elim (Bool-cases (candidate_at outbox now lease_ms x)) [
      | inl does ↦ ground (arith, eq_iff x k, find-select outbox now lease_ms ks read k)
      | inr fails_it ↦ ground (arith, eq_iff x k, find-select outbox now lease_ms ks read k)
    ]

pub exists-clean :
    (outbox : Outbox) (before : ℕ) (js : List String) (k : String) (c : OutboxRow)
    → exists_earlier outbox js k c ≡ false
    → exists_earlier (cleanup_delivered outbox before) js k c ≡ false
unfolding exists_earlier cleanup_delivered
exists-clean outbox before [] k c clear = refl
exists-clean outbox before (x ∷ js) k c clear = elim (Option-cases (outbox.row x)) [
  | inl absent ↦ ground (arith, exists-clean outbox before js k c)
  | inr (y, held) ↦ elim (Option-cases y.delivered_at) [
    | inl waiting ↦ ground (arith, exists-clean outbox before js k c)
    | inr (t, sent) ↦ ground (arith, exists-clean outbox before js k c)
  ]
]

pub kept_was :
    (outbox : Outbox) (before : ℕ) (k : String) (r : OutboxRow)
    → (cleanup_delivered outbox before).row k ≡ some r
    → outbox.row k ≡ some r
unfolding cleanup_delivered
kept_was outbox before k r there = elim (Option-cases (outbox.row k)) [
  | inl absent ↦ ground arith
  | inr (y, held) ↦ elim (Option-cases y.delivered_at) [
    | inl waiting ↦ ground arith
    | inr (t, sent) ↦ ground arith
  ]
]
