-- ===== src/Outbox/Examples.antt =====
-- The theorems on the outbox at one session, and tests.
use happy_server.Common.{false, none, some, List, [], ◌∷◌, arith, ◌≡◌, refl}
use happy_server.Outbox.{Outbox, exists_earlier, is_candidate, select_candidates, update_row, claim}
use happy_server.Outbox.Steps.{OutboxStep, adds, selects, claims, delivers, outbox_run, new_row}
use happy_server.Outbox.Order.{InOrder, outbox_run-InOrder}
use happy_server.Outbox.Claims.{claim_excludes}

abbrev empty_outbox : Outbox
empty_outbox = record { ids = []; row = λ k. none }

empty_outbox-InOrder : InOrder empty_outbox []
unfolding exists_earlier
empty_outbox-InOrder = record { heads = λ k r there was. refl; covered = λ k r there. ground arith }

-- Two messages of a session; the second is read only after the first was delivered.
abbrev deliveries : List OutboxStep
deliveries =
    adds "a" "s" 1 10
    ∷ adds "b" "s" 2 10
    ∷ selects 20 5
    ∷ claims 20 5 "a" "t"
    ∷ claims 20 5 "b" "t"
    ∷ delivers "a" "t" 21
    ∷ selects 22 5
    ∷ []

deliveries_test : (outbox_run (empty_outbox, []) deliveries).1 ≡ "b" ∷ "a" ∷ []
unfolding outbox_run select_candidates is_candidate exists_earlier update_row
deliveries_test = refl

outbox_run-InOrder_example :
    InOrder
      (outbox_run (empty_outbox, []) deliveries).0
      (outbox_run (empty_outbox, []) deliveries).1
outbox_run-InOrder_example = outbox_run-InOrder empty_outbox [] deliveries empty_outbox-InOrder

abbrev one_notice : Outbox
one_notice = record { ids = "a" ∷ []; row = λ k. some (new_row "s" 1 10) }

abbrev claimed_notice : Outbox
unfolding update_row
claimed_notice = (claim one_notice 20 5 "a" "t").0

claim_excludes_example : claim claimed_notice 24 5 "a" "u" ≡ (claimed_notice, false)
unfolding update_row
claim_excludes_example =
    (claim_excludes one_notice claimed_notice "a" "t" "u" "late" 20 24 5 30 refl refl
      (omega arith)).0
