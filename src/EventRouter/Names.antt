-- ===== src/EventRouter/Names.antt =====
-- When two room names are the same text.
use Prim.Native.String.{◌++◌}
use Prim.Native.Char.{Char, code}
use text.Mathlib.TextLemmas.{
  append_cancel_left, append_assoc, cons-append, nil-append, head-eq_of_cons-eq, tail-eq_of_cons-eq,
}
use happy_server.Common.{
  String, Bool, true, false, ◌&&◌, ◌||◌, ◌==◌, eq_iff, eq_refl, nat_eq, arith, ◌≡◌, refl, ap, ◌∙◌,
  sym, Bool-cases, inl, inr,
}
use happy_server.EventRouter.{account_room, session_scope, lease_scope, machine_scope}

abbrev pub has_colon : String → Bool
has_colon String.[] = false
has_colon (String.◌∷◌ c s) = nat_eq (code c) b':' || has_colon s

colon_head :
    (c : Char) (v a b : String)
    → has_colon (String.◌∷◌ c v) ≡ false
    → ":" ++ a ≡ String.◌∷◌ c v ++ b
    → ⊥
colon_head c v a b clear same =
    let heads : ":" ≡ c =
      head-eq_of_cons-eq (sym (cons-append ":" "" a) ∙ same ∙ cons-append c v b) in
    let codes : code ":" ≡ code c = ap code heads in ground (arith, codes)

-- Texts without a colon before the first colon are the same if the whole texts are.
pub colon_split :
    (u v a b : String)
    → has_colon u ≡ false
    → has_colon v ≡ false
    → u ++ (":" ++ a) ≡ v ++ (":" ++ b)
    → (u ≡ v) × (a ≡ b)
colon_split String.[] String.[] a b hu hv same =
    (refl, append_cancel_left ":" a b (sym (nil-append (":" ++ a)) ∙ same ∙ nil-append (":" ++ b)))
colon_split String.[] (String.◌∷◌ c v) a b hu hv same =
    absurd (colon_head c v a (":" ++ b) hv (sym (nil-append (":" ++ a)) ∙ same))
colon_split (String.◌∷◌ c u) String.[] a b hu hv same =
    absurd (colon_head c u b (":" ++ a) hu (sym (nil-append (":" ++ b)) ∙ sym same))
colon_split (String.◌∷◌ c u) (String.◌∷◌ d v) a b hu hv same =
    let both = sym (cons-append c u (":" ++ a)) ∙ same ∙ cons-append d v (":" ++ b) in
    let (us, bs) = colon_split u v a b (ground arith) (ground arith) (tail-eq_of_cons-eq both) in
    (ap (λ s. String.◌∷◌ c s) us ∙ ap (λ x. String.◌∷◌ x v) (head-eq_of_cons-eq both), bs)

-- Tests on texts that share a beginning, or differ in the first character.
prefix_test : (p a b : String) → (p ++ a == p ++ b) ≡ (a == b)
prefix_test p a b = ground (arith, eq_iff (p ++ a) (p ++ b), eq_iff a b, append_cancel_left p a b)

differ_test :
    (c d : Char) (v w a b : String)
    → nat_eq (code c) (code d) ≡ false
    → (String.◌∷◌ c v ++ a == String.◌∷◌ d w ++ b) ≡ false
differ_test c d v w a b apart = elim (Bool-cases (String.◌∷◌ c v ++ a == String.◌∷◌ d w ++ b)) [
  | inr no_match ↦ no_match
  | inl match ↦
      let whole = (eq_iff (String.◌∷◌ c v ++ a) (String.◌∷◌ d w ++ b)).0 match in
      let heads : c ≡ d =
        head-eq_of_cons-eq (sym (cons-append c v a) ∙ whole ∙ cons-append d w b) in
      let codes : code c ≡ code d = ap code heads in ground (arith, codes)
]

has_colon-append : (s b : String) → has_colon (s ++ (":" ++ b)) ≡ true
has_colon-append String.[] b = rw (nil-append (":" ++ b), cons-append ":" "" b) refl
has_colon-append (String.◌∷◌ c s) b =
    rw (cons-append c s (":" ++ b)) (ground (arith, has_colon-append s b))

-- Two rooms of one user are the same exactly if their scopes are.
pub room_test : (u a b : String) → (account_room u a == account_room u b) ≡ (a == b)
unfolding account_room
room_test u a b =
    prefix_test "account:" (u ++ (":" ++ a)) (u ++ (":" ++ b))
    ∙ prefix_test u (":" ++ a) (":" ++ b)
    ∙ prefix_test ":" a b

-- No room is shared by two users whose identifiers have no colon.
pub room_other_user :
    (u v a b : String)
    → has_colon u ≡ false
    → has_colon v ≡ false
    → (u == v) ≡ false
    → (account_room u a == account_room v b) ≡ false
unfolding account_room
room_other_user u v a b hu hv apart = elim (Bool-cases (account_room u a == account_room v b)) [
  | inr no_match ↦ no_match
  | inl match ↦
      let whole = (eq_iff (account_room u a) (account_room v b)).0 match in
      let same : u ≡ v =
        (colon_split u v a b hu hv
          (append_cancel_left "account:" (u ++ (":" ++ a)) (v ++ (":" ++ b)) whole)).0 in
      ground (arith, eq_iff u v)
]

pub user-session : (s : String) → ("user" == session_scope s) ≡ false
user-session s = differ_test "u" "s" "ser" "ession:" "" s refl

pub user-lease : (s l : String) → ("user" == lease_scope s l) ≡ false
user-lease s l = differ_test "u" "s" "ser" "ession:" "" (s ++ (":runtime-lease:" ++ l)) refl

pub user-machine : (m : String) → ("user" == machine_scope m) ≡ false
user-machine m = differ_test "u" "m" "ser" "achine:" "" m refl

pub session-all : (s : String) → (session_scope s == "all") ≡ false
session-all s = differ_test "s" "a" "ession:" "ll" s "" refl

pub machine-all : (m : String) → (machine_scope m == "all") ≡ false
machine-all m = differ_test "m" "a" "achine:" "ll" m "" refl

pub session-machine : (s m : String) → (session_scope s == machine_scope m) ≡ false
session-machine s m = differ_test "s" "m" "ession:" "achine:" s m refl

pub machine-session : (m s : String) → (machine_scope m == session_scope s) ≡ false
machine-session m s = differ_test "m" "s" "achine:" "ession:" m s refl

pub machine-lease : (m s l : String) → (machine_scope m == lease_scope s l) ≡ false
machine-lease m s l = differ_test "m" "s" "achine:" "ession:" m (s ++ (":runtime-lease:" ++ l)) refl

pub session-session : (s t : String) → (session_scope s == session_scope t) ≡ (s == t)
session-session s t = prefix_test "session:" s t

pub machine-machine : (m n : String) → (machine_scope m == machine_scope n) ≡ (m == n)
machine-machine m n = prefix_test "machine:" m n

-- A session identifier without a colon names no lease's scope.
pub session-lease :
    (t s l : String) → has_colon t ≡ false → (session_scope t == lease_scope s l) ≡ false
session-lease t s l clear =
    prefix_test "session:" t (s ++ (":runtime-lease:" ++ l))
    ∙ (elim (Bool-cases (t == s ++ (":runtime-lease:" ++ l))) [
      | inr no_match ↦ no_match
      | inl match ↦
          let whole = (eq_iff t (s ++ (":runtime-lease:" ++ l))).0 match in
          let colon : has_colon (s ++ (":runtime-lease:" ++ l)) ≡ true =
            rw (append_assoc ":" "runtime-lease:" l) (has_colon-append s ("runtime-lease:" ++ l)) in
          ground (arith, colon, ap has_colon whole)
    ])

pub lease-lease :
    (s l t m : String)
    → has_colon s ≡ false
    → has_colon t ≡ false
    → (lease_scope s l == lease_scope t m) ≡ (s == t && l == m)
lease-lease s l t m hs ht =
    prefix_test "session:" (s ++ (":runtime-lease:" ++ l)) (t ++ (":runtime-lease:" ++ m))
    ∙ (elim (Bool-cases (s == t)) [
      | inl same ↦
          let s_is : s ≡ t = (eq_iff s t).0 same in
          rw s_is (
            prefix_test t (":runtime-lease:" ++ l) (":runtime-lease:" ++ m)
            ∙ prefix_test ":runtime-lease:" l m
            ∙ ground (arith, eq_refl t))
      | inr other ↦
          elim (Bool-cases (s ++ (":runtime-lease:" ++ l) == t ++ (":runtime-lease:" ++ m))) [
            | inr no_match ↦ ground (arith, no_match)
            | inl match ↦
                let whole : s ++ (":runtime-lease:" ++ l) ≡ t ++ (":runtime-lease:" ++ m) =
                  (eq_iff (s ++ (":runtime-lease:" ++ l)) (t ++ (":runtime-lease:" ++ m))).0
                    match in
                let split : s ++ (":" ++ ("runtime-lease:" ++ l))
                    ≡ t ++ (":" ++ ("runtime-lease:" ++ m)) =
                  rw (← append_assoc ":" "runtime-lease:" l, ← append_assoc ":" "runtime-lease:" m)
                    whole in
                let s_is : s ≡ t =
                  (colon_split s t ("runtime-lease:" ++ l) ("runtime-lease:" ++ m) hs ht split).0 in
                ground (arith, eq_iff s t)
          ]
    ])

pub lease-user : (s l : String) → (lease_scope s l == "user") ≡ false
lease-user s l = differ_test "s" "u" "ession:" "ser" (s ++ (":runtime-lease:" ++ l)) "" refl

pub lease-all : (s l : String) → (lease_scope s l == "all") ≡ false
lease-all s l = differ_test "s" "a" "ession:" "ll" (s ++ (":runtime-lease:" ++ l)) "" refl

pub lease-machine : (s l m : String) → (lease_scope s l == machine_scope m) ≡ false
lease-machine s l m = differ_test "s" "m" "ession:" "achine:" (s ++ (":runtime-lease:" ++ l)) m refl

-- A lease's scope is no plain session's, where that session's identifier has no colon.
pub lease-session :
    (s l t : String) → has_colon t ≡ false → (lease_scope s l == session_scope t) ≡ false
lease-session s l t clear =
    let other = session-lease t s l clear in
    ground (
      arith,
      eq_iff (lease_scope s l) (session_scope t),
      eq_iff (session_scope t) (lease_scope s l),
    )
