-- ===== src/Rpc/Removal.antt =====
-- The compare-delete of registrations, whoever else registers the same methods.
use happy_server.Common.{
  ℕ, String, Bool, false, ◌&&◌, ◌||◌, Option, none, some, List, [], ◌∷◌, arith, ◌≡◌, eq_iff,
  Option-cases, inl, inr, ◌==◌, if◌then◌else◌,
}
use happy_server.Rpc.{Platform, RpcRegistration, encode_target}
use happy_server.Rpc.Registry.{Redis, get, delete_current, unregister_many}

-- A value without the one text.
abbrev pub unless : Bool → Option String → Option String
unless gone none = none
unless gone (some v) = if gone then none else some v

abbrev pub holds_text : Option String → String → Bool
holds_text none t = false
holds_text (some v) t = v == t

-- Some registration of the list has this key and wrote this value.
abbrev pub wrote : Platform → List RpcRegistration → String → Option String → Bool
unfolding encode_target
wrote js [] key v = false
wrote js (r ∷ rs) key v =
    r.key == key && holds_text v (encode_target js r.target) || wrote js rs key v

get-delete_current :
    (redis : Redis) (now : ℕ) (k candidate key : String)
    → get (delete_current redis now k candidate).0 now key
      ≡ unless (k == key && holds_text (get redis now key) candidate) (get redis now key)
unfolding get delete_current
get-delete_current redis now k candidate key = elim (Option-cases (redis key)) [
  | inl missing ↦ ground (arith, eq_iff k key)
  | inr (e, found) ↦ ground (arith, eq_iff k key)
]

-- After a removal of registrations a key is as before, unless one of them has this key and wrote the
-- value that stood there: then it is gone.
pub unregister_many_exact :
    (js : Platform) (redis : Redis) (now : ℕ) (rs : List RpcRegistration) (key : String)
    → get (unregister_many js redis now rs).0 now key
      ≡ unless (wrote js rs key (get redis now key)) (get redis now key)
unfolding unregister_many
unregister_many_exact js redis now [] key = elim (Option-cases (get redis now key)) [
  | inl missing ↦ ground arith
  | inr (v, found) ↦ ground arith
]
unregister_many_exact js redis now (r ∷ rs) key =
    let redis' = (delete_current redis now r.key (encode_target js r.target)).0 in
    let first = get-delete_current redis now r.key (encode_target js r.target) key in
    let rest = unregister_many_exact js redis' now rs key in
    elim (Option-cases (get redis now key)) [
      | inl missing ↦ ground (arith, first, rest)
      | inr (v, found) ↦ ground (arith, first, rest)
    ]
