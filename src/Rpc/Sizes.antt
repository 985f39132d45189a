-- ===== src/Rpc/Sizes.antt =====
-- The number of registrations, and what each operation on the map does to it.
use happy_server.Common.{
  ◌+◌, ◌≤◌, String, Bool, true, false, not, ◌&&◌, some, List, [], ◌∷◌, arith, ◌≡◌, refl, Bool-cases,
  eq_refl, ◌==◌, if◌then◌else◌, sql_eq,
}
use happy_server.Rpc.{RpcRegistration}
use happy_server.Rpc.MethodMap.{
  size, map_get, map_set, map_delete, is_empty, drop_lost, drop_one, generation_at, Map,
}

pub size-map_delete : (m : Map) (k : String) → size (map_delete m k) ≤ size m
unfolding map_delete size
size-map_delete [] k = ground arith
size-map_delete ((j, r) ∷ m) k = ground (arith, size-map_delete m k)

size-either : (b : Bool) (m n : Map) → size n ≤ size m → size (if b then n else m) ≤ size m
size-either true m n fewer = fewer
size-either false m n fewer = ground arith

size-drop_one :
    (m : Map) (k : String) (r : RpcRegistration) (current : Bool)
    → size (drop_one m k r current) ≤ size m
unfolding drop_one
size-drop_one m k r current =
    size-either (not current && sql_eq (generation_at m k) r.target.generation) m (map_delete m k)
      (size-map_delete m k)

pub size-drop_lost :
    (m snapshot : Map) (results : List Bool) → size (drop_lost m snapshot results) ≤ size m
unfolding drop_lost
size-drop_lost m [] results = ground arith
size-drop_lost m ((k, r) ∷ snapshot) [] = ground arith
size-drop_lost m ((k, r) ∷ snapshot) (current ∷ results) =
    ground
      (arith, size-drop_lost (drop_one m k r current) snapshot results, size-drop_one m k r current)

pub size-map_set : (m : Map) (k : String) (r : RpcRegistration) → size (map_set m k r) ≤ size m + 1
unfolding map_set size
size-map_set [] k r = ground arith
size-map_set ((j, q) ∷ m) k r = ground (arith, size-map_set m k r)

pub size-map_set_present :
    (m : Map) (k : String) (q r : RpcRegistration)
    → map_get m k ≡ some q
    → size (map_set m k r) ≡ size m
unfolding map_set size map_get
size-map_set_present [] k q r there = ground arith
size-map_set_present ((j, p) ∷ m) k q r there =
    ground (arith, Bool-cases (j == k), size-map_set_present m k q r)

pub is_empty-map_set :
    (m : Map) (k : String) (r : RpcRegistration) → is_empty (map_set m k r) ≡ false
unfolding map_set
is_empty-map_set [] k r = refl
is_empty-map_set ((j, q) ∷ m) k r = ground arith

pub is_empty-map_get :
    (m : Map) (k : String) (r : RpcRegistration) → map_get m k ≡ some r → is_empty m ≡ false
unfolding map_get
is_empty-map_get [] k r there = ground arith
is_empty-map_get ((j, q) ∷ m) k r there = refl

pub map_get-map_set :
    (m : Map) (k : String) (r : RpcRegistration) → map_get (map_set m k r) k ≡ some r
unfolding map_get map_set
map_get-map_set [] k r = ground (arith, eq_refl k)
map_get-map_set ((j, q) ∷ m) k r = ground (arith, map_get-map_set m k r, eq_refl k)
