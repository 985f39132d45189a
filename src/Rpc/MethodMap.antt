-- ===== src/Rpc/MethodMap.antt =====
-- The map from methods to registrations and the set of methods that a lifecycle keeps.
use happy_server.Common.{
  ℕ, ◌+◌, String, Bool, true, false, not, ◌&&◌, ◌||◌, Option, none, some, List, [], ◌∷◌,
  if◌then◌else◌, sql_eq, ◌==◌,
}
use happy_server.Rpc.{RpcRegistration}

abbrev pub Map : Type 0
Map = List (String × RpcRegistration)

unfoldable pub map_get : Map → String → Option RpcRegistration
map_get [] k = none
map_get ((j, r) ∷ m) k = if j == k then some r else map_get m k

unfoldable pub map_set : Map → String → RpcRegistration → Map
map_set [] k r = (k, r) ∷ []
map_set ((j, q) ∷ m) k r = let rest = map_set m k r in if j == k then (j, r) ∷ m else (j, q) ∷ rest

unfoldable pub map_delete : Map → String → Map
map_delete [] k = []
map_delete ((j, q) ∷ m) k = let rest = map_delete m k in if j == k then rest else (j, q) ∷ rest

unfoldable pub size : Map → ℕ
size [] = 0
size (e ∷ m) = size m + 1

unfoldable pub values : Map → List RpcRegistration
values [] = []
values ((j, r) ∷ m) = r ∷ values m

abbrev pub set_delete : List String → String → List String
set_delete [] k = []
set_delete (j ∷ js) k = let rest = set_delete js k in if j == k then rest else j ∷ rest

abbrev pub set_has : List String → String → Bool
set_has [] k = false
set_has (j ∷ js) k = j == k || set_has js k

abbrev pub is_empty : Map → Bool
is_empty [] = true
is_empty (e ∷ m) = false

unfoldable pub generation_at : Map → String → Option String
unfolding map_get
generation_at m k = elim (map_get m k) [ none ↦ none | some r ↦ some r.target.generation ]

unfoldable pub drop_one : Map → String → RpcRegistration → Bool → Map
unfolding map_delete generation_at
drop_one m k r current =
    if not current && sql_eq (generation_at m k) r.target.generation then map_delete m k else m

-- Each registration of the snapshot that is no longer current is dropped.
unfoldable pub drop_lost : Map → Map → List Bool → Map
unfolding drop_one
drop_lost m [] results = m
drop_lost m ((k, r) ∷ snapshot) [] = m
drop_lost m ((k, r) ∷ snapshot) (current ∷ results) =
    drop_lost (drop_one m k r current) snapshot results

abbrev pub all_lost : Map → List Bool
all_lost [] = []
all_lost (e ∷ m) = false ∷ all_lost m
