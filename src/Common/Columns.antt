-- ===== src/Common/Columns.antt =====
-- Nullable columns, as SQL and TypeScript test them, and tables as functions of their key.
use Prim.Native.Nat.{ℕ}
use Prim.Native.String.{String}
use mathlib.Core.Path.{◌≡◌, ap}
use mathlib.Core.Bool.{Bool, true, false, not}
use mathlib.Core.Option.{Option, none, some}
use text.Mathlib.Text.{◌==◌}
use text.Mathlib.TextEquality.{eq_iff}
use happy_server.Common.Tests.{leb, ltb, if◌then◌else◌}

abbrev pub is_null {ℓ} : {A : Type ℓ} → Option A → Bool
is_null none = true
is_null (some a) = false

-- `column = value`, which is not true of NULL; `column === value` in TypeScript.
abbrev pub sql_eq : Option String → String → Bool
sql_eq none s = false
sql_eq (some t) s = t == s

-- `column = column`, which is true of two values only.
abbrev pub sql_eq_column : Option String → Option String → Bool
sql_eq_column c none = false
sql_eq_column c (some s) = sql_eq c s

-- `column IS DISTINCT FROM column`, which treats NULL as a value.
abbrev pub sql_distinct : Option String → Option String → Bool
sql_distinct none none = false
sql_distinct none (some s) = true
sql_distinct (some s) none = true
sql_distinct (some s) (some t) = not (s == t)

-- `column <= value` and `column > value`, neither true of NULL.
abbrev pub sql_le : Option ℕ → ℕ → Bool
sql_le none n = false
sql_le (some m) n = leb m n

abbrev pub sql_gt : Option ℕ → ℕ → Bool
sql_gt none n = false
sql_gt (some m) n = ltb n m

-- A nullable text that TypeScript tests by `x ? … : …`: the empty text is false too.
abbrev pub truthy : Option String → Option String
truthy none = none
truthy (some s) = if s == "" then none else some s

-- A table is a function of its primary key; `update` writes one row.
abbrev pub update {ℓ} : {A : Type ℓ} → (String → A) → String → A → String → A
update f k v j = if k == j then v else f j

-- A nullable column that equals a value holds it.
pub eq_some_of_sql_eq : (c : Option String) (s : String) → sql_eq c s ≡ true → c ≡ some s
eq_some_of_sql_eq none s h = cc
eq_some_of_sql_eq (some t) s h = ap some ((eq_iff t s).0 h)
