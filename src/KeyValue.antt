-- ===== src/KeyValue.antt =====
-- sources/app/kv/kvMutate.ts and kvGet.ts: the versioned key-value store of an account. The base64
-- functions of the libraries are parameters, and `none` stands for a thrown database error, after
-- which the transaction rolls back.
pub mod Mutations
pub mod Reads
mod Examples
use happy_server.Common.{
  ℕ, String, Bool, true, false, not, Option, none, some, List, [], ◌∷◌, if◌then◌else◌, update,
  truthy,
}
use happy_server.Common.Int.{ℤ, pos, negsuc, int_eq, add_one}

-- Bytes are numbers below 256; `decode` is `decodeBase64`, `from_base64` is `Buffer.from`.
pub record Base64 : Type 0 where
  pub encode : List ℕ → String
  pub decode : String → List ℕ
  pub from_base64 : String → List ℕ

-- The model `UserKVStore`; a deleted entry has no value.
pub record Entry : Type 0 where
  pub value : Option (List ℕ)
  pub version : ℤ

-- The rows of an account, then of a key.
abbrev pub Entries : Type 0
Entries = String → String → Option Entry

pub record Mutation : Type 0 where
  pub key : String
  pub value : Option String
  pub version : ℤ

pub record KeyVersion : Type 0 where
  pub key : String
  pub version : ℤ

pub record VersionMismatch : Type 0 where
  pub key : String
  pub version : ℤ
  pub value : Option String

pub record Change : Type 0 where
  pub key : String
  pub value : Option String
  pub version : ℤ

-- `{ success: true, results }`, with the changes that are announced after the commit, and
-- `{ success: false, errors }`.
pub data MutateResult : Type 0 where
  succeeded : List KeyVersion → List Change → MutateResult
  refused : List VersionMismatch → MutateResult

pub record KeyValueRead : Type 0 where
  pub key : String
  pub value : String
  pub version : ℤ

-- `existing?.version ?? -1`.
abbrev pub current_version : Option Entry → ℤ
current_version none = negsuc 0
current_version (some e) = e.version

unfoldable pub put_entry : Entries → String → String → Entry → Entries
put_entry kv uid key e = update kv uid (update (kv uid) key (some e))

module _ (base64 : Base64) where
  abbrev pub encode_value : Option (List ℕ) → Option String
  encode_value none = none
  encode_value (some bytes) = some (base64.encode bytes)

  abbrev current_value : Option Entry → Option String
  current_value none = none
  current_value (some e) = encode_value e.value

  -- The first loop.
  unfoldable pub mismatches : Entries → String → List Mutation → List VersionMismatch
  mismatches kv uid [] = []
  mismatches kv uid (m ∷ ms) =
      let rest = mismatches kv uid ms in
      if not (int_eq (current_version (kv uid m.key)) m.version)
      then record {
        key = m.key;
        version = current_version (kv uid m.key);
        value = current_value (kv uid m.key);
      }
        ∷ rest
      else rest

  -- The bytes that a mutation stores: `mutation.value ? … : null`.
  abbrev pub stored_value : (String → List ℕ) → Option String → Option (List ℕ)
  stored_value read value = elim (truthy value) [ none ↦ none | some t ↦ some (read t) ]

  -- `create`, which the unique key refuses where the row exists, and `update`, which fails where it
  -- does not.
  unfoldable pub apply_one : Entries → String → Mutation → Option (Entries × ℤ)
  unfolding put_entry
  apply_one kv uid m = elim (kv uid m.key) [
    | none ↦
        if int_eq m.version (negsuc 0)
        then some (
          put_entry kv uid m.key
              (record { value = stored_value base64.from_base64 m.value; version = pos 0 }),
          pos 0,
        )
        else none
    | some e ↦
        if int_eq m.version (negsuc 0)
        then none
        else some (
          put_entry kv uid m.key
              (record { value = stored_value base64.decode m.value; version = add_one m.version }),
          add_one m.version,
        )
  ]

  -- The second loop, with the results and the changes in the order of the mutations.
  unfoldable pub apply_all :
      Entries → String → List Mutation → Option (Entries × List KeyVersion × List Change)
  apply_all kv uid [] = some (kv, [], [])
  apply_all kv uid (m ∷ ms) = elim (apply_one kv uid m) [
    | none ↦ none
    | some (kv', version) ↦ elim (apply_all kv' uid ms) [
      | none ↦ none
      | some (kv'', results, changes) ↦ some (
        kv'',
        record { key = m.key; version = version } ∷ results,
        record { key = m.key; value = m.value; version = version } ∷ changes,
      )
    ]
  ]

  unfoldable pub kv_mutate : Entries → String → List Mutation → Option (Entries × MutateResult)
  kv_mutate kv uid mutations = elim (mismatches kv uid mutations) [
    | [] ↦ elim (apply_all kv uid mutations) [
      | none ↦ none
      | some (kv', results, changes) ↦ some (kv', succeeded results changes)
    ]
    | e ∷ es ↦ some (kv, refused (e ∷ es))
  ]

  unfoldable pub kv_get : Entries → String → String → Option KeyValueRead
  kv_get kv uid key = elim (kv uid key) [
    | none ↦ none
    | some e ↦ elim e.value [
      | none ↦ none
      | some bytes ↦ some (record { key = key; value = base64.encode bytes; version = e.version })
    ]
  ]
