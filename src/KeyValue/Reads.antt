-- ===== src/KeyValue/Reads.antt =====
-- What `kvGet` reads after `kvMutate`.
use happy_server.Common.{
  String, Bool, true, ◌&&◌, Option, none, some, List, [], ◌∷◌, arith, ◌≡◌, ◌∙◌, ◌==◌, eq_iff,
  eq_refl, if◌then◌else◌, Option-cases, Bool-cases, inl, inr, is_null, truthy,
}
use happy_server.Common.Int.{ℤ, pos, add_one}
use happy_server.KeyValue.{
  Base64, Entry, Entries, Mutation, KeyVersion, Change, KeyValueRead, succeeded, kv_mutate, kv_get,
}
use happy_server.KeyValue.Mutations.{
  IsVersioned, distinct_keys, all_current, find_mutation, key-find_mutation, row_after,
  current_batch_succeeds,
}

abbrev pub next_version : Option Entry → ℤ
next_version none = pos 0
next_version (some e) = add_one e.version

module _ (base64 : Base64) where
  -- The encoding restores the value of a mutation that creates its row, or of one that updates it.
  abbrev pub is_restored : Entries → String → Mutation → Bool
  is_restored kv uid m = elim (truthy m.value) [
    | none ↦ true
    | some t ↦
        if is_null (kv uid m.key)
        then base64.encode (base64.from_base64 t) == t
        else base64.encode (base64.decode t) == t
  ]

  abbrev pub all_restored : Entries → String → List Mutation → Bool
  all_restored kv uid [] = true
  all_restored kv uid (m ∷ ms) = is_restored kv uid m && all_restored kv uid ms

  -- What a reader expects at a key after a batch: the text that was sent, or nothing where the key was
  -- deleted, and what was there before where the batch has not the key.
  abbrev pub expected_read : Entries → String → List Mutation → String → Option KeyValueRead
  expected_read kv uid ms k = elim (find_mutation k ms) [
    | none ↦ kv_get base64 kv uid k
    | some m ↦ elim (truthy m.value) [
      | none ↦ none
      | some t ↦ some (record { key = k; value = t; version = next_version (kv uid k) })
    ]
  ]

  restored-find_mutation :
      (kv : Entries) (uid k : String) (ms : List Mutation) (m : Mutation)
      → find_mutation k ms ≡ some m
      → all_restored kv uid ms ≡ true
      → is_restored kv uid m ≡ true
  restored-find_mutation kv uid k [] m found all = cc
  restored-find_mutation kv uid k (x ∷ ms) m found all = elim (Bool-cases (x.key == k)) [
    | inl here ↦
        let same : some x ≡ some m = (ground (arith, here, found)) in
        let same' : x ≡ m = cc in rw (← same') (ground arith)
    | inr later ↦ restored-find_mutation kv uid k ms m (ground (arith, later)) (ground arith)
  ]

  read_row :
      (kv kv' : Entries) (uid k : String) (m : Mutation)
      → kv' uid k ≡ some (row_after base64 kv uid m)
      → m.key ≡ k
      → is_restored kv uid m ≡ true
      → kv_get base64 kv' uid k ≡ (elim (truthy m.value) [
        | none ↦ none
        | some t ↦ some (record { key = k; value = t; version = next_version (kv uid k) })
      ])
  unfolding kv_get
  read_row kv kv' uid k m row at restored = elim (Option-cases (truthy m.value)) [
    | inl deleted ↦ elim (Option-cases (kv uid m.key)) [
      | inl absent ↦ ground (arith, row, deleted, absent)
      | inr (e, there) ↦ ground (arith, row, deleted, there)
    ]
    | inr (t, sent) ↦ elim (Option-cases (kv uid m.key)) [
      | inl absent ↦
          ground (arith, row, sent, absent, eq_iff (base64.encode (base64.from_base64 t)) t)
      | inr (e, there) ↦
          ground (arith, row, sent, there, eq_iff (base64.encode (base64.decode t)) t)
    ]
  ]

  -- After a batch of distinct keys, each with the current version, in an account whose stored versions
  -- are not negative, whose texts the encoding restores: the batch has succeeded, and every key of the
  -- account reads as follows. A key with a text that is not empty returns that text under its next
  -- version (version 0 where the batch created it), a key that the batch deleted or to which it sent
  -- the empty text is not found, and any other key reads as before.
  pub read_after_write :
      (kv : Entries) (uid : String) (ms : List Mutation)
      → IsVersioned kv uid
      → distinct_keys ms ≡ true
      → all_current kv uid ms ≡ true
      → all_restored kv uid ms ≡ true
      → (kv' : Entries) × (results : List KeyVersion) × (changes : List Change) × (kv_mutate base64
            kv uid ms
          ≡ some (kv', succeeded results changes))
        × ((k : String) → kv_get base64 kv' uid k ≡ expected_read kv uid ms k)
  unfolding kv_get
  read_after_write kv uid ms v d c restored =
      let (kv', results, changes, done, rows) = current_batch_succeeds base64 kv uid ms v d c in
      (
        kv',
        results,
        changes,
        done,
        λ k. elim (Option-cases (find_mutation k ms)) [
          | inl other ↦ ground (arith, rows uid k, other, eq_refl uid)
          | inr (m, found) ↦
              let row : kv' uid k ≡ some (row_after base64 kv uid m) =
                rows uid k ∙ ground (arith, found, eq_refl uid) in
              rw (found, expected_read)
                (read_row kv kv' uid k m row (key-find_mutation k ms m found)
                  (restored-find_mutation kv uid k ms m found restored))
        ],
      )
