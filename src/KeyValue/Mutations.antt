-- ===== src/KeyValue/Mutations.antt =====
-- What `kvMutate` does to every row, and when it refuses a batch.
use happy_server.Common.{
  String, Bool, true, false, not, ◌&&◌, ◌||◌, Option, none, some, List, [], ◌∷◌, arith, ◌≡◌, refl,
  ◌∙◌, ◌==◌, eq_iff, eq_refl, if◌then◌else◌, Option-cases, inl, inr,
}
use happy_server.Common.Int.{ℤ, pos, negsuc, int_eq, add_one, int_eq_iff, add_one_differs}
use happy_server.KeyValue.{
  Base64, Entry, Entries, Mutation, KeyVersion, VersionMismatch, Change, succeeded, refused,
  current_version, put_entry, stored_value, mismatches, apply_one, apply_all, kv_mutate,
}

-- Whether the mutation names the version that the store holds, or -1 where it holds none.
abbrev pub is_current : Entries → String → Mutation → Bool
is_current kv uid m = int_eq (current_version (kv uid m.key)) m.version

abbrev pub all_current : Entries → String → List Mutation → Bool
all_current kv uid [] = true
all_current kv uid (m ∷ ms) = is_current kv uid m && all_current kv uid ms

abbrev pub find_mutation : String → List Mutation → Option Mutation
find_mutation k [] = none
find_mutation k (m ∷ ms) = if m.key == k then some m else find_mutation k ms

abbrev pub has_key : String → List Mutation → Bool
has_key k [] = false
has_key k (m ∷ ms) = m.key == k || has_key k ms

abbrev pub distinct_keys : List Mutation → Bool
distinct_keys [] = true
distinct_keys (m ∷ ms) = not (has_key m.key ms) && distinct_keys ms

abbrev is_pos : ℤ → Bool
is_pos (pos n) = true
is_pos (negsuc n) = false

is_pos-add_one : (v : ℤ) → is_pos v ≡ true → is_pos (add_one v) ≡ true
is_pos-add_one (pos n) h = refl
is_pos-add_one (negsuc n) h = cc

-- A key that no mutation has finds none; one that is found has the key.
find_none : (k : String) (ms : List Mutation) → has_key k ms ≡ false → find_mutation k ms ≡ none
find_none k [] h = refl
find_none k (m ∷ ms) h = ground (arith, find_none k ms)

pub key-find_mutation :
    (k : String) (ms : List Mutation) (m : Mutation) → find_mutation k ms ≡ some m → m.key ≡ k
key-find_mutation k [] m h = cc
key-find_mutation k (x ∷ ms) m h = ground (arith, eq_iff x.key k, key-find_mutation k ms m)

-- The versions of an account's stored rows are not negative.
abbrev pub IsVersioned : Entries → String → Type 0
IsVersioned kv uid = (k : String) (e : Entry) → kv uid k ≡ some e → is_pos e.version ≡ true

-- The row that a mutation writes.
abbrev pub row_after : Base64 → Entries → String → Mutation → Entry
row_after base64 kv uid m = elim (kv uid m.key) [
  | none ↦ record { value = stored_value base64 base64.from_base64 m.value; version = pos 0 }
  | some e ↦ record {
    value = stored_value base64 base64.decode m.value;
    version = add_one e.version;
  }
]

-- What a batch leaves at a key of an account.
abbrev pub written : Base64 → Entries → String → List Mutation → String → String → Option Entry
written base64 kv uid ms u k =
    if uid == u
    then elim (find_mutation k ms) [ none ↦ kv u k | some m ↦ some (row_after base64 kv uid m) ]
    else kv u k

module _ (base64 : Base64) where
  no_mismatch :
      (kv : Entries) (uid : String) (ms : List Mutation)
      → mismatches base64 kv uid ms ≡ []
      → all_current kv uid ms ≡ true
  unfolding mismatches
  no_mismatch kv uid [] h = refl
  no_mismatch kv uid (m ∷ ms) h = ground (arith, no_mismatch kv uid ms)

  current_no_mismatch :
      (kv : Entries) (uid : String) (ms : List Mutation)
      → all_current kv uid ms ≡ true
      → mismatches base64 kv uid ms ≡ []
  unfolding mismatches
  current_no_mismatch kv uid [] h = refl
  current_no_mismatch kv uid (m ∷ ms) h = ground (arith, current_no_mismatch kv uid ms)

  refuse_nonempty :
      (kv : Entries) (uid : String) (ms : List Mutation) (l : List VersionMismatch)
      → mismatches base64 kv uid ms ≡ l
      → all_current kv uid ms ≡ false
      → (e : VersionMismatch) × (es : List VersionMismatch) × (kv_mutate base64 kv uid ms
          ≡ some (kv, refused (e ∷ es)))
  unfolding kv_mutate
  refuse_nonempty kv uid ms [] h stale = absurd (ground (arith, no_mismatch kv uid ms h))
  refuse_nonempty kv uid ms (e ∷ es) h stale = (e, es, rw (h, kv_mutate) refl)

  -- A batch with a version that is not current is refused with at least one mismatch, and changes
  -- nothing.
  pub stale_batch_refused :
      (kv : Entries) (uid : String) (ms : List Mutation)
      → all_current kv uid ms ≡ false
      → (e : VersionMismatch) × (es : List VersionMismatch) × (kv_mutate base64 kv uid ms
          ≡ some (kv, refused (e ∷ es)))
  stale_batch_refused kv uid ms = refuse_nonempty kv uid ms (mismatches base64 kv uid ms) refl

  -- One mutation.
  apply_one_lem :
      (kv : Entries) (uid : String) (m : Mutation)
      → IsVersioned kv uid
      → is_current kv uid m ≡ true
      → apply_one base64 kv uid m
        ≡ some (
          put_entry kv uid m.key (row_after base64 kv uid m),
          (row_after base64 kv uid m).version,
        )
  unfolding apply_one
  apply_one_lem kv uid m v now = elim (Option-cases (kv uid m.key)) [
    | inl absent ↦ ground (arith, absent)
    | inr (e, there) ↦ ground (arith, v m.key e there, int_eq_iff e.version m.version)
  ]

  current-put :
      (kv : Entries) (uid k : String) (e : Entry) (ms : List Mutation)
      → has_key k ms ≡ false
      → all_current (put_entry kv uid k e) uid ms ≡ all_current kv uid ms
  unfolding put_entry
  current-put kv uid k e [] h = refl
  current-put kv uid k e (m ∷ ms) h =
      ground (arith, eq_refl uid, eq_iff m.key k, eq_iff k m.key, current-put kv uid k e ms)

  put-IsVersioned :
      (kv : Entries) (uid : String) (m : Mutation)
      → IsVersioned kv uid
      → IsVersioned (put_entry kv uid m.key (row_after base64 kv uid m)) uid
  unfolding put_entry
  put-IsVersioned kv uid m v k e there = elim (Option-cases (kv uid m.key)) [
    | inl absent ↦ ground (arith, eq_refl uid, eq_iff m.key k, v k e)
    | inr (old, held) ↦
        ground
          (arith, eq_refl uid, eq_iff m.key k, v k e, v m.key old held, is_pos-add_one old.version)
  ]

  written-put :
      (kv : Entries) (uid : String) (m : Mutation) (ms : List Mutation) (u k : String)
      → has_key m.key ms ≡ false
      → written base64 (put_entry kv uid m.key (row_after base64 kv uid m)) uid ms u k
        ≡ written base64 kv uid (m ∷ ms) u k
  unfolding put_entry
  written-put kv uid m ms u k fresh = elim (Option-cases (find_mutation k ms)) [
    | inl other ↦
        ground (arith, eq_iff uid u, eq_refl uid, eq_iff m.key k, find_none m.key ms fresh)
    | inr (x, found) ↦ ground (
      arith,
      eq_iff uid u,
      eq_refl uid,
      eq_iff m.key k,
      eq_iff m.key x.key,
      find_none m.key ms fresh,
      key-find_mutation k ms x found,
    )
  ]

  apply_all_lem :
      (kv : Entries) (uid : String) (ms : List Mutation)
      → IsVersioned kv uid
      → distinct_keys ms ≡ true
      → all_current kv uid ms ≡ true
      → (kv' : Entries) × (results : List KeyVersion) × (changes : List Change) × (apply_all base64
            kv uid ms
          ≡ some (kv', results, changes))
        × ((u k : String) → kv' u k ≡ written base64 kv uid ms u k)
  unfolding apply_all
  apply_all_lem kv uid [] v d c = (kv, [], [], refl, λ u k. ground arith)
  apply_all_lem kv uid (m ∷ ms) v d c =
      let fresh : has_key m.key ms ≡ false = ground arith in
      let mid : Entries = put_entry kv uid m.key (row_after base64 kv uid m) in
      let (kv', results, changes, done, rows) =
        apply_all_lem mid uid ms (put-IsVersioned kv uid m v) (ground arith)
          (current-put kv uid m.key (row_after base64 kv uid m) ms fresh ∙ ground arith) in
      (
        kv',
        record { key = m.key; version = (row_after base64 kv uid m).version } ∷ results,
        record { key = m.key; value = m.value; version = (row_after base64 kv uid m).version }
            ∷ changes,
        rw (apply_one_lem kv uid m v (ground arith), done, apply_all) refl,
        λ u k. rows u k ∙ written-put kv uid m ms u k fresh,
      )

  -- In an account whose stored versions are not negative, a batch of distinct keys, each with the
  -- current version, succeeds: each key gets its value under the next version (version 0 where it had
  -- no row), and every other row, of this account and of others, is as before.
  pub current_batch_succeeds :
      (kv : Entries) (uid : String) (ms : List Mutation)
      → IsVersioned kv uid
      → distinct_keys ms ≡ true
      → all_current kv uid ms ≡ true
      → (kv' : Entries) × (results : List KeyVersion) × (changes : List Change) × (kv_mutate base64
            kv uid ms
          ≡ some (kv', succeeded results changes))
        × ((u k : String) → kv' u k ≡ written base64 kv uid ms u k)
  unfolding kv_mutate
  current_batch_succeeds kv uid ms v d c =
      let (kv', results, changes, done, rows) = apply_all_lem kv uid ms v d c in
      (kv', results, changes, rw (current_no_mismatch kv uid ms c, done, kv_mutate) refl, rows)

  next_differs :
      (kv : Entries) (uid : String) (m : Mutation)
      → is_current kv uid m ≡ true
      → int_eq (row_after base64 kv uid m).version m.version ≡ false
  next_differs kv uid m now = elim (Option-cases (kv uid m.key)) [
    | inl absent ↦ ground (arith, int_eq_iff (negsuc 0) m.version)
    | inr (e, there) ↦ ground (arith, int_eq_iff e.version m.version, add_one_differs e.version)
  ]

  stale_after :
      (kv kv' : Entries) (uid : String) (ms rest : List Mutation) (m m' : Mutation)
      → ((u k : String) → kv' u k ≡ written base64 kv uid ms u k)
      → find_mutation m.key ms ≡ some m
      → m'.key ≡ m.key
      → m'.version ≡ m.version
      → is_current kv uid m ≡ true
      → all_current kv' uid (m' ∷ rest) ≡ false
  stale_after kv kv' uid ms rest m m' rows found same again now =
      ground (arith, rows uid m.key, eq_refl uid, next_differs kv uid m now)

  -- Of two batches that name the same version of a key only one succeeds: after a batch as above that
  -- wrote the key, any batch that begins with that version of it is refused and changes nothing.
  pub one_writer_per_version :
      (kv kv' : Entries) (uid : String) (ms rest : List Mutation) (m m' : Mutation)
      (results : List KeyVersion) (changes : List Change)
      → IsVersioned kv uid
      → distinct_keys ms ≡ true
      → all_current kv uid ms ≡ true
      → kv_mutate base64 kv uid ms ≡ some (kv', succeeded results changes)
      → find_mutation m.key ms ≡ some m
      → m'.key ≡ m.key
      → m'.version ≡ m.version
      → is_current kv uid m ≡ true
      → (e : VersionMismatch) × (es : List VersionMismatch) × (kv_mutate base64 kv' uid (m' ∷ rest)
          ≡ some (kv', refused (e ∷ es)))
  one_writer_per_version kv kv' uid ms rest m m' results changes v d c first found same again now =
      let (kv'', results', changes', done, rows) = current_batch_succeeds kv uid ms v d c in
      let same_rows : kv'' ≡ kv' = cc in
      stale_batch_refused kv' uid (m' ∷ rest) (
        stale_after kv kv' uid ms rest m m' (λ u k. rw (← same_rows) (rows u k)) found same again
          now)
