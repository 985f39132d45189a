-- ===== src/KeyValue/Examples.antt =====
-- The theorems on batches at a store of one row, with a codec that keeps the text's bytes apart only
-- as far as the examples need.
use happy_server.Common.{
  String, none, some, List, [], ◌∷◌, arith, ◌≡◌, refl, ◌==◌, eq_iff, update, if◌then◌else◌, ℕ,
}
use happy_server.Common.Int.{pos, negsuc}
use happy_server.KeyValue.{
  Base64, Entry, Entries, Mutation, succeeded, refused, mismatches, kv_mutate, kv_get,
}
use happy_server.KeyValue.Mutations.{IsVersioned, current_batch_succeeds}
use happy_server.KeyValue.Reads.{read_after_write}

abbrev decode_text : String → List ℕ
decode_text t = if t == "AQ==" then 1 ∷ [] else []

abbrev encode_bytes : List ℕ → String
encode_bytes [] = ""
encode_bytes (b ∷ bs) = "AQ=="

abbrev codec : Base64
codec = record { encode = encode_bytes; decode = decode_text; from_base64 = decode_text }

abbrev row : Entry
row = record { value = some (1 ∷ []); version = pos 3 }

abbrev one_row : Entries
one_row = update (λ u k. none) "u" (update (λ k. none) "k" (some row))

one_row-IsVersioned : IsVersioned one_row "u"
one_row-IsVersioned k e there = ground (arith, eq_iff "k" k)

abbrev stale : List Mutation
stale = record { key = "k"; value = none; version = pos 2 } ∷ []

abbrev change_k : Mutation
change_k = record { key = "k"; value = none; version = pos 3 }

abbrev add_j : Mutation
add_j = record { key = "j"; value = some "AQ=="; version = negsuc 0 }

abbrev batch : List Mutation
batch = change_k ∷ add_j ∷ []

abbrev after_batch : Entries
after_batch = (current_batch_succeeds codec one_row "u" batch one_row-IsVersioned refl refl).0

stale_test :
    kv_mutate codec one_row "u" stale
    ≡ some (one_row, refused (record { key = "k"; version = pos 3; value = some "AQ==" } ∷ []))
unfolding kv_mutate mismatches
stale_test = refl

get_test :
    kv_get codec one_row "u" "k" ≡ some (record { key = "k"; value = "AQ=="; version = pos 3 })
unfolding kv_get
get_test = refl

current_batch_succeeds_example :
    kv_mutate codec one_row "u" batch
    ≡ some (
      after_batch,
      succeeded
          (current_batch_succeeds codec one_row "u" batch one_row-IsVersioned refl refl).1
          (current_batch_succeeds codec one_row "u" batch one_row-IsVersioned refl refl).2,
    )
current_batch_succeeds_example =
    (current_batch_succeeds codec one_row "u" batch one_row-IsVersioned refl refl).3

-- Key "j" was created and key "k" deleted.
read_after_write_example :
    kv_get codec
      (read_after_write codec one_row "u" batch one_row-IsVersioned refl refl refl).0
      "u"
      "j"
    ≡ some (record { key = "j"; value = "AQ=="; version = pos 0 })
read_after_write_example =
    (read_after_write codec one_row "u" batch one_row-IsVersioned refl refl refl).4 "j"
