-- ===== src/Artifacts/Examples.antt =====
-- The theorems on artifacts at one artifact of the account "u", and tests.
use happy_server.Common.{String, false, none, some, [], ◌∷◌, ◌≡◌, refl, update}
use happy_server.KeyValue.{Base64}
use happy_server.Publishing.{Outbound}
use happy_server.Artifacts.{Artifact, ArtifactTable, PlannedUpdate, find_artifact}
use happy_server.Artifacts.Socket.{
  Context, failure, write_update, artifact_read, artifact_update, updated,
}
use happy_server.Artifacts.Updates.{one_update_wins, part_at, two_parts_one_seq, route_update_lost}
use happy_server.Artifacts.Ownership.{foreign_artifact_kept}

abbrev codec : Base64
codec = record { encode = λ bs. "AQ=="; decode = λ t. 1 ∷ []; from_base64 = λ t. 1 ∷ [] }

abbrev context : Context
context = record { now = 9; update_id = "update"; base64 = codec }

abbrev stored : Artifact
stored = record {
  account_id = "u";
  header = [];
  header_version = 4;
  body = [];
  body_version = 2;
  data_encryption_key = [];
  seq = 5;
  created_at = 1;
  updated_at = 1;
}

abbrev one_artifact : ArtifactTable
one_artifact = update (λ k. none) "a" (some stored)

abbrev counted : Outbound
counted = record { account_seq = λ k. some 3; emitted = [] }

abbrev header_plan : String → PlannedUpdate
header_plan content = record {
  artifact_id = "a";
  user_id = "u";
  header_part = part_at content 4;
  body_part = none;
  next_seq = 6;
  now = 9;
}

update_test :
    (artifact_update context one_artifact counted "u" (record {
      artifact_id = "a";
      header = some (record { content = some "AQ=="; expected_version = some 4 });
      body = none;
    })).2
    ≡ updated (part_at "AQ==" 5) none
unfolding artifact_update
update_test = refl

one_update_wins_example :
    write_update codec (write_update codec one_artifact (header_plan "AQ==")).0 (header_plan "Ag==")
    ≡ ((write_update codec one_artifact (header_plan "AQ==")).0, false)
unfolding write_update
one_update_wins_example =
    one_update_wins codec one_artifact (header_plan "AQ==") (header_plan "Ag==") refl refl

found : find_artifact one_artifact "a" "u" ≡ some stored
unfolding find_artifact
found = refl

two_parts_one_seq_example :
    (two_parts_one_seq context context one_artifact "a" "u" stored "AQ==" "Ag==" found).2.seq ≡ 6
two_parts_one_seq_example =
    (two_parts_one_seq context context one_artifact "a" "u" stored "AQ==" "Ag==" found).11

route_update_lost_example :
    (route_update_lost context context one_artifact counted "a" "u" "AQ==" "Ag==" stored 3 found
      refl).6.header_version
    ≡ 5
route_update_lost_example =
    (route_update_lost context context one_artifact counted "a" "u" "AQ==" "Ag==" stored 3 found
      refl).13

foreign_artifact_kept_example :
    artifact_read context one_artifact "v" "a" ≡ failure "Artifact not found"
foreign_artifact_kept_example =
    (foreign_artifact_kept context one_artifact counted "v" "a" stored refl refl one_artifact
      (record (header_plan "AQ==") { user_id = "v" })
      (record { id = "a"; header = none; body = none; data_encryption_key = none }) "a" refl refl).3
