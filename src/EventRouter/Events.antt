-- ===== src/EventRouter/Events.antt =====
-- The payloads of sources/app/events/eventRouter.ts and the functions that build them. The time of a
-- payload is an argument, and so is the base64 encoding of bytes. The update of an account's profile
-- is left out.
use happy_server.Common.{ℕ, String, Bool, false, Option, none, some, List}
use happy_server.Common.Int.{ℤ}
use happy_server.Common.Json.{JsonValue}

-- `{ value, version }`.
pub record Versioned {ℓ} (A : Type ℓ) : Type ℓ where
  pub value : A
  pub version : ℕ

pub record SessionColumns : Type 0 where
  pub id : String
  pub seq : ℕ
  pub metadata : String
  pub metadata_version : ℕ
  pub agent_state : Option String
  pub agent_state_version : ℕ
  pub data_encryption_key : Option (List ℕ)
  pub active : Bool
  pub last_active_at : ℕ
  pub created_at : ℕ
  pub updated_at : ℕ

pub record MachineColumns : Type 0 where
  pub id : String
  pub seq : ℕ
  pub metadata : String
  pub metadata_version : ℕ
  pub daemon_state : Option String
  pub daemon_state_version : ℕ
  pub data_encryption_key : Option (List ℕ)
  pub active : Bool
  pub last_active_at : ℕ
  pub created_at : ℕ
  pub updated_at : ℕ

pub record ArtifactColumns : Type 0 where
  pub id : String
  pub seq : ℕ
  pub header : List ℕ
  pub header_version : ℕ
  pub body : List ℕ
  pub body_version : ℕ
  pub data_encryption_key : List ℕ
  pub created_at : ℕ
  pub updated_at : ℕ

pub record NewSession : Type 0 where
  pub id : String
  pub seq : ℕ
  pub metadata : String
  pub metadata_version : ℕ
  pub agent_state : Option String
  pub agent_state_version : ℕ
  pub data_encryption_key : Option String
  pub active : Bool
  pub active_at : ℕ
  pub created_at : ℕ
  pub updated_at : ℕ

pub record NewMachine : Type 0 where
  pub machine_id : String
  pub seq : ℕ
  pub metadata : String
  pub metadata_version : ℕ
  pub daemon_state : Option String
  pub daemon_state_version : ℕ
  pub data_encryption_key : Option String
  pub active : Bool
  pub active_at : ℕ
  pub created_at : ℕ
  pub updated_at : ℕ

pub record NewArtifact : Type 0 where
  pub artifact_id : String
  pub seq : ℕ
  pub header : String
  pub header_version : ℕ
  pub body : String
  pub body_version : ℕ
  pub data_encryption_key : String
  pub created_at : ℕ
  pub updated_at : ℕ

pub record MessageColumns : Type 0 where
  pub id : String
  pub seq : ℕ
  pub content : JsonValue
  pub local_id : Option String
  pub created_at : ℕ
  pub updated_at : ℕ

pub record FeedPost : Type 0 where
  pub id : String
  pub body : JsonValue
  pub cursor : String
  pub created_at : ℕ

pub record RelationshipNews : Type 0 where
  pub uid : String
  pub status : String
  pub timestamp : ℕ

pub record KeyChange : Type 0 where
  pub key : String
  pub value : Option String
  pub version : ℤ

-- The body of an update; the constructor is its `t`.
pub data UpdateBody : Type 0 where
  new_session : NewSession → UpdateBody
  new_message : String → MessageColumns → UpdateBody
  update_session :
      String → Option (Versioned String) → Option (Versioned (Option String)) → UpdateBody
  delete_session : String → UpdateBody
  new_machine : NewMachine → UpdateBody
  update_machine : String → Option (Versioned String) → Option (Versioned String) → UpdateBody
  new_artifact : NewArtifact → UpdateBody
  update_artifact : String → Option (Versioned String) → Option (Versioned String) → UpdateBody
  delete_artifact : String → UpdateBody
  relationship_updated : RelationshipNews → UpdateBody
  new_feed_post : FeedPost → UpdateBody
  kv_batch_update : List KeyChange → UpdateBody

pub record UpdatePayload : Type 0 where
  pub id : String
  pub seq : ℕ
  pub body : UpdateBody
  pub created_at : ℕ

pub data EphemeralPayload : Type 0 where
  activity : String → Bool → ℕ → Bool → EphemeralPayload
  machine_activity : String → Bool → ℕ → EphemeralPayload
  usage : String → String → JsonValue → JsonValue → ℕ → EphemeralPayload
  machine_status : String → Bool → ℕ → EphemeralPayload

abbrev key_text : (List ℕ → String) → Option (List ℕ) → Option String
key_text to_base64 none = none
key_text to_base64 (some bytes) = some (to_base64 bytes)

abbrev payload : ℕ → ℕ → String → UpdateBody → UpdatePayload
payload now update_seq update_id body = record {
  id = update_id;
  seq = update_seq;
  body = body;
  created_at = now;
}

unfoldable pub build_new_session_update :
    (List ℕ → String) → ℕ → SessionColumns → ℕ → String → UpdatePayload
build_new_session_update to_base64 now s update_seq update_id = payload now update_seq update_id (
    new_session (record {
      id = s.id;
      seq = s.seq;
      metadata = s.metadata;
      metadata_version = s.metadata_version;
      agent_state = s.agent_state;
      agent_state_version = s.agent_state_version;
      data_encryption_key = key_text to_base64 s.data_encryption_key;
      active = s.active;
      active_at = s.last_active_at;
      created_at = s.created_at;
      updated_at = s.updated_at;
    }))

unfoldable pub build_new_message_update : ℕ → MessageColumns → String → ℕ → String → UpdatePayload
build_new_message_update now m session_id update_seq update_id =
    payload now update_seq update_id (new_message session_id m)

unfoldable pub build_update_session_update :
    ℕ
    → String
    → ℕ
    → String
    → Option (Versioned String)
    → Option (Versioned (Option String))
    → UpdatePayload
build_update_session_update now session_id update_seq update_id metadata agent_state =
    payload now update_seq update_id (update_session session_id metadata agent_state)

unfoldable pub build_delete_session_update : ℕ → String → ℕ → String → UpdatePayload
build_delete_session_update now session_id update_seq update_id =
    payload now update_seq update_id (delete_session session_id)

unfoldable pub build_new_machine_update :
    (List ℕ → String) → ℕ → MachineColumns → ℕ → String → UpdatePayload
build_new_machine_update to_base64 now m update_seq update_id = payload now update_seq update_id (
    new_machine (record {
      machine_id = m.id;
      seq = m.seq;
      metadata = m.metadata;
      metadata_version = m.metadata_version;
      daemon_state = m.daemon_state;
      daemon_state_version = m.daemon_state_version;
      data_encryption_key = key_text to_base64 m.data_encryption_key;
      active = m.active;
      active_at = m.last_active_at;
      created_at = m.created_at;
      updated_at = m.updated_at;
    }))

unfoldable pub build_update_machine_update :
    ℕ → String → ℕ → String → Option (Versioned String) → Option (Versioned String) → UpdatePayload
build_update_machine_update now machine_id update_seq update_id metadata daemon_state =
    payload now update_seq update_id (update_machine machine_id metadata daemon_state)

unfoldable pub build_new_artifact_update :
    (List ℕ → String) → ℕ → ArtifactColumns → ℕ → String → UpdatePayload
build_new_artifact_update to_base64 now a update_seq update_id = payload now update_seq update_id (
    new_artifact (record {
      artifact_id = a.id;
      seq = a.seq;
      header = to_base64 a.header;
      header_version = a.header_version;
      body = to_base64 a.body;
      body_version = a.body_version;
      data_encryption_key = to_base64 a.data_encryption_key;
      created_at = a.created_at;
      updated_at = a.updated_at;
    }))

unfoldable pub build_update_artifact_update :
    ℕ → String → ℕ → String → Option (Versioned String) → Option (Versioned String) → UpdatePayload
build_update_artifact_update now artifact_id update_seq update_id header body =
    payload now update_seq update_id (update_artifact artifact_id header body)

unfoldable pub build_delete_artifact_update : ℕ → String → ℕ → String → UpdatePayload
build_delete_artifact_update now artifact_id update_seq update_id =
    payload now update_seq update_id (delete_artifact artifact_id)

unfoldable pub build_relationship_updated_event : ℕ → RelationshipNews → ℕ → String → UpdatePayload
build_relationship_updated_event now news update_seq update_id =
    payload now update_seq update_id (relationship_updated news)

unfoldable pub build_new_feed_post_update : ℕ → FeedPost → ℕ → String → UpdatePayload
build_new_feed_post_update now post update_seq update_id =
    payload now update_seq update_id (new_feed_post post)

unfoldable pub build_kv_batch_update_update : ℕ → List KeyChange → ℕ → String → UpdatePayload
build_kv_batch_update_update now changes update_seq update_id =
    payload now update_seq update_id (kv_batch_update changes)

-- `thinking || false`.
abbrev or_false : Option Bool → Bool
or_false none = false
or_false (some b) = b

unfoldable pub build_session_activity_ephemeral : String → Bool → ℕ → Option Bool → EphemeralPayload
build_session_activity_ephemeral session_id active active_at thinking =
    activity session_id active active_at (or_false thinking)

unfoldable pub build_machine_activity_ephemeral : String → Bool → ℕ → EphemeralPayload
build_machine_activity_ephemeral machine_id active active_at =
    machine_activity machine_id active active_at

unfoldable pub build_usage_ephemeral :
    ℕ → String → String → JsonValue → JsonValue → EphemeralPayload
build_usage_ephemeral now session_id key tokens cost = usage session_id key tokens cost now

unfoldable pub build_machine_status_ephemeral : ℕ → String → Bool → EphemeralPayload
build_machine_status_ephemeral now machine_id online = machine_status machine_id online now
