-- ===== src/Wire.antt =====
-- The data of the crates that the node is built on (`storm`, `lnp2p`, `microservices`), as far as
-- the node's own sources take it apart or build it. Identifiers are hashes, public keys and 64-bit
-- numbers that are only compared and passed on, so they are numbers here; what is passed on unread
-- is bytes. A variant that no source names is `other`.
use storm_node.Base.{ℕ, String, ◌≡◌, ◌↔◌, Bool, true, false, Option, List, arith, nat_beq, Key}

abbrev pub Bytes : Type 0
Bytes = List ℕ

abbrev pub NodeId : Type 0
NodeId = ℕ

abbrev pub ClientId : Type 0
ClientId = ℕ

abbrev pub DaemonId : Type 0
DaemonId = ℕ

abbrev pub ContainerId : Type 0
ContainerId = ℕ

abbrev pub ChunkId : Type 0
ChunkId = ℕ

abbrev pub MesgId : Type 0
MesgId = ℕ

abbrev pub Chunk : Type 0
Chunk = Bytes

abbrev pub Topic : Type 0
Topic = Bytes

pub data BifrostApp : Type 0 where
  storm : BifrostApp
  other : ℕ → BifrostApp

pub data StormApp : Type 0 where
  chat file_transfer : StormApp
  other : ℕ → StormApp

abbrev pub app_beq : StormApp → StormApp → Bool
app_beq StormApp.chat StormApp.chat = true
app_beq StormApp.file_transfer StormApp.file_transfer = true
app_beq (StormApp.other n) (StormApp.other m) = nat_beq n m
app_beq _ _ = false

pub app_beq_iff : (a b : StormApp) → (app_beq a b ≡ true) ↔ (a ≡ b)
app_beq_iff a b = ground arith

instance abbrev pub app_eq : Key StormApp
app_eq = record { same = app_beq; same_iff = app_beq_iff }

pub record ContainerFullId : Type 0 where
  pub message_id : MesgId
  pub container_id : ContainerId

pub record ContainerHeader : Type 0 where
  pub version : ℕ
  pub mime : String
  pub info : String
  pub size : ℕ

pub record Container : Type 0 where
  pub header : ContainerHeader
  pub chunks : List ChunkId

pub record ContainerInfo : Type 0 where
  pub header : ContainerHeader
  pub id : ContainerFullId

pub record Mesg : Type 0 where
  pub parent_id : Option MesgId
  pub body : Bytes
  pub container_ids : List ContainerId

-- `data` of the crate is `content`.
pub record AppMsg (T : Type 0) : Type 0 where
  pub app : StormApp
  pub content : T

pub record ChunkPull : Type 0 where
  pub app : StormApp
  pub message_id : MesgId
  pub container_id : ContainerId
  pub chunk_ids : List ChunkId

pub record ChunkPush : Type 0 where
  pub app : StormApp
  pub container_id : ContainerId
  pub chunk_id : ChunkId
  pub chunk : Chunk

-- `storm::p2p::Messages`
pub data Messages : Type 0 where
  list_apps : Messages
  active_apps : List StormApp → Messages
  list_topics : AppMsg (Unit {0}) → Messages
  app_topics : AppMsg (List MesgId) → Messages
  propose_topic : AppMsg Topic → Messages
  post : AppMsg Mesg → Messages
  read : AppMsg MesgId → Messages
  decline : AppMsg MesgId → Messages
  accept : AppMsg MesgId → Messages
  announce_container : AppMsg ContainerInfo → Messages
  pull_container : AppMsg ContainerFullId → Messages
  push_container : AppMsg Container → Messages
  reject : AppMsg Bytes → Messages
  pull_chunk : ChunkPull → Messages
  push_chunk : ChunkPush → Messages

-- `bifrost::Messages`
pub data LnMsg : Type 0 where
  message : BifrostApp → Bytes → LnMsg
  other : Bytes → LnMsg
