-- ===== src/Cli.antt =====
-- Making a container of a file and a file of a container: the commands `containerize` and `assemble`
-- of cli/src/command.rs. The file's bytes are an argument and a result.
pub mod Pieces
pub mod RoundTrip
pub mod Opts
pub mod Commands
pub mod Exec
use Prim.Native.String.{◌++◌ as concat}
use storm_node.Base.{◌-◌, ℕ, zero, suc, String, Option, none, some, List, [], ◌∷◌, ◌++◌, length}
use storm_node.Base.Action.{Result, Action, pure, lift, ◌>>=◌, ◌>>◌, conv, expect}
use storm_node.Wire.{Bytes, ContainerId, ChunkId, Chunk, ContainerHeader, Container}
use storm_node.Rpc.Failure.{Error}
use storm_node.Errors.{EncodingError, StoreError}
use storm_node.World.{
  Platform, Sys, Request, table_container_headers, table_containers, table_chunks,
}
use storm_node.World.Effects.{store_call, retrieve_chunk}

-- Errors of the standard library and of the client of the LNP node, passed on unread.
abbrev pub IoError : Type 0
IoError = ℕ

abbrev pub LnpError : Type 0
LnpError = ℕ

pub data CliError : Type 0 where
  io : IoError → CliError
  storm : Error → CliError
  store : StoreError → CliError
  lnp : LnpError → CliError
  strict_encoding : EncodingError → CliError

-- `u24::MAX`
abbrev pub max_chunk : ℕ
max_chunk = 16777215

-- The rest of the data after a started piece, with the room that is left in it.
unfoldable pub pieces_from : ℕ → Bytes → Bytes → List Bytes
pieces_from room piece [] = piece ∷ []
pieces_from zero piece (b ∷ bytes) = piece ∷ pieces_from (max_chunk - 1) (b ∷ []) bytes
pieces_from (suc room) piece (b ∷ bytes) = pieces_from room (piece ++ b ∷ []) bytes

-- `data.chunks(u24::MAX)`
unfoldable pub pieces : Bytes → List Bytes
unfolding pieces_from
pieces [] = []
pieces (b ∷ bytes) = pieces_from (max_chunk - 1) (b ∷ []) bytes

abbrev pub unwrap_or_default : Option String → String
unwrap_or_default none = ""
unwrap_or_default (some text) = text

abbrev pub CliAction : Type 0 → Type 0
CliAction A = Action (Sys (Unit {0})) CliError A

module _ (p : Platform) where
  abbrev put : String → ℕ → Chunk → CliAction (Unit {0})
  put table id chunk = conv CliError.store (store_call p (Request.store table id chunk))

  abbrev to_chunk : Bytes → CliAction Chunk
  to_chunk bytes = conv CliError.strict_encoding (lift (p.chunk_try_from bytes))

  -- `push` of `MediumVec`, which may be full, is the argument.
  unfoldable pub store_pieces :
      (List ChunkId → ChunkId → Result EncodingError (List ChunkId))
      → List Bytes
      → List ChunkId
      → CliAction (List ChunkId)
  store_pieces push [] ids = pure ids
  store_pieces push (piece ∷ rest) ids = do
    chunk ← to_chunk piece
    put table_chunks (p.chunk_id chunk) chunk
    ids' ← conv CliError.strict_encoding (lift (push ids (p.chunk_id chunk)))
    store_pieces push rest ids'

  unfoldable pub store_parts : Container → CliAction ContainerId
  store_parts container = do
    header_bytes ← conv CliError.strict_encoding (lift (p.serialize_header container.header))
    header_chunk ← to_chunk header_bytes
    container_bytes ← conv CliError.strict_encoding (lift (p.serialize_container container))
    container_chunk ← to_chunk container_bytes
    put table_container_headers (p.container_id container) header_chunk
    put table_containers (p.container_id container) container_chunk
    pure (p.container_id container)

  unfoldable pub containerize :
      (List ChunkId → ChunkId → Result EncodingError (List ChunkId))
      → String
      → Option String
      → Bytes
      → CliAction ContainerId
  containerize push mime info bytes = do
    ids ← store_pieces push (pieces bytes) []
    store_parts (record {
      header = record {
        version = 0;
        mime = mime;
        info = unwrap_or_default info;
        size = length bytes;
      };
      chunks = ids;
    })

  unfoldable pub collect_chunks : List ChunkId → CliAction Bytes
  collect_chunks [] = pure []
  collect_chunks (id ∷ ids) = do
    found ← conv CliError.store (retrieve_chunk p table_chunks id)
    chunk ← expect found (concat "Chunk " (concat (p.chunk_id_text id) " is absent"))
    rest ← collect_chunks ids
    pure (chunk ++ rest)

  unfoldable pub assemble : ContainerId → CliAction Bytes
  assemble container_id = do
    found ← conv CliError.store (retrieve_chunk p table_containers container_id)
    container_chunk ← expect found "No container with the provided id"
    container ← conv CliError.strict_encoding (lift (p.deserialize_container container_chunk))
    collect_chunks container.chunks
