-- ===== src/Moderation/Types.antt =====
-- core/src/moderation/types.rs and config.rs: the entries of a node's moderation lists, the list that
-- nodes share, and the manager's configuration.
use open_broadcast_network.Prelude.{ℕ, String, Bool, Option, List}

pub record BlockEntry : Type 0 where
  pub peer_id : String
  pub reason : Option String
  pub blocked_at : ℕ

pub data FlagReason : Type 0 where
  spam : FlagReason
  inappropriate : FlagReason
  copyright : FlagReason
  abuse : FlagReason
  other : String → FlagReason

pub record FlagEntry : Type 0 where
  pub stream_id : String
  pub reason : FlagReason
  pub details : Option String
  pub reporter : Option String
  pub flagged_at : ℕ

pub record ModerationList : Type 0 where
  pub version : ℕ
  pub node_id : Option String
  pub created_at : ℕ
  pub blocked_peers : List BlockEntry
  pub whitelisted_peers : List String
  pub flagged_streams : List FlagEntry

pub record ModerationConfig : Type 0 where
  pub persistence_path : Option String
  pub auto_persist : Bool
  pub whitelist_only : Bool
