-- ===== src/Moderation/Manager.antt =====
-- core/src/moderation/manager.rs: the lists of one node. The state is the manager's three lists with
-- the file system that it writes. Each lock is held for one operation, so an operation is one step.
-- A reading of the clock is an argument: `now` where the entry is made, `saved` where the list is
-- written. JSON and the file system are parameters.
use open_broadcast_network.Prelude.{
  ℕ, String, Bool, true, false, not, Option, none, some, List, [], ◌∷◌, ◌++◌, ◌-◌, length, keep,
  any, map, if◌then◌else◌, ltb, ◌==◌, string_eq,
}
use open_broadcast_network.Prelude.Maps.{
  contains, set_insert, set_remove, insert, remove, contains_key,
}
use open_broadcast_network.Moderation.Types.{
  BlockEntry, FlagReason, FlagEntry, ModerationList, ModerationConfig,
}

-- serde_json on a moderation list, and `std::fs`; a failure is `none`.
pub record Storage (F : Type 0) : Type 0 where
  pub to_string_pretty : ModerationList → Option String
  pub from_str : String → Option ModerationList
  pub read_to_string : String → F → Option String
  pub write : String → String → F → Option F

pub record ModerationManager (F : Type 0) : Type 0 where
  pub config : ModerationConfig
  pub blocked_peers : List (String × BlockEntry)
  pub whitelist : List String
  pub flags : List FlagEntry
  pub files : F

-- `Result<(), String>`, by the call that failed.
pub data FileResult : Type 0 where
  done : FileResult
  failed_to_read : FileResult
  failed_to_parse : FileResult
  failed_to_serialize : FileResult
  failed_to_write : FileResult

abbrev pub entry_of : BlockEntry → String × BlockEntry
entry_of b = (b.peer_id, b)

-- The loop of `import_list` over the blocked peers.
unfoldable pub insert_all :
    List BlockEntry → List (String × BlockEntry) → List (String × BlockEntry)
insert_all [] m = m
insert_all (b ∷ bs) m = insert_all bs (insert b.peer_id b m)

-- The loop of `import_list` over the whitelist.
unfoldable pub set_insert_all : List String → List String → List String
set_insert_all [] s = s
set_insert_all (p ∷ ps) s = set_insert_all ps (set_insert p s)

module _ {F : Type 0} where
  unfoldable pub new : ModerationConfig → F → ModerationManager F
  new config files = record {
    config = config;
    blocked_peers = [];
    whitelist = [];
    flags = [];
    files = files;
  }

  unfoldable pub is_peer_allowed : String → ModerationManager F → Bool
  is_peer_allowed peer_id m =
      if contains_key peer_id m.blocked_peers
      then false
      else (if m.config.whitelist_only then contains peer_id m.whitelist else true)

  unfoldable pub is_stream_flagged : String → ModerationManager F → Bool
  is_stream_flagged stream_id m = any (λ f. f.stream_id == stream_id) m.flags

  unfoldable pub blocked_entries : ModerationManager F → List BlockEntry
  blocked_entries m = map (λ e. e.1) m.blocked_peers

  unfoldable pub import_list : ModerationList → ModerationManager F → ModerationManager F
  import_list list m = record m {
    blocked_peers = insert_all list.blocked_peers m.blocked_peers;
    whitelist = set_insert_all list.whitelisted_peers m.whitelist;
    flags = m.flags ++ list.flagged_streams;
  }

  unfoldable pub export_list : ℕ → ModerationManager F → ModerationList
  unfolding blocked_entries
  export_list now m = record {
    version = 1;
    node_id = none;
    created_at = now;
    blocked_peers = blocked_entries m;
    whitelisted_peers = m.whitelist;
    flagged_streams = m.flags;
  }

  module _ (storage : Storage F) where
    unfoldable pub save_to_file :
        String → ℕ → ModerationManager F → FileResult × ModerationManager F
    save_to_file path now m = elim (storage.to_string_pretty (export_list now m)) [
      | none ↦ (failed_to_serialize, m)
      | some text ↦ elim (storage.write path text m.files) [
        | none ↦ (failed_to_write, m)
        | some files ↦ (done, record m { files = files })
      ]
    ]

    unfoldable pub load_from_file : String → ModerationManager F → FileResult × ModerationManager F
    load_from_file path m = elim (storage.read_to_string path m.files) [
      | none ↦ (failed_to_read, m)
      | some text ↦ elim (storage.from_str text) [
        | none ↦ (failed_to_parse, m)
        | some list ↦ (done, import_list list m)
      ]
    ]

    -- A failure is only logged.
    unfoldable pub maybe_persist : ℕ → ModerationManager F → ModerationManager F
    maybe_persist now m =
        if m.config.auto_persist
        then elim m.config.persistence_path [ none ↦ m | some path ↦ (save_to_file path now m).1 ]
        else m

    unfoldable pub block_peer :
        String → Option String → ℕ → ℕ → ModerationManager F → ModerationManager F
    block_peer peer_id reason now saved m = maybe_persist saved (record m {
      blocked_peers =
          insert peer_id (record { peer_id = peer_id; reason = reason; blocked_at = now })
            m.blocked_peers;
    })

    unfoldable pub unblock_peer : String → ℕ → ModerationManager F → Bool × ModerationManager F
    unblock_peer peer_id saved m =
        let removed = contains_key peer_id m.blocked_peers in
        let n = record m { blocked_peers = remove peer_id m.blocked_peers } in
        (removed, (if removed then maybe_persist saved n else n))

    unfoldable pub whitelist_peer : String → ℕ → ModerationManager F → ModerationManager F
    whitelist_peer peer_id saved m =
        maybe_persist saved (record m { whitelist = set_insert peer_id m.whitelist })

    unfoldable pub remove_whitelist : String → ℕ → ModerationManager F → Bool × ModerationManager F
    remove_whitelist peer_id saved m =
        let removed = contains peer_id m.whitelist in
        let n = record m { whitelist = set_remove peer_id m.whitelist } in
        (removed, (if removed then maybe_persist saved n else n))

    unfoldable pub flag_stream :
        String
        → FlagReason
        → Option String
        → Option String
        → ℕ
        → ℕ
        → ModerationManager F
        → ModerationManager F
    flag_stream stream_id reason details reporter now saved m = maybe_persist saved (record m {
      flags =
          m.flags
          ++ (record {
            stream_id = stream_id;
            reason = reason;
            details = details;
            reporter = reporter;
            flagged_at = now;
          }
              ∷ []);
    })

    unfoldable pub unflag_stream : String → ℕ → ModerationManager F → ℕ × ModerationManager F
    unflag_stream stream_id saved m =
        let kept = keep (λ f. not (f.stream_id == stream_id)) m.flags in
        let removed = length m.flags - length kept in
        let n = record m { flags = kept } in
        (removed, (if ltb 0 removed then maybe_persist saved n else n))
