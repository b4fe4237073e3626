-- ===== src/Moderation/Sharing.antt =====
-- core/src/moderation/manager.rs: a list that one manager exports and another imports, also by way of
-- a file.
use open_broadcast_network.Prelude.{
  ℕ, String, ◌||◌, some, List, [], ◌∷◌, any, map, ◌==◌, string_eq, ◌≡◌, refl, ap, sym, ◌∙◌, arith,
  Option-cases, inl, inr,
}
use mathlib.Core.Path.{subst}
use open_broadcast_network.Prelude.Maps.{contains, contains_key}
use open_broadcast_network.Prelude.Maps.Keys.{Entries, Entries-insert, Entries-remove}
use open_broadcast_network.Moderation.Types.{BlockEntry, ModerationConfig, ModerationList}
use open_broadcast_network.Moderation.Manager.{
  Storage, ModerationManager, done, insert_all, new, is_peer_allowed, is_stream_flagged,
  blocked_entries, import_list, export_list, save_to_file, load_from_file,
}
use open_broadcast_network.Moderation.History.{
  Op, block, unblock, allow, disallow, flag, unflag, imports, Call, call, saves, loads, run,
  load_from_file_cases, save_to_file_keeps,
}
use open_broadcast_network.Moderation.Changes.{
  any-append, contains_key-insert_all, contains-set_insert_all, blocked_next, step-blocked_peers,
}
use open_broadcast_network.Moderation.Answers.{run-Follows}

-- Every block entry stands under its own peer's id.
abbrev OwnKeys : List (String × BlockEntry) → Type 0
OwnKeys = Entries (λ k b. b.peer_id ≡ k)

OwnKeys-insert_all :
    (bs : List BlockEntry) (l : List (String × BlockEntry)) → OwnKeys l → OwnKeys (insert_all bs l)
unfolding insert_all
OwnKeys-insert_all [] l h = h
OwnKeys-insert_all (b ∷ bs) l h =
    OwnKeys-insert_all bs _ (Entries-insert (λ k b. b.peer_id ≡ k) b.peer_id b l refl h)

OwnKeys-blocked_next :
    (op : Op) (l : List (String × BlockEntry)) → OwnKeys l → OwnKeys (blocked_next op l)
OwnKeys-blocked_next (block p r now _) l h = Entries-insert (λ k b. b.peer_id ≡ k) p _ l refl h
OwnKeys-blocked_next (unblock p _) l h = Entries-remove (λ k b. b.peer_id ≡ k) p l h
OwnKeys-blocked_next (allow _ _) l h = h
OwnKeys-blocked_next (disallow _ _) l h = h
OwnKeys-blocked_next (flag _ _ _ _ _ _) l h = h
OwnKeys-blocked_next (unflag _ _) l h = h
OwnKeys-blocked_next (imports list) l h = OwnKeys-insert_all list.blocked_peers l h

any-entries :
    (p : String) (m : List (String × BlockEntry))
    → OwnKeys m
    → any (λ b. b.peer_id == p) (map (λ e. e.1) m) ≡ contains_key p m
unfolding contains_key
any-entries p [] h = refl
any-entries p ((k, b) ∷ m) (q, h) = ground (arith, q, any-entries p m h)

OwnKeys-import_list :
    {F : Type 0} (list : ModerationList) (m : ModerationManager F)
    → OwnKeys m.blocked_peers
    → OwnKeys (import_list list m).blocked_peers
unfolding import_list
OwnKeys-import_list list m h = OwnKeys-insert_all list.blocked_peers m.blocked_peers h

module _ {F : Type 0} (storage : Storage F) where
  run-OwnKeys :
      (config : ModerationConfig) (files : F) (calls : List Call)
      → OwnKeys (run storage config files calls).blocked_peers
  unfolding new
  run-OwnKeys config files [] = tt
  run-OwnKeys config files (call op ∷ calls) =
      subst OwnKeys (sym (step-blocked_peers storage op _))
        (OwnKeys-blocked_next op _ (run-OwnKeys config files calls))
  run-OwnKeys config files (saves path now ∷ calls) =
      rw (save_to_file_keeps storage path now (run storage config files calls)).1
        (run-OwnKeys config files calls)
  run-OwnKeys config files (loads path ∷ calls) =
      elim (load_from_file_cases storage path (run storage config files calls)) [
        | inl (none_there, same) ↦ rw same (run-OwnKeys config files calls)
        | inr (list, there, taken) ↦
            rw taken (OwnKeys-import_list list _ (run-OwnKeys config files calls))
      ]

  -- A manager that imports what another exported after any run of calls, imports and loads included,
  -- blocks the peers that either
  -- blocked, has on its whitelist those that either had, and flags the streams that either flagged;
  -- its configuration is its own.
  pub import_list-export_list :
      (config : ModerationConfig) (files : F) (calls : List Call) (now : ℕ)
      (n : ModerationManager F) (id : String)
      → let m = run storage config files calls in
        let both = import_list (export_list now m) n in
        (contains_key id both.blocked_peers
          ≡ (contains_key id m.blocked_peers || contains_key id n.blocked_peers))
        × (contains id both.whitelist ≡ (contains id m.whitelist || contains id n.whitelist))
        × (is_stream_flagged id both ≡ (is_stream_flagged id n || is_stream_flagged id m))
        × (both.config ≡ n.config)
  unfolding import_list export_list blocked_entries is_stream_flagged
  import_list-export_list config files calls now n id =
      let m = run storage config files calls in
      (
        contains_key-insert_all id (blocked_entries m) n.blocked_peers
            ∙ ap (λ b. b || contains_key id n.blocked_peers)
                (any-entries id m.blocked_peers (run-OwnKeys config files calls)),
        contains-set_insert_all id m.whitelist n.whitelist,
        any-append id n.flags m.flags,
        refl,
      )

  -- A new manager of the same configuration that imports the list answers as the first.
  fresh_answers :
      (config : ModerationConfig) (files f : F) (calls : List Call) (now : ℕ) (id : String)
      → let m = run storage config files calls in
        let copy = import_list (export_list now m) (new config f) in
        (is_peer_allowed id copy ≡ is_peer_allowed id m)
        × (is_stream_flagged id copy ≡ is_stream_flagged id m)
  unfolding is_peer_allowed new contains contains_key is_stream_flagged
  fresh_answers config files f calls now id =
      let both = import_list-export_list config files calls now (new config f) id in
      (
        ground (
          arith,
          both.0,
          both.1,
          ap (λ c. c.whitelist_only) both.3,
          ap (λ c. c.whitelist_only) ((run-Follows storage config files calls).same_config),
        ),
        both.2,
      )

  load_of_saved :
      ((l : ModerationList) (text : String)
        → storage.to_string_pretty l ≡ some text
        → storage.from_str text ≡ some l)
      → ((path text : String) (before after : F)
          → storage.write path text before ≡ some after
          → storage.read_to_string path after ≡ some text)
      → (m : ModerationManager F) (config : ModerationConfig) (path : String) (now : ℕ)
      → (save_to_file storage path now m).0 ≡ done
      → (f : F) × (load_from_file storage path
            (new config (save_to_file storage path now m).1.files)
          ≡ (done, import_list (export_list now m) (new config f)))
  unfolding save_to_file load_from_file new
  load_of_saved parses reads m config path now saved =
      elim (Option-cases (storage.to_string_pretty (export_list now m))) [
        | inl failed ↦ ground (arith, rw (failed, save_to_file) at saved)
        | inr (text, made) ↦ elim (Option-cases (storage.write path text m.files)) [
          | inl refused ↦ ground (arith, rw (made, refused, save_to_file) at saved)
          | inr (after, written) ↦ (
            after,
            rw (made, written, save_to_file)
                (load_of_text text after (reads path text m.files after written)
                  (parses (export_list now m) text made)),
          )
        ]
      ]
    where
      load_of_text :
          (text : String) (after : F)
          → storage.read_to_string path after ≡ some text
          → storage.from_str text ≡ some (export_list now m)
          → load_from_file storage path (new config after)
            ≡ (done, import_list (export_list now m) (new config after))
      load_of_text text after read parsed = rw (read, parsed, load_from_file) refl

  -- Where JSON reads back what it wrote and a file that was written is read back, saving a manager
  -- after any run of calls, imports and loads included, once it succeeds, lets a new manager of the same configuration load the
  -- file, and that one then answers every question as the first.
  pub save_to_file-load_from_file :
      ((l : ModerationList) (text : String)
        → storage.to_string_pretty l ≡ some text
        → storage.from_str text ≡ some l)
      → ((path text : String) (before after : F)
          → storage.write path text before ≡ some after
          → storage.read_to_string path after ≡ some text)
      → (config : ModerationConfig) (files : F) (calls : List Call) (path : String) (now : ℕ)
      → (save_to_file storage path now (run storage config files calls)).0 ≡ done
      → let m = run storage config files calls in
        let loaded =
          load_from_file storage path (new config (save_to_file storage path now m).1.files) in
        (loaded.0 ≡ done)
        × ((id : String) → is_peer_allowed id loaded.1 ≡ is_peer_allowed id m)
        × ((id : String) → is_stream_flagged id loaded.1 ≡ is_stream_flagged id m)
  save_to_file-load_from_file parses reads config files calls path now saved =
      let loaded =
        load_of_saved parses reads (run storage config files calls) config path now saved in
      let same = fresh_answers config files loaded.0 calls now in
      (
        ap (λ r. r.0) loaded.1,
        (λ id. ap (λ r. is_peer_allowed id r.1) loaded.1 ∙ (same id).0),
        (λ id. ap (λ r. is_stream_flagged id r.1) loaded.1 ∙ (same id).1),
      )
