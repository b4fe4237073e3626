-- ===== src/Moderation/History.antt =====
-- core/src/moderation/manager.rs: runs of the manager, and what its answers are after one.
use open_broadcast_network.Prelude.{
  ℕ, String, Bool, true, false, ◌||◌, Option, none, some, List, [], ◌∷◌, any, ◌⊎◌, if◌then◌else◌,
  ◌==◌, string_eq, ◌≡◌, refl, Bool-cases, Option-cases, inl, inr,
}
use open_broadcast_network.Prelude.Maps.{contains}
use open_broadcast_network.Moderation.Types.{FlagReason, ModerationList, ModerationConfig}
use open_broadcast_network.Moderation.Manager.{
  Storage, ModerationManager, new, maybe_persist, save_to_file, load_from_file, import_list,
  export_list, block_peer, unblock_peer, whitelist_peer, remove_whitelist, flag_stream,
  unflag_stream,
}

-- The calls that change the lists.
pub data Op : Type 0 where
  block : String → Option String → ℕ → ℕ → Op
  unblock : String → ℕ → Op
  allow : String → ℕ → Op
  disallow : String → ℕ → Op
  flag : String → FlagReason → Option String → Option String → ℕ → ℕ → Op
  unflag : String → ℕ → Op
  imports : ModerationList → Op

-- Every call that changes the manager: those, and saving its lists to a file and loading a file.
pub data Call : Type 0 where
  call : Op → Call
  saves : String → ℕ → Call
  loads : String → Call

module _ {F : Type 0} (storage : Storage F) where
  abbrev pub step : Op → ModerationManager F → ModerationManager F
  step (block p r now saved) m = block_peer storage p r now saved m
  step (unblock p saved) m = (unblock_peer storage p saved m).1
  step (allow p saved) m = whitelist_peer storage p saved m
  step (disallow p saved) m = (remove_whitelist storage p saved m).1
  step (flag s r d w now saved) m = flag_stream storage s r d w now saved m
  step (unflag s saved) m = (unflag_stream storage s saved m).1
  step (imports list) m = import_list list m

  -- A run, the latest call first.
  abbrev pub run : ModerationConfig → F → List Call → ModerationManager F
  run config files [] = new config files
  run config files (call op ∷ calls) = step op (run config files calls)
  run config files (saves path now ∷ calls) =
      (save_to_file storage path now (run config files calls)).1
  run config files (loads path ∷ calls) = (load_from_file storage path (run config files calls)).1

  -- The list that a file holds, if it can be read as one.
  abbrev pub list_in : String → F → Option ModerationList
  list_in path files = elim (storage.read_to_string path files) [
    | none ↦ none
    | some text ↦ storage.from_str text
  ]

  -- What a run did to the lists: a file that was loaded counts as an import of the list that it held
  -- at that time, and a file that held none, like a save, as nothing.
  abbrev pub history : ModerationConfig → F → List Call → List Op
  history config files [] = []
  history config files (call op ∷ calls) = op ∷ history config files calls
  history config files (saves path now ∷ calls) = history config files calls
  history config files (loads path ∷ calls) = elim (list_in path (run config files calls).files) [
    | none ↦ history config files calls
    | some list ↦ imports list ∷ history config files calls
  ]

  -- Loading a file changes nothing, or imports the list that it holds.
  pub load_from_file_cases :
      (path : String) (m : ModerationManager F)
      → ((list_in path m.files ≡ none) × ((load_from_file storage path m).1 ≡ m))
        ⊎ ((list : ModerationList) × (list_in path m.files ≡ some list)
            × ((load_from_file storage path m).1 ≡ import_list list m))
  unfolding load_from_file
  load_from_file_cases path m = elim (Option-cases (storage.read_to_string path m.files)) [
    | inl absent ↦ inl (rw (absent, list_in) refl, rw (absent, load_from_file) refl)
    | inr (text, there) ↦ elim (Option-cases (storage.from_str text)) [
      | inl malformed ↦
          inl (rw (there, malformed, list_in) refl, rw (there, malformed, load_from_file) refl)
      | inr (list, parsed) ↦
          inr (list, rw (there, parsed, list_in) refl, rw (there, parsed, load_from_file) refl)
    ]
  ]

  -- Saving changes the file system only.
  pub save_to_file_keeps :
      (path : String) (now : ℕ) (m : ModerationManager F)
      → (f : F) × ((save_to_file storage path now m).1 ≡ record m { files = f })
  unfolding save_to_file
  save_to_file_keeps path now m =
      elim (Option-cases (storage.to_string_pretty (export_list now m))) [
        | inl failed ↦ (m.files, rw (failed, save_to_file) refl)
        | inr (text, made) ↦ elim (Option-cases (storage.write path text m.files)) [
          | inl refused ↦ (m.files, rw (made, refused, save_to_file) refl)
          | inr (files, written) ↦ (files, rw (made, written, save_to_file) refl)
        ]
      ]

  pub maybe_persist_keeps :
      (now : ℕ) (m : ModerationManager F)
      → (f : F) × (maybe_persist storage now m ≡ record m { files = f })
  unfolding maybe_persist
  maybe_persist_keeps now m = elim (Bool-cases m.config.auto_persist) [
    | inr off ↦ (m.files, simp off)
    | inl on ↦ elim (Option-cases m.config.persistence_path) [
      | inl no_path ↦ (m.files, simp (on, no_path))
      | inr (path, has_path) ↦
          let kept = save_to_file_keeps path now m in (kept.0, simp (on, has_path, kept.1))
    ]
  ]

  -- Behind a test too.
  pub maybe_persist_if_keeps :
      (test : Bool) (now : ℕ) (m : ModerationManager F)
      → (f : F) × ((if test then maybe_persist storage now m else m) ≡ record m { files = f })
  maybe_persist_if_keeps true now m = maybe_persist_keeps now m
  maybe_persist_if_keeps false now m = (m.files, refl)

-- Whether the latest call about a peer blocked it, an import of a list that blocks it included.
abbrev pub blocked_after : String → List Op → Bool
blocked_after p [] = false
blocked_after p (block q _ _ _ ∷ ops) = if q == p then true else blocked_after p ops
blocked_after p (unblock q _ ∷ ops) = if q == p then false else blocked_after p ops
blocked_after p (imports list ∷ ops) =
    any (λ b. b.peer_id == p) list.blocked_peers || blocked_after p ops
blocked_after p (_ ∷ ops) = blocked_after p ops

-- Whether the latest call about a peer's place on the whitelist put it there, an import included.
abbrev pub whitelisted_after : String → List Op → Bool
whitelisted_after p [] = false
whitelisted_after p (allow q _ ∷ ops) = if q == p then true else whitelisted_after p ops
whitelisted_after p (disallow q _ ∷ ops) = if q == p then false else whitelisted_after p ops
whitelisted_after p (imports list ∷ ops) =
    contains p list.whitelisted_peers || whitelisted_after p ops
whitelisted_after p (_ ∷ ops) = whitelisted_after p ops

-- Whether a stream was flagged, by a call or by an import, since its flags were last removed.
abbrev pub flagged_after : String → List Op → Bool
flagged_after s [] = false
flagged_after s (flag z _ _ _ _ _ ∷ ops) = if z == s then true else flagged_after s ops
flagged_after s (unflag z _ ∷ ops) = if z == s then false else flagged_after s ops
flagged_after s (imports list ∷ ops) =
    any (λ f. f.stream_id == s) list.flagged_streams || flagged_after s ops
flagged_after s (_ ∷ ops) = flagged_after s ops
