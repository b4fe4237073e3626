-- ===== src/Moderation/Tests.antt =====
-- Runs of core/src/moderation/manager.rs on small inputs. The stand-in for JSON writes a list that
-- holds one whitelisted peer and nothing else, made at time 0, as that peer's id; the file system is
-- a map from paths to texts.
use open_broadcast_network.Prelude.{
  ℕ, String, true, not, ◌&&◌, ◌||◌, Option, none, some, List, [], ◌∷◌, ◌≡◌, refl, ◌==◌, nat_eq,
  string_eq, beq_refl, if◌then◌else◌, arith,
}
use open_broadcast_network.Prelude.Maps.{
  contains, contains_key, get, insert, set_insert, get-insert,
}
use open_broadcast_network.Moderation.Types.{
  BlockEntry, FlagEntry, ModerationList, ModerationConfig,
}
use open_broadcast_network.Moderation.Manager.{
  Storage, ModerationManager, done, new, is_peer_allowed, is_stream_flagged, import_list,
  export_list, save_to_file, load_from_file, blocked_entries, maybe_persist, whitelist_peer,
}
use open_broadcast_network.Moderation.History.{
  block, unblock, allow, imports, Call, call, saves, loads, run, history, blocked_after,
  whitelisted_after, flagged_after,
}
use open_broadcast_network.Moderation.Answers.{answers_follow_calls}
use open_broadcast_network.Moderation.Sharing.{import_list-export_list, save_to_file-load_from_file}

abbrev config : ModerationConfig
config = record { persistence_path = some "list.json"; auto_persist = true; whitelist_only = true }

abbrev one_peer : String → ModerationList
one_peer p = record {
  version = 1;
  node_id = none;
  created_at = 0;
  blocked_peers = [];
  whitelisted_peers = p ∷ [];
  flagged_streams = [];
}

abbrev encode :
    ℕ → Option String → ℕ → List BlockEntry → List String → List FlagEntry → Option String
encode v (some n) c b w f = none
encode v none c (_ ∷ _) w f = none
encode v none c [] [] f = none
encode v none c [] (p ∷ _ ∷ _) f = none
encode v none c [] (p ∷ []) (_ ∷ _) = none
encode v none c [] (p ∷ []) [] = if v == 1 && c == 0 then some p else none

abbrev storage : Storage (List (String × String))
storage = record {
  to_string_pretty = λ l.
      encode l.version l.node_id l.created_at l.blocked_peers l.whitelisted_peers l.flagged_streams;
  from_str = λ text. some (one_peer text);
  read_to_string = λ path files. get path files;
  write = λ path text files. some (insert path text files);
}

encode-one_peer :
    (v : ℕ) (n : Option String) (c : ℕ) (b : List BlockEntry) (w : List String) (f : List FlagEntry)
    (text : String)
    → encode v n c b w f ≡ some text
    → some (one_peer text)
      ≡ some (record {
        version = v;
        node_id = n;
        created_at = c;
        blocked_peers = b;
        whitelisted_peers = w;
        flagged_streams = f;
      })
encode-one_peer v (some n) c b w f text h = cc
encode-one_peer v none c (_ ∷ _) w f text h = cc
encode-one_peer v none c [] [] f text h = cc
encode-one_peer v none c [] (p ∷ _ ∷ _) f text h = cc
encode-one_peer v none c [] (p ∷ []) (_ ∷ _) text h = cc
encode-one_peer v none c [] (p ∷ []) [] text h = ground arith

read_of_written :
    (path text : String) (before after : List (String × String))
    → some (insert path text before) ≡ some after
    → get path after ≡ some text
read_of_written path text before after h =
    ground (arith, get-insert path path text before, beq_refl path)

abbrev recent_calls : List Call
recent_calls =
    loads "list.json" ∷ call (allow "p" 3) ∷ call (unblock "p" 2) ∷ call (block "p" none 1 1) ∷ []

abbrev shared_calls : List Call
shared_calls =
    call (block "p" none 1 1)
    ∷ call (imports (one_peer "q"))
    ∷ saves "other.json" 0
    ∷ loads "list.json"
    ∷ []

answers_follow_calls_example :
    let m = run storage config [] recent_calls in
    let ops = history storage config [] recent_calls in
    (is_peer_allowed "p" m
      ≡ (not (blocked_after "p" ops) && (not config.whitelist_only || whitelisted_after "p" ops)))
    × (is_stream_flagged "p" m ≡ flagged_after "p" ops)
answers_follow_calls_example = answers_follow_calls storage config [] recent_calls "p"

abbrev other : ModerationManager (List (String × String))
other = run storage config [] (call (allow "q" 1) ∷ [])

import_list-export_list_example :
    let m = run storage config [] shared_calls in
    let both = import_list (export_list 5 m) other in
    (contains_key "p" both.blocked_peers
      ≡ (contains_key "p" m.blocked_peers || contains_key "p" other.blocked_peers))
    × (contains "p" both.whitelist ≡ (contains "p" m.whitelist || contains "p" other.whitelist))
    × (is_stream_flagged "p" both ≡ (is_stream_flagged "p" other || is_stream_flagged "p" m))
    × (both.config ≡ other.config)
import_list-export_list_example = import_list-export_list storage config [] shared_calls 5 other "p"

save_to_file-load_from_file_example :
    let m = run storage config [] (call (allow "p" 0) ∷ []) in
    let loaded =
      load_from_file storage "list.json"
        (new config (save_to_file storage "list.json" 0 m).1.files) in
    (loaded.0 ≡ done)
    × ((id : String) → is_peer_allowed id loaded.1 ≡ is_peer_allowed id m)
    × ((id : String) → is_stream_flagged id loaded.1 ≡ is_stream_flagged id m)
unfolding save_to_file export_list blocked_entries whitelist_peer maybe_persist new set_insert
    contains
save_to_file-load_from_file_example =
    save_to_file-load_from_file storage
      (λ l text h.
        encode-one_peer l.version l.node_id l.created_at l.blocked_peers l.whitelisted_peers
          l.flagged_streams text h)
      read_of_written config [] (call (allow "p" 0) ∷ []) "list.json" 0 refl
