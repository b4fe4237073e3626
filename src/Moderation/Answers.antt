-- ===== src/Moderation/Answers.antt =====
-- core/src/moderation/manager.rs: after a run, the manager's answers follow the latest calls.
use open_broadcast_network.Prelude.{
  String, not, ◌&&◌, ◌||◌, List, [], ◌∷◌, any, ◌==◌, string_eq, ◌≡◌, refl, ap, ◌∙◌, arith, inl, inr,
}
use mathlib.Core.Path.{subst, sym}
use open_broadcast_network.Prelude.Maps.{contains, contains_key}
use open_broadcast_network.Moderation.Types.{ModerationConfig}
use open_broadcast_network.Moderation.Manager.{
  Storage, ModerationManager, new, is_peer_allowed, is_stream_flagged,
}
use open_broadcast_network.Moderation.History.{
  Op, imports, Call, call, saves, loads, step, run, history, load_from_file_cases,
  save_to_file_keeps, blocked_after, whitelisted_after, flagged_after,
}
use open_broadcast_network.Moderation.Changes.{
  contains_key-blocked_next, contains-whitelist_next, any-flags_next, step-config,
  step-blocked_peers, step-whitelist, step-flags,
}

-- A manager of a configuration whose lists are what the calls made of them.
pub record Follows {F : Type 0} (config : ModerationConfig) (ops : List Op)
    (m : ModerationManager F) : Type 0 where
  pub same_config : m.config ≡ config
  pub blocked : (p : String) → contains_key p m.blocked_peers ≡ blocked_after p ops
  pub whitelisted : (p : String) → contains p m.whitelist ≡ whitelisted_after p ops
  pub flagged : (s : String) → any (λ f. f.stream_id == s) m.flags ≡ flagged_after s ops

module _ {F : Type 0} (storage : Storage F) (config : ModerationConfig) where
  step-Follows :
      (op : Op) (ops : List Op) (m : ModerationManager F)
      → Follows config ops m
      → Follows config (op ∷ ops) (step storage op m)
  step-Follows op ops m h = record {
    same_config = step-config storage op m ∙ h.same_config;
    blocked = λ p.
        ap (contains_key p) (step-blocked_peers storage op m)
        ∙ contains_key-blocked_next p op m.blocked_peers ops (h.blocked p);
    whitelisted = λ p.
        ap (contains p) (step-whitelist storage op m)
        ∙ contains-whitelist_next p op m.whitelist ops (h.whitelisted p);
    flagged = λ s.
        ap (any (λ f. f.stream_id == s)) (step-flags storage op m)
        ∙ any-flags_next s op m.flags ops (h.flagged s);
  }

  other_files :
      (ops : List Op) (m : ModerationManager F) (files : F)
      → Follows config ops m
      → Follows config ops (record m { files = files })
  other_files ops m files h = record {
    same_config = h.same_config;
    blocked = h.blocked;
    whitelisted = h.whitelisted;
    flagged = h.flagged;
  }

  pub run-Follows :
      (files : F) (calls : List Call)
      → Follows config (history storage config files calls) (run storage config files calls)
  unfolding new contains_key contains
  run-Follows files [] = record {
    same_config = refl;
    blocked = λ p. refl;
    whitelisted = λ p. refl;
    flagged = λ s. refl;
  }
  run-Follows files (call op ∷ calls) = step-Follows op _ _ (run-Follows files calls)
  run-Follows files (saves path now ∷ calls) =
      let kept = save_to_file_keeps storage path now (run storage config files calls) in
      subst (Follows config (history storage config files calls)) (sym kept.1)
        (other_files _ _ kept.0 (run-Follows files calls))
  run-Follows files (loads path ∷ calls) =
      elim (load_from_file_cases storage path (run storage config files calls)) [
        | inl (none_there, same) ↦ rw (history, none_there, run, same) (run-Follows files calls)
        | inr (list, there, taken) ↦
            rw (history, there, run, taken)
              (step-Follows (imports list) _ _ (run-Follows files calls))
      ]

module _ {F : Type 0} (storage : Storage F) where
  -- After any run of calls on a new manager, imports, saves and loads included, persisted or not, a
  -- peer is allowed exactly when the latest call that blocked or unblocked it, if there is one,
  -- unblocked it, and, where only whitelisted peers may connect, the latest call about its place on
  -- the whitelist put it there; and a stream is flagged exactly when it was flagged since its flags
  -- were last removed. Here a load of a file stands for an import of the list that the file held, and
  -- an import for calls that block, whitelist and flag what is on the list.
  pub answers_follow_calls :
      (config : ModerationConfig) (files : F) (calls : List Call) (id : String)
      → let m = run storage config files calls in
        let ops = history storage config files calls in
        (is_peer_allowed id m
          ≡ (not (blocked_after id ops) && (not config.whitelist_only || whitelisted_after id ops)))
        × (is_stream_flagged id m ≡ flagged_after id ops)
  unfolding is_peer_allowed is_stream_flagged
  answers_follow_calls config files calls id =
      let follows = run-Follows storage config files calls in
      (
        ground (
          arith,
          follows.blocked id,
          follows.whitelisted id,
          ap (λ c. c.whitelist_only) follows.same_config,
        ),
        follows.flagged id,
      )
