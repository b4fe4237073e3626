-- ===== src/Moderation/Changes.antt =====
-- core/src/moderation/manager.rs: what each call makes of each of the lists.
use open_broadcast_network.Prelude.{
  String, false, not, ◌||◌, List, [], ◌∷◌, ◌++◌, keep, any, if◌then◌else◌, ◌==◌, string_eq, ◌≡◌,
  refl, ap, ◌∙◌, arith,
}
use open_broadcast_network.Prelude.Maps.{
  contains, set_insert, set_remove, insert, remove, contains_key,
}
use open_broadcast_network.Prelude.Maps.Sets.{contains-set_insert, contains-set_remove}
use open_broadcast_network.Prelude.Maps.Distinct.{contains_key-insert, contains_key-remove}
use open_broadcast_network.Moderation.Types.{BlockEntry, FlagEntry}
use open_broadcast_network.Moderation.Manager.{
  Storage, ModerationManager, block_peer, unblock_peer, whitelist_peer, remove_whitelist,
  flag_stream, unflag_stream, import_list, insert_all, set_insert_all,
}
use open_broadcast_network.Moderation.History.{
  Op, block, unblock, allow, disallow, flag, unflag, imports, step, maybe_persist_keeps,
  maybe_persist_if_keeps, blocked_after, whitelisted_after, flagged_after,
}

pub any-append :
    (s : String) (xs ys : List FlagEntry)
    → any (λ f. f.stream_id == s) (xs ++ ys)
      ≡ (any (λ f. f.stream_id == s) xs || any (λ f. f.stream_id == s) ys)
any-append s [] ys = refl
any-append s (x ∷ xs) ys = ground (arith, any-append s xs ys)

any-keep_others :
    (z s : String) (xs : List FlagEntry)
    → any (λ f. f.stream_id == s) (keep (λ f. not (f.stream_id == z)) xs)
      ≡ (if z == s then false else any (λ f. f.stream_id == s) xs)
any-keep_others z s [] = ground arith
any-keep_others z s (x ∷ xs) = ground (
  arith,
  any-keep_others z s xs,
  string_eq.beq_iff x.stream_id z,
  string_eq.beq_iff x.stream_id s,
  string_eq.beq_iff z s,
)

pub contains_key-insert_all :
    (p : String) (bs : List BlockEntry) (m : List (String × BlockEntry))
    → contains_key p (insert_all bs m) ≡ (any (λ b. b.peer_id == p) bs || contains_key p m)
unfolding insert_all
contains_key-insert_all p [] m = refl
contains_key-insert_all p (b ∷ bs) m =
    contains_key-insert_all p bs (insert b.peer_id b m)
    ∙ ground (arith, contains_key-insert b.peer_id p b m)

pub contains-set_insert_all :
    (p : String) (ps : List String) (s : List String)
    → contains p (set_insert_all ps s) ≡ (contains p ps || contains p s)
unfolding set_insert_all
contains-set_insert_all p [] s = unfold contains in refl
contains-set_insert_all p (q ∷ ps) s =
    contains-set_insert_all p ps (set_insert q s)
    ∙ unfold contains in ground (arith, contains-set_insert q p s)

-- What a call makes of each list.
abbrev pub blocked_next : Op → List (String × BlockEntry) → List (String × BlockEntry)
blocked_next (block p r now _) l = insert p (record { peer_id = p; reason = r; blocked_at = now }) l
blocked_next (unblock p _) l = remove p l
blocked_next (allow _ _) l = l
blocked_next (disallow _ _) l = l
blocked_next (flag _ _ _ _ _ _) l = l
blocked_next (unflag _ _) l = l
blocked_next (imports list) l = insert_all list.blocked_peers l

abbrev pub whitelist_next : Op → List String → List String
whitelist_next (allow p _) l = set_insert p l
whitelist_next (disallow p _) l = set_remove p l
whitelist_next (block _ _ _ _) l = l
whitelist_next (unblock _ _) l = l
whitelist_next (flag _ _ _ _ _ _) l = l
whitelist_next (unflag _ _) l = l
whitelist_next (imports list) l = set_insert_all list.whitelisted_peers l

abbrev pub flags_next : Op → List FlagEntry → List FlagEntry
flags_next (flag s r d w now _) l =
    l ++ (record { stream_id = s; reason = r; details = d; reporter = w; flagged_at = now } ∷ [])
flags_next (unflag s _) l = keep (λ f. not (f.stream_id == s)) l
flags_next (block _ _ _ _) l = l
flags_next (unblock _ _) l = l
flags_next (allow _ _) l = l
flags_next (disallow _ _) l = l
flags_next (imports list) l = l ++ list.flagged_streams

pub contains_key-blocked_next :
    (p : String) (op : Op) (l : List (String × BlockEntry)) (ops : List Op)
    → contains_key p l ≡ blocked_after p ops
    → contains_key p (blocked_next op l) ≡ blocked_after p (op ∷ ops)
contains_key-blocked_next p (block q r now _) l ops h =
    ground
      (arith, h, contains_key-insert q p (record { peer_id = q; reason = r; blocked_at = now }) l)
contains_key-blocked_next p (unblock q _) l ops h = ground (arith, h, contains_key-remove q p l)
contains_key-blocked_next p (allow _ _) l ops h = h
contains_key-blocked_next p (disallow _ _) l ops h = h
contains_key-blocked_next p (flag _ _ _ _ _ _) l ops h = h
contains_key-blocked_next p (unflag _ _) l ops h = h
contains_key-blocked_next p (imports list) l ops h =
    contains_key-insert_all p list.blocked_peers l
    ∙ ap (λ b. any (λ b. b.peer_id == p) list.blocked_peers || b) h

pub contains-whitelist_next :
    (p : String) (op : Op) (l : List String) (ops : List Op)
    → contains p l ≡ whitelisted_after p ops
    → contains p (whitelist_next op l) ≡ whitelisted_after p (op ∷ ops)
contains-whitelist_next p (allow q _) l ops h = ground (arith, h, contains-set_insert q p l)
contains-whitelist_next p (disallow q _) l ops h = ground (arith, h, contains-set_remove q p l)
contains-whitelist_next p (block _ _ _ _) l ops h = h
contains-whitelist_next p (unblock _ _) l ops h = h
contains-whitelist_next p (flag _ _ _ _ _ _) l ops h = h
contains-whitelist_next p (unflag _ _) l ops h = h
contains-whitelist_next p (imports list) l ops h =
    contains-set_insert_all p list.whitelisted_peers l
    ∙ ap (λ b. contains p list.whitelisted_peers || b) h

pub any-flags_next :
    (s : String) (op : Op) (l : List FlagEntry) (ops : List Op)
    → any (λ f. f.stream_id == s) l ≡ flagged_after s ops
    → any (λ f. f.stream_id == s) (flags_next op l) ≡ flagged_after s (op ∷ ops)
any-flags_next s (flag z r d w now _) l ops h = any-append s l _ ∙ ground (arith, h)
any-flags_next s (unflag z _) l ops h = any-keep_others z s l ∙ ground (arith, h)
any-flags_next s (block _ _ _ _) l ops h = h
any-flags_next s (unblock _ _) l ops h = h
any-flags_next s (allow _ _) l ops h = h
any-flags_next s (disallow _ _) l ops h = h
any-flags_next s (imports list) l ops h = any-append s l list.flagged_streams ∙ ground (arith, h)

module _ {F : Type 0} (storage : Storage F) where
  pub step-config : (op : Op) (m : ModerationManager F) → (step storage op m).config ≡ m.config
  unfolding block_peer unblock_peer whitelist_peer remove_whitelist flag_stream unflag_stream
      import_list
  step-config (block p r now saved) m = ap (λ n. n.config) (maybe_persist_keeps storage saved _).1
  step-config (unblock p saved) m = ap (λ n. n.config) (maybe_persist_if_keeps storage _ saved _).1
  step-config (allow p saved) m = ap (λ n. n.config) (maybe_persist_keeps storage saved _).1
  step-config (disallow p saved) m = ap (λ n. n.config) (maybe_persist_if_keeps storage _ saved _).1
  step-config (flag s r d w now saved) m =
      ap (λ n. n.config) (maybe_persist_keeps storage saved _).1
  step-config (unflag s saved) m = ap (λ n. n.config) (maybe_persist_if_keeps storage _ saved _).1
  step-config (imports list) m = refl

  pub step-blocked_peers :
      (op : Op) (m : ModerationManager F)
      → (step storage op m).blocked_peers ≡ blocked_next op m.blocked_peers
  unfolding block_peer unblock_peer whitelist_peer remove_whitelist flag_stream unflag_stream
      import_list
  step-blocked_peers (block p r now saved) m =
      ap (λ n. n.blocked_peers) (maybe_persist_keeps storage saved _).1
  step-blocked_peers (unblock p saved) m =
      ap (λ n. n.blocked_peers) (maybe_persist_if_keeps storage _ saved _).1
  step-blocked_peers (allow p saved) m =
      ap (λ n. n.blocked_peers) (maybe_persist_keeps storage saved _).1
  step-blocked_peers (disallow p saved) m =
      ap (λ n. n.blocked_peers) (maybe_persist_if_keeps storage _ saved _).1
  step-blocked_peers (flag s r d w now saved) m =
      ap (λ n. n.blocked_peers) (maybe_persist_keeps storage saved _).1
  step-blocked_peers (unflag s saved) m =
      ap (λ n. n.blocked_peers) (maybe_persist_if_keeps storage _ saved _).1
  step-blocked_peers (imports list) m = refl

  pub step-whitelist :
      (op : Op) (m : ModerationManager F)
      → (step storage op m).whitelist ≡ whitelist_next op m.whitelist
  unfolding block_peer unblock_peer whitelist_peer remove_whitelist flag_stream unflag_stream
      import_list
  step-whitelist (block p r now saved) m =
      ap (λ n. n.whitelist) (maybe_persist_keeps storage saved _).1
  step-whitelist (unblock p saved) m =
      ap (λ n. n.whitelist) (maybe_persist_if_keeps storage _ saved _).1
  step-whitelist (allow p saved) m = ap (λ n. n.whitelist) (maybe_persist_keeps storage saved _).1
  step-whitelist (disallow p saved) m =
      ap (λ n. n.whitelist) (maybe_persist_if_keeps storage _ saved _).1
  step-whitelist (flag s r d w now saved) m =
      ap (λ n. n.whitelist) (maybe_persist_keeps storage saved _).1
  step-whitelist (unflag s saved) m =
      ap (λ n. n.whitelist) (maybe_persist_if_keeps storage _ saved _).1
  step-whitelist (imports list) m = refl

  pub step-flags :
      (op : Op) (m : ModerationManager F) → (step storage op m).flags ≡ flags_next op m.flags
  unfolding block_peer unblock_peer whitelist_peer remove_whitelist flag_stream unflag_stream
      import_list
  step-flags (block p r now saved) m = ap (λ n. n.flags) (maybe_persist_keeps storage saved _).1
  step-flags (unblock p saved) m = ap (λ n. n.flags) (maybe_persist_if_keeps storage _ saved _).1
  step-flags (allow p saved) m = ap (λ n. n.flags) (maybe_persist_keeps storage saved _).1
  step-flags (disallow p saved) m = ap (λ n. n.flags) (maybe_persist_if_keeps storage _ saved _).1
  step-flags (flag s r d w now saved) m = ap (λ n. n.flags) (maybe_persist_keeps storage saved _).1
  step-flags (unflag s saved) m = ap (λ n. n.flags) (maybe_persist_if_keeps storage _ saved _).1
  step-flags (imports list) m = refl
