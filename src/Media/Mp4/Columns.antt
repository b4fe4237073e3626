-- ===== src/Media/Mp4/Columns.antt =====
-- core/src/media/mp4_parser.rs: what each loop of `resolve_sample_offsets` does to the columns of
-- the entries.
use open_broadcast_network.Prelude.{
  ℕ, zero, suc, ◌+◌, ◌^◌, ◌≤◌, ◌<◌, ◌≡◌, refl, ◌∙◌, ap, sym, Bool, true, false, ◌||◌, List, [], ◌∷◌,
  ◌++◌, map, drop, All, any, nat_eq, ◌==◌, arith,
}
use open_broadcast_network.Media.Mp4.{SampleEntry}
use open_broadcast_network.Media.Mp4.Tables.{replicate}
use open_broadcast_network.Media.Mp4.Samples.{
  before32, set_run, set_runs, as_keyframe, mark_at, mark_all, mark_keyframes,
}

-- A list of runs, written out.
abbrev pub spread {ℓ} : {V : Type ℓ} → List (ℕ × V) → List V
spread [] = []
spread ((count, value) ∷ runs) = replicate count value ++ spread runs

-- The values of a list, then those of another that lie beyond it; as long as the other.
abbrev pub overlay {ℓ} : {V : Type ℓ} → List V → List V → List V
overlay [] ys = ys
overlay (x ∷ xs) [] = []
overlay (x ∷ xs) (y ∷ ys) = x ∷ overlay xs ys

overlay-nil {ℓ} : {V : Type ℓ} (xs : List V) → overlay xs [] ≡ []
overlay-nil [] = refl
overlay-nil (x ∷ xs) = refl

pub map-append {ℓ κ} :
    {A : Type ℓ} {B : Type κ} (f : A → B) (xs ys : List A) → map f (xs ++ ys) ≡ map f xs ++ map f ys
map-append f [] ys = refl
map-append f (x ∷ xs) ys = ap (◌∷◌ (f x)) (map-append f xs ys)

-- The loops over runs: the column that they set, and one that they leave alone.
module _ {ℓ} {V : Type ℓ} (set : V → SampleEntry → SampleEntry) where
  module _ (get : SampleEntry → V) (get-set : (v : V) (e : SampleEntry) → get (set v e) ≡ v) where
    set_run-overlay :
        (count : ℕ) (v : V) (es : List SampleEntry) (xs : List V)
        → overlay (replicate count v ++ xs) (map get es)
          ≡ map get (set_run set count v es).0 ++ overlay xs (map get (set_run set count v es).1)
    unfolding set_run
    set_run-overlay zero v es xs = refl
    set_run-overlay (suc count) v [] xs = sym (overlay-nil xs)
    set_run-overlay (suc count) v (e ∷ es) xs = rw (set_run-overlay count v es xs, get-set v e) refl

    pub set_runs-overlay :
        (runs : List (ℕ × V)) (es : List SampleEntry)
        → map get (set_runs set runs es) ≡ overlay (spread runs) (map get es)
    unfolding set_runs
    set_runs-overlay [] es = refl
    set_runs-overlay ((count, v) ∷ runs) es =
        let (done, left) = set_run set count v es in
        map-append get (set_run set count v es).0 (set_runs set runs (set_run set count v es).1)
        ∙ (rw
            (
              set_runs-overlay runs (set_run set count v es).1,
              set_run-overlay count v es (spread runs),
            )
            refl)

  module _ {κ} {W : Type κ} (get : SampleEntry → W)
      (get-set : (v : V) (e : SampleEntry) → get (set v e) ≡ get e) where
    set_run_same :
        (count : ℕ) (v : V) (es : List SampleEntry)
        → map get (set_run set count v es).0 ++ map get (set_run set count v es).1 ≡ map get es
    unfolding set_run
    set_run_same zero v es = refl
    set_run_same (suc count) v [] = refl
    set_run_same (suc count) v (e ∷ es) =
        rw (get-set v e) (ap (◌∷◌ (get e)) (set_run_same count v es))

    pub set_runs_same :
        (runs : List (ℕ × V)) (es : List SampleEntry) → map get (set_runs set runs es) ≡ map get es
    unfolding set_runs
    set_runs_same [] es = refl
    set_runs_same ((count, v) ∷ runs) es =
        map-append get (set_run set count v es).0 (set_runs set runs (set_run set count v es).1)
        ∙ (rw (set_runs_same runs (set_run set count v es).1) (set_run_same count v es))

-- Marking keyframes.
abbrev pub IsSync : ℕ → Type 0
IsSync s = (1 ≤ s) × (s < 2 ^ 32)

-- The flags from an index on: what a flag was, or whether the index, counted from one, is listed.
abbrev pub flags : ℕ → List Bool → List ℕ → List Bool
flags i [] sync = []
flags i (f ∷ fs) sync = (f || any (λ (s : ℕ). s == suc i) sync) ∷ flags (suc i) fs sync

flags-nil : (i : ℕ) (fs : List Bool) → flags i fs [] ≡ fs
flags-nil i [] = refl
flags-nil i (f ∷ fs) = ground (arith, flags-nil (suc i) fs)

flags-cons :
    (i : ℕ) (fs : List Bool) (s : ℕ) (ss : List ℕ)
    → flags i (flags i fs (s ∷ [])) ss ≡ flags i fs (s ∷ ss)
flags-cons i [] s ss = refl
flags-cons i (f ∷ fs) s ss = ground (arith, flags-cons (suc i) fs s ss)

late_flags : (i : ℕ) (fs : List Bool) (s : ℕ) → s ≤ i → flags i fs (s ∷ []) ≡ fs
late_flags i [] s h = refl
late_flags i (f ∷ fs) s h = ground (arith, late_flags (suc i) fs s (omega arith))

key_column-mark_at :
    (i n : ℕ) (es : List SampleEntry)
    → map SampleEntry.is_keyframe (mark_at n es)
      ≡ flags i (map SampleEntry.is_keyframe es) (suc (i + n) ∷ [])
unfolding mark_at
key_column-mark_at i n [] = refl
key_column-mark_at i zero (e ∷ es) =
    ground (arith, late_flags (suc i) (map SampleEntry.is_keyframe es) (suc (i + 0)) (omega arith))
key_column-mark_at i (suc n) (e ∷ es) =
    let shift : suc i + n ≡ i + suc n = omega arith in
    let ih = rw shift at (key_column-mark_at (suc i) n es) in ground (arith, ih)

key_column-mark_all :
    (sync : List ℕ) (es : List SampleEntry)
    → All IsSync sync
    → map SampleEntry.is_keyframe (mark_all sync es) ≡ flags 0 (map SampleEntry.is_keyframe es) sync
unfolding mark_all
key_column-mark_all [] es h = sym (flags-nil 0 (map SampleEntry.is_keyframe es))
key_column-mark_all (s ∷ ss) es (h, hs) =
    let place : suc (0 + before32 s) ≡ s = omega arith in
    let marked = rw place at (key_column-mark_at 0 (before32 s) es) in
    rw (key_column-mark_all ss (mark_at (before32 s) es) hs, marked)
      (flags-cons 0 (map SampleEntry.is_keyframe es) s ss)

-- The keyframes: all entries where no sample is listed, else the listed ones.
abbrev pub keyframe_flags : ℕ → List ℕ → List Bool
keyframe_flags n [] = replicate n true
keyframe_flags n (s ∷ ss) = flags 0 (replicate n false) (s ∷ ss)

pub key_column-mark_keyframes :
    (sync : List ℕ) (es : List SampleEntry) (n : ℕ)
    → All IsSync sync
    → map SampleEntry.is_keyframe es ≡ replicate n false
    → map SampleEntry.is_keyframe (mark_keyframes sync es) ≡ keyframe_flags n sync
unfolding mark_keyframes
key_column-mark_keyframes [] [] zero h e = refl
key_column-mark_keyframes [] [] (suc n) h e = absurd (cc)
key_column-mark_keyframes [] (x ∷ xs) zero h e = absurd (cc)
key_column-mark_keyframes [] (x ∷ xs) (suc n) h e =
    ap (◌∷◌ true) (key_column-mark_keyframes [] xs n h (ap (drop 1) e))
key_column-mark_keyframes (s ∷ ss) es n h e =
    key_column-mark_all (s ∷ ss) es h ∙ ap (λ (fs : List Bool). flags 0 fs (s ∷ ss)) e

module _ {κ} {W : Type κ} (get : SampleEntry → W)
    (get-key : (e : SampleEntry) → get (as_keyframe e) ≡ get e) where
  mark_at_same : (n : ℕ) (es : List SampleEntry) → map get (mark_at n es) ≡ map get es
  unfolding mark_at
  mark_at_same n [] = refl
  mark_at_same zero (e ∷ es) = rw (get-key e) refl
  mark_at_same (suc n) (e ∷ es) = ap (◌∷◌ (get e)) (mark_at_same n es)

  mark_all_same : (sync : List ℕ) (es : List SampleEntry) → map get (mark_all sync es) ≡ map get es
  unfolding mark_all
  mark_all_same [] es = refl
  mark_all_same (s ∷ ss) es =
      mark_all_same ss (mark_at (before32 s) es) ∙ mark_at_same (before32 s) es

  all_keys_same : (es : List SampleEntry) → map get (map as_keyframe es) ≡ map get es
  all_keys_same [] = refl
  all_keys_same (e ∷ es) = rw (get-key e) (ap (◌∷◌ (get e)) (all_keys_same es))

  pub mark_keyframes_same :
      (sync : List ℕ) (es : List SampleEntry) → map get (mark_keyframes sync es) ≡ map get es
  unfolding mark_keyframes
  mark_keyframes_same [] es = all_keys_same es
  mark_keyframes_same (s ∷ ss) es = mark_all_same (s ∷ ss) es
