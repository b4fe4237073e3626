-- ===== src/Media/Numbering.antt =====
-- core/src/media/segment.rs: how the builder numbers segments.
use open_broadcast_network.Prelude.{
  ℕ, zero, suc, ◌+◌, ◌<◌, ◌^◌, ◌≡◌, refl, ap, Bool, List, [], ◌∷◌, add64, arith, if◌then◌else◌,
  ◌==◌, nat_eq, ◌∙◌,
}
use open_broadcast_network.Media.Segment.{
  MediaType, to_u8, video, audio, StreamId, StreamSegment, SegmentBuilder, new, new_video,
  new_audio, new_metadata, new_initialization, new_builder, next_video, next_audio, next_metadata,
  next_initialization,
}

-- The calls of the builder.
pub data Request : Type 0 where
  want_video : ℕ → ℕ → List ℕ → Bool → Request
  want_audio : ℕ → ℕ → List ℕ → Request
  want_metadata : ℕ → List ℕ → Request
  want_initialization : List ℕ → Request

abbrev pub build : Request → SegmentBuilder → StreamSegment × SegmentBuilder
build (want_video pts duration bytes key) b = next_video pts duration bytes key b
build (want_audio pts duration bytes) b = next_audio pts duration bytes b
build (want_metadata now bytes) b = next_metadata now bytes b
build (want_initialization bytes) b = (next_initialization bytes b, b)

abbrev pub build_all : List Request → SegmentBuilder → List StreamSegment × SegmentBuilder
build_all [] b = ([], b)
build_all (r ∷ rs) b =
    let now = build r b in let later = build_all rs now.1 in (now.0 ∷ later.0, later.1)

-- The sequence numbers of the segments of one type, in order.
abbrev same_type : MediaType → MediaType → Bool
same_type s t = to_u8 s == to_u8 t

abbrev pub sequences : MediaType → List StreamSegment → List ℕ
sequences t [] = []
sequences t (s ∷ ss) =
    if same_type s.media_type t then s.sequence ∷ sequences t ss else sequences t ss

-- `n`, `n + 1`, and so on, `k` of them.
abbrev pub count_from : ℕ → ℕ → List ℕ
count_from n zero = []
count_from n (suc k) = n ∷ count_from (suc n) k

abbrev pub video_requests : List Request → ℕ
video_requests [] = 0
video_requests (want_video _ _ _ _ ∷ rs) = suc (video_requests rs)
video_requests (want_audio _ _ _ ∷ rs) = video_requests rs
video_requests (want_metadata _ _ ∷ rs) = video_requests rs
video_requests (want_initialization _ ∷ rs) = video_requests rs

abbrev pub audio_requests : List Request → ℕ
audio_requests [] = 0
audio_requests (want_audio _ _ _ ∷ rs) = suc (audio_requests rs)
audio_requests (want_video _ _ _ _ ∷ rs) = audio_requests rs
audio_requests (want_metadata _ _ ∷ rs) = audio_requests rs
audio_requests (want_initialization _ ∷ rs) = audio_requests rs

numbers_videos :
    (rs : List Request) (b : SegmentBuilder)
    → b.video_sequence + video_requests rs < 2 ^ 64
    → sequences video (build_all rs b).0 ≡ count_from b.video_sequence (video_requests rs)
unfolding next_video next_audio next_metadata next_initialization new new_video new_audio
    new_metadata new_initialization to_u8 add64
numbers_videos [] b h = refl
numbers_videos (want_video p d x k ∷ rs) b h = ap (◌∷◌ b.video_sequence) (
    numbers_videos rs (build (want_video p d x k) b).1 (omega (arith, h))
    ∙ ap (λ n. count_from n (video_requests rs)) (omega (arith, h)))
numbers_videos (want_audio p d x ∷ rs) b h = numbers_videos rs (build (want_audio p d x) b).1 h
numbers_videos (want_metadata now x ∷ rs) b h =
    numbers_videos rs (build (want_metadata now x) b).1 h
numbers_videos (want_initialization x ∷ rs) b h = numbers_videos rs b h

numbers_audios :
    (rs : List Request) (b : SegmentBuilder)
    → b.audio_sequence + audio_requests rs < 2 ^ 64
    → sequences audio (build_all rs b).0 ≡ count_from b.audio_sequence (audio_requests rs)
unfolding next_video next_audio next_metadata next_initialization new new_video new_audio
    new_metadata new_initialization to_u8 add64
numbers_audios [] b h = refl
numbers_audios (want_audio p d x ∷ rs) b h = ap (◌∷◌ b.audio_sequence) (
    numbers_audios rs (build (want_audio p d x) b).1 (omega (arith, h))
    ∙ ap (λ n. count_from n (audio_requests rs)) (omega (arith, h)))
numbers_audios (want_video p d x k ∷ rs) b h = numbers_audios rs (build (want_video p d x k) b).1 h
numbers_audios (want_metadata now x ∷ rs) b h =
    numbers_audios rs (build (want_metadata now x) b).1 h
numbers_audios (want_initialization x ∷ rs) b h = numbers_audios rs b h

-- A new builder that is asked for fewer than 2^64 segments, of the types in any order, numbers the
-- video segments 0, 1, 2 and so on without a gap, and the audio segments too, on their own.
pub builder_numbers_tracks :
    (stream_id : StreamId) (rs : List Request)
    → video_requests rs < 2 ^ 64
    → audio_requests rs < 2 ^ 64
    → (sequences video (build_all rs (new_builder stream_id)).0 ≡ count_from 0 (video_requests rs))
      × (sequences audio (build_all rs (new_builder stream_id)).0
          ≡ count_from 0 (audio_requests rs))
unfolding new_builder
builder_numbers_tracks stream_id rs hv ha = (
  numbers_videos rs (new_builder stream_id) (omega (arith, hv)),
  numbers_audios rs (new_builder stream_id) (omega (arith, ha)),
)
