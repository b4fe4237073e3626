-- ===== src/Media.antt =====
-- core/src/media: segments of a stream and their form on the wire.
pub mod Segment
pub mod Wire
pub mod RoundTrip
pub mod Numbering
pub mod Mp4
pub mod Fragment
mod Tests
