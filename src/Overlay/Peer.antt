-- ===== src/Overlay/Peer.antt =====
-- `PeerRole` of core/src/overlay/peer.rs.
use open_broadcast_network.Prelude.{Bool, true, false}

pub data PeerRole : Type 0 where
  publisher relay consumer hybrid_relay gateway unknown : PeerRole

abbrev pub is_consumer : PeerRole → Bool
is_consumer PeerRole.consumer = true
is_consumer _ = false

abbrev pub is_publisher : PeerRole → Bool
is_publisher PeerRole.publisher = true
is_publisher _ = false
