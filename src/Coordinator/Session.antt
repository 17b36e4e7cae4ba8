-- ===== src/Coordinator/Session.antt =====
-- The Session of apps/coordinator/session.hpp and session.cpp, and sequence_newer of
-- src/protocol/interpolation.cpp. A method returns what it answers and the session after it.
pub mod State
pub mod Joining
pub mod Updates
pub mod Periodic
pub mod Invariant
pub mod Runs
pub mod Routing
pub mod Admission
pub mod Welcome
pub mod Admitted
pub mod Sorting
pub mod Snapshots
pub use ht2mp.Coordinator.Session.State.{
  AuthenticationMode, SessionConfig, Route, DispatchResult, PeerInfo, Peer, Session, clamp, token,
  public_access,
}
unfoldable pub use ht2mp.Coordinator.Session.State.{make_session}
pub use ht2mp.Coordinator.Session.Joining.{joined, spawn, route, accepted_with}
unfoldable pub use ht2mp.Coordinator.Session.Joining.{
  describe, rejected, introduce, token_refused, admit, accept,
}
unfoldable pub use ht2mp.Coordinator.Session.Updates.{
  sequence_newer, expire, spoofs, is_stale, fan_out, update_state, receive_state, receive_from,
  receive,
}
pub use ht2mp.Coordinator.Session.Periodic.{epoch_or}
unfoldable pub use ht2mp.Coordinator.Session.Periodic.{
  broadcast, disconnect, fresh_state, fresh_states, insert_state, sort_states, chunks,
  snapshot_routes, snapshot_players, current_environment, tick,
}
