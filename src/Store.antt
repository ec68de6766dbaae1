-- ===== src/Store.antt =====
-- The state that the client keeps in the browser: the queue of pending changes, the commits that
-- are not saved, and the session.
pub mod Pending
pub mod Unsaved
pub mod Session
