-- ===== src/Store/Unsaved.antt =====
-- store/unsavedCommit.ts: the changes that were committed and are not saved.
use vyos_client.Base.{List, [], ◌++◌}
use vyos_client.Store.Pending.{PendingChange, partialize}

unfoldable pub mark_committed : List PendingChange → List PendingChange → List PendingChange
mark_committed changes committed_changes = committed_changes ++ changes

unfoldable pub mark_saved : List PendingChange → List PendingChange
mark_saved committed_changes = []

-- The same filter as that of the pending changes.
unfoldable pub partialize_committed : List PendingChange → List PendingChange
partialize_committed committed_changes = partialize committed_changes
