-- ===== src/Pihole/Cluster/QueryLogs/Snapshots.antt =====
-- The snapshot that a page of query logs leaves for the page after it.
use pihole_cluster_admin.Prelude.{
  ℕ, ℤ, ◌≡◌, String, none, some, List, int_eq, string_eq, if◌then◌else◌, ltb,
}
use pihole_cluster_admin.Durations.{after_hours}
use pihole_cluster_admin.Pihole.Types.{
  FetchQueryLogFilters, FetchQueryLogClusterRequest, FetchQueryLogsClusterResponse,
}
use pihole_cluster_admin.Pihole.Cursor.{CursorManager, new_search_state, get_search_state}
use pihole_cluster_admin.Pihole.Cluster.{ClientPort, Cluster}
use pihole_cluster_admin.Pihole.Cluster.QueryLogs.{next_cursors}

module _ {C : Type 0} (port : ClientPort C) (uuid : String) (now : ℕ) (order : List ℤ) where
  -- The manager holds, under the cursor of the response, a snapshot of the filters of `req` and of
  -- the cursors in its results, until it expires.
  abbrev pub HoldsPage :
      FetchQueryLogClusterRequest
      → ℤ
      → ℕ
      → CursorManager FetchQueryLogFilters
      → FetchQueryLogsClusterResponse
      → Type 0
  HoldsPage req ttl later m resp = (get_search_state resp.cursor later m).0 ≡ (
      if ltb (after_hours now ttl) later
      then none
      else some (new_search_state now ttl req.filters (next_cursors resp.results)))
