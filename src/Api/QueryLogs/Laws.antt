-- ===== src/Api/QueryLogs/Laws.antt =====
-- What a page that continues another one forgets.
use pihole_cluster_admin.Prelude.{
  ℕ, ℤ, ◌≡◌, String, none, some, List, string_eq, ltb, if◌then◌else◌,
}
use pihole_cluster_admin.Httpx.{Result, ok}
use pihole_cluster_admin.Durations.{after_hours}
use pihole_cluster_admin.Pihole.Types.{FetchQueryLogClusterRequest, FetchQueryLogsClusterResponse}
use pihole_cluster_admin.Pihole.Cursor.{new_search_state, get_search_state}
use pihole_cluster_admin.Pihole.Cluster.{ClientPort, Cluster}
use pihole_cluster_admin.Pihole.Cluster.QueryLogs.{next_cursors}
use pihole_cluster_admin.Api.QueryLogs.{Parsers, no_filters}

module _ {C : Type 0} (parsers : Parsers) (port : ClientPort C) (uuid : String) (now : ℕ)
    (order : List ℤ) where
  abbrev pub HoldsNoFilter : ℤ → ℕ → FetchQueryLogsClusterResponse → Cluster C → Type 0
  HoldsNoFilter ttl later page c = (get_search_state page.cursor later c.cursor_manager).0 ≡ (
      if ltb (after_hours now ttl) later
      then none
      else some (new_search_state now ttl no_filters (next_cursors page.results)))

  -- A request with a cursor has no filters.
  abbrev IsBare : Result FetchQueryLogClusterRequest → Type 0
  IsBare r = (req : FetchQueryLogClusterRequest) → r ≡ ok req → req.filters ≡ no_filters
