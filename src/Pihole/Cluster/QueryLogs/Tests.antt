-- ===== src/Pihole/Cluster/QueryLogs/Tests.antt =====
-- Instances of the theorems about pages of query logs.
use pihole_cluster_admin.Prelude.{
  ℤ, pos, ◌≡◌, refl, false, none, some, List, [], ◌∷◌, lookup, insert, string_eq,
}
use pihole_cluster_admin.Httpx.{ok}
use pihole_cluster_admin.Domain.{node_result}
use pihole_cluster_admin.Pihole.Types.{
  FetchQueryLogFilters, FetchQueryLogClusterRequest, FetchQueryLogsClusterResponse,
}
use pihole_cluster_admin.Pihole.Cursor.{SearchState, get_search_state, get_pihole_cursor}
use pihole_cluster_admin.Pihole.Cluster.Sample.{port, page_of, no_filters, two_nodes}
use pihole_cluster_admin.Pihole.Cluster.{gather}
use pihole_cluster_admin.Pihole.Cluster.Rules.{node_worker}
use pihole_cluster_admin.Pihole.Cluster.QueryLogs.{
  fetch_query_logs, fetch_next, next_cursors, any_moved, node_request,
}
use pihole_cluster_admin.Pihole.Cluster.QueryLogs.Laws.{IsPageAfter, fetch_query_logs-IsPageAfter}

-- A request as the handler makes it from a cursor: with no filters.
abbrev next_page : FetchQueryLogClusterRequest
next_page = record { filters = no_filters; cursor = some "page"; length = none; start = none }

abbrev both : List ℤ
both = pos 1 ∷ pos 2 ∷ []

abbrev second_page : FetchQueryLogsClusterResponse
second_page = record {
  cursor = "next";
  results =
      (pos 1, node_result (record { id = pos 1; name = "n"; host = "h" }) (ok (page_of (pos 40))))
      ∷ (pos 2, node_result (record { id = pos 2; name = "n"; host = "h" }) (ok (page_of (pos 50))))
      ∷ [];
  end_of_results = false;
}

fetch_second_page : (fetch_query_logs port "next" 20 both next_page 10 two_nodes).0 ≡ ok second_page
unfolding fetch_query_logs fetch_next next_cursors any_moved node_request gather node_worker lookup
    insert get_search_state get_pihole_cursor node_result
fetch_second_page = refl

abbrev snapshot : SearchState FetchQueryLogFilters
snapshot = record {
  expire_at = 100;
  pihole_cursors = (pos 1, pos 40) ∷ (pos 2, pos 49) ∷ [];
  request_params = record no_filters { domain = some "ads.example" };
}

snapshot_found : (get_search_state "page" 10 two_nodes.cursor_manager).0 ≡ some snapshot
unfolding get_search_state lookup
snapshot_found = refl

fetch_query_logs-IsPageAfter_example : IsPageAfter "next" "page" snapshot second_page
fetch_query_logs-IsPageAfter_example =
    fetch_query_logs-IsPageAfter port "next" 20 both next_page 10 two_nodes "page" snapshot
      second_page refl snapshot_found fetch_second_page
