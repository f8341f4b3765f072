-- ===== src/Pihole/Cluster/QueryLogs.antt =====
-- `FetchQueryLogs` of cluster.go: a page of the logs of all nodes, and the cursor of the next page.
-- The times of the two calls of the cursor manager and the new cursor's text are arguments.
pub mod Laws
pub mod Snapshots
mod Tests
use pihole_cluster_admin.Prelude.{
  ℕ, ℤ, String, Bool, true, false, not, ◌||◌, Option, none, some, List, [], ◌∷◌, Map, ◌==◌, int_eq,
  string_eq, if◌then◌else◌,
}
use pihole_cluster_admin.Httpx.{other, Result, ok, err}
use pihole_cluster_admin.Domain.{NodeResult}
use pihole_cluster_admin.Pihole.Types.{
  FetchQueryLogFilters, FetchQueryLogClientRequest, FetchQueryLogResponse,
  FetchQueryLogClusterRequest, FetchQueryLogsClusterResponse,
}
use pihole_cluster_admin.Pihole.Cursor.{
  SearchState, get_pihole_cursor, create_cursor, get_search_state,
}
use pihole_cluster_admin.Pihole.Cluster.{Call, ClientPort, Cluster, gather}
use pihole_cluster_admin.Pihole.Cluster.Rules.{node_worker}

-- `req.Cursor`, if it is neither nil nor empty.
abbrev pub page_cursor : Option String → Option String
page_cursor none = none
page_cursor (some cursor) = if cursor == "" then none else some cursor

abbrev pub first_request : FetchQueryLogClusterRequest → FetchQueryLogClientRequest
first_request req = record {
  filters = req.filters;
  cursor = none;
  length = req.length;
  start = req.start;
}

-- The request to the node `id`.
unfoldable pub node_request :
    FetchQueryLogClusterRequest
    → Option (SearchState FetchQueryLogFilters)
    → ℤ
    → FetchQueryLogClientRequest
node_request req none id = first_request req
node_request req (some s) id = elim (get_pihole_cursor id s) [
  | none ↦ first_request req
  | some cursor ↦ record {
    filters = s.request_params;
    cursor = some cursor;
    length = req.length;
    start = none;
  }
]

unfoldable pub add_cursor : ℤ → Option FetchQueryLogResponse → Map ℤ ℤ → Map ℤ ℤ
add_cursor id none cursors = cursors
add_cursor id (some response) cursors = (id, response.cursor) ∷ cursors

-- nextPiholeCursors: the cursors of the nodes that have answered.
unfoldable pub next_cursors : Map ℤ (NodeResult FetchQueryLogResponse) → Map ℤ ℤ
unfolding add_cursor
next_cursors [] = []
next_cursors ((id, r) ∷ results) = add_cursor id r.response (next_cursors results)

-- The old cursor of a node is missing, or it is not the new one.
abbrev pub cursor_moved : SearchState FetchQueryLogFilters → ℤ → ℤ → Bool
cursor_moved s id cursor = elim (get_pihole_cursor id s) [
  | none ↦ true
  | some old ↦ not (old == cursor)
]

unfoldable pub any_moved : SearchState FetchQueryLogFilters → Map ℤ ℤ → Bool
any_moved s [] = false
any_moved s ((id, cursor) ∷ cursors) = cursor_moved s id cursor || any_moved s cursors

-- The rest of the function after the lookup of the cursor: `page` is the browser's cursor with its
-- snapshot, or nothing for a first page.
module _ {C : Type 0} (port : ClientPort C) (uuid : String) (now : ℕ) (order : List ℤ) where
  abbrev pub fetch_nodes :
      FetchQueryLogClusterRequest
      → Option (SearchState FetchQueryLogFilters)
      → Cluster C
      → Map ℤ (NodeResult FetchQueryLogResponse) × Cluster C
  fetch_nodes req s c =
      gather (λ id. node_worker port (port.fetch_query_logs (node_request req s id))) order c

  -- A new snapshot, with the filters of the request.
  unfoldable pub fresh_page :
      FetchQueryLogClusterRequest
      → Map ℤ (NodeResult FetchQueryLogResponse)
      → Cluster C
      → Result FetchQueryLogsClusterResponse × Cluster C
  fresh_page req results c = (
    ok (record { cursor = uuid; results = results; end_of_results = false }),
    record c {
      cursor_manager = create_cursor uuid now req.filters (next_cursors results) c.cursor_manager;
    },
  )

  unfoldable pub fetch_first :
      FetchQueryLogClusterRequest → Cluster C → Result FetchQueryLogsClusterResponse × Cluster C
  unfolding fresh_page
  fetch_first req c = fresh_page req (fetch_nodes req none c).0 (fetch_nodes req none c).1

  unfoldable pub fetch_next :
      FetchQueryLogClusterRequest
      → String
      → SearchState FetchQueryLogFilters
      → Cluster C
      → Result FetchQueryLogsClusterResponse × Cluster C
  unfolding fresh_page
  fetch_next req cursor s c =
      if any_moved s (next_cursors (fetch_nodes req (some s) c).0)
      then fresh_page req (fetch_nodes req (some s) c).0 (fetch_nodes req (some s) c).1
      else (
        ok (record {
          cursor = cursor;
          results = (fetch_nodes req (some s) c).0;
          end_of_results = true;
        }),
        (fetch_nodes req (some s) c).1,
      )

  abbrev pub fetch_found :
      FetchQueryLogClusterRequest
      → String
      → Option (SearchState FetchQueryLogFilters)
      → Cluster C
      → Result FetchQueryLogsClusterResponse × Cluster C
  fetch_found req cursor none c = (err (other "cursor expired or not found"), c)
  fetch_found req cursor (some s) c = fetch_next req cursor s c

  abbrev pub fetch_page :
      FetchQueryLogClusterRequest
      → Option String
      → ℕ
      → Cluster C
      → Result FetchQueryLogsClusterResponse × Cluster C
  fetch_page req none found_at c = fetch_first req c
  fetch_page req (some cursor) found_at c =
      fetch_found req cursor (get_search_state cursor found_at c.cursor_manager).0
        (record c { cursor_manager = (get_search_state cursor found_at c.cursor_manager).1 })

  -- FetchQueryLogs; `found_at` is the time of the lookup of the cursor.
  unfoldable pub fetch_query_logs :
      FetchQueryLogClusterRequest → ℕ → Cluster C → Result FetchQueryLogsClusterResponse × Cluster C
  fetch_query_logs req found_at c = fetch_page req (page_cursor req.cursor) found_at c
