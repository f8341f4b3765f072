-- ===== src/Api/QueryLogs/Tests.antt =====
-- The second page of two nodes, asked for by its cursor.
use pihole_cluster_admin.Prelude.{ℤ, pos, ◌≡◌, refl, false, none, List, [], ◌∷◌}
use pihole_cluster_admin.Httpx.{ok, json_error}
use pihole_cluster_admin.Domain.{node_result}
use pihole_cluster_admin.Pihole.Types.{FetchQueryLogsClusterResponse}
use pihole_cluster_admin.Pihole.Cluster.Sample.{port, page_of, two_nodes}
use pihole_cluster_admin.Api.QueryLogs.{
  Parsers, QueryParams, request_of, cursor_request, filter_request, parse_times, get_query_logs,
}

-- Parsers that know no text
abbrev strict : Parsers
strict = record { atoi = λ v. none; rfc3339 = λ v. none; parse_bool = λ v. none }

abbrev next_page : QueryParams
next_page = record {
  cursor = "page";
  from = "";
  until = "";
  length = "";
  start = "";
  domain = "";
  client_ip = "";
  client_name = "";
  upstream = "";
  type_name = "";
  status = "";
  reply = "";
  dnssec = "";
  disk = "";
}

abbrev second_page : FetchQueryLogsClusterResponse
second_page = record {
  cursor = "next";
  results =
      (pos 1, node_result (record { id = pos 1; name = "n"; host = "h" }) (ok (page_of (pos 40))))
      ∷ (pos 2, node_result (record { id = pos 2; name = "n"; host = "h" }) (ok (page_of (pos 50))))
      ∷ [];
  end_of_results = false;
}

abbrev both : List ℤ
both = pos 1 ∷ pos 2 ∷ []

-- A `disk` that is no Boolean is reported as a bad `start`.
bad_disk :
    (get_query_logs strict port "next" 20 both 1000
      (record next_page { cursor = ""; disk = "maybe" })
      10
      two_nodes).0
    ≡ json_error "invalid start" 400
unfolding get_query_logs request_of cursor_request filter_request parse_times
bad_disk = refl
