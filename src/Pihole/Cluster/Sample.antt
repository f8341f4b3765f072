-- ===== src/Pihole/Cluster/Sample.antt =====
-- A client for tests: a node that answers each call from its fields.
use pihole_cluster_admin.Prelude.{ℤ, pos, none, some, [], ◌∷◌}
use pihole_cluster_admin.Httpx.{other, Result, ok, err}
use pihole_cluster_admin.Pihole.Types.{FetchQueryLogFilters, FetchQueryLogResponse}
use pihole_cluster_admin.Pihole.Cluster.{Call, ClientPort, Cluster}

pub record Node : Type 0 where
  pub id : ℤ
  pub cursor : ℤ

abbrev pub page_of : ℤ → FetchQueryLogResponse
page_of cursor = record {
  queries = [];
  cursor = cursor;
  records_total = pos 0;
  records_filtered = pos 0;
  draw = pos 0;
  took = 7;
}

abbrev refuse : {A : Type 0} → Call Node (Result A)
refuse n = (some (err (other "refused")), n)

abbrev pub port : ClientPort Node
port = record {
  get_id = λ n. n.id;
  get_node_info = λ n. record { id = n.id; name = "n"; host = "h" };
  update = λ cfg n. record n { id = cfg.id };
  fetch_query_logs = λ req n. (some (ok (page_of n.cursor)), n);
  get_all_domain_rules = λ n. (some (ok (record { domains = []; took = 1 })), n);
  get_domain_rules_by_type = λ t. refuse;
  get_domain_rules_by_kind = λ k. refuse;
  get_domain_rules_by_domain = λ d. refuse;
  get_domain_rules_by_type_kind = λ t k. refuse;
  get_domain_rules_by_type_kind_domain = λ t k d. refuse;
  add_domain_rule = λ opts. refuse;
  remove_domain_rule = λ opts n. (some none, n);
  auth_status = λ n. (none, n);
  logout = λ n. (some none, n);
}

abbrev pub node_a : Node
node_a = record { id = pos 1; cursor = pos 40 }

abbrev pub node_b : Node
node_b = record { id = pos 2; cursor = pos 50 }

abbrev pub no_filters : FetchQueryLogFilters
no_filters = record {
  from = none;
  until = none;
  domain = none;
  client_ip = none;
  client_name = none;
  upstream = none;
  type_name = none;
  status = none;
  reply = none;
  dnssec = none;
  disk = none;
}

-- Two nodes, and a snapshot under the cursor "page" in which only node 1 has its present cursor.
abbrev pub two_nodes : Cluster Node
two_nodes = record {
  clients = (pos 1, node_a) ∷ (pos 2, node_b) ∷ [];
  cursor_manager = record {
    ttl_hours = pos 1;
    search_states =
        (
          "page",
          record {
            expire_at = 100;
            pihole_cursors = (pos 1, pos 40) ∷ (pos 2, pos 49) ∷ [];
            request_params = record no_filters { domain = some "ads.example" };
          },
        )
        ∷ [];
  };
}
