-- ===== src/Pihole/Client/Port.antt =====
-- The client as the interface that the cluster uses.
use pihole_cluster_admin.Prelude.{Option, none, some}
use pihole_cluster_admin.Httpx.{GoError, Result, ok, err}
use pihole_cluster_admin.Pihole.Cluster.{Call, ClientPort}
use pihole_cluster_admin.Pihole.Client.{Http, Node, Io, update, get_node_info, logout}
use pihole_cluster_admin.Pihole.Client.Calls.{
  fetch_query_logs, get_all_domain_rules, get_domain_rules_by_type, get_domain_rules_by_kind,
  get_domain_rules_by_domain, get_domain_rules_by_type_kind, get_domain_rules_by_type_kind_domain,
  add_domain_rule, remove_domain_rule, auth_status,
}

abbrev pub error_of : {A : Type 0} → Result A → Option GoError
error_of (ok a) = none
error_of (err e) = some e

module _ {World : Type 0} where
  abbrev call : {A : Type 0} → Io World A → Call (Node World) (Result A)
  call m n = (some (m n).0, (m n).1)

  abbrev call_error : {A : Type 0} → Io World A → Call (Node World) (Option GoError)
  call_error m n = (some (error_of (m n).0), (m n).1)

-- `*Client` as a `clientPort`
unfoldable pub client_port : {World Body : Type 0} → Http World Body → ClientPort (Node World)
client_port http = record {
  get_id = λ n. n.client.cfg.id;
  get_node_info = λ n. get_node_info n.client;
  update = λ cfg n. record n { client = update cfg n.client };
  fetch_query_logs = λ req. call (fetch_query_logs http req);
  get_all_domain_rules = call (get_all_domain_rules http);
  get_domain_rules_by_type = λ t. call (get_domain_rules_by_type http t);
  get_domain_rules_by_kind = λ k. call (get_domain_rules_by_kind http k);
  get_domain_rules_by_domain = λ d. call (get_domain_rules_by_domain http d);
  get_domain_rules_by_type_kind = λ t k. call (get_domain_rules_by_type_kind http t k);
  get_domain_rules_by_type_kind_domain =
      λ t k d. call (get_domain_rules_by_type_kind_domain http t k d);
  add_domain_rule = λ opts. call (add_domain_rule http opts);
  remove_domain_rule = λ opts. call_error (remove_domain_rule http opts);
  auth_status = auth_status http;
  logout = call_error (logout http);
}
