-- ===== src/Pihole/Client/Calls.antt =====
-- The API calls of client.go: query logs, domain rules and the authentication status.
use Prim.Native.String.{◌++◌}
use mathlib.Core.List.{◌++◌ as append}
use pihole_cluster_admin.Prelude.{
  ℕ, String, not, Option, none, some, List, [], ◌∷◌, nat_eq, ◌==◌, if◌then◌else◌,
}
use pihole_cluster_admin.Text.{show_nat}
use pihole_cluster_admin.Httpx.{other, Result, ok, err}
use pihole_cluster_admin.Domain.{AuthStatus}
use pihole_cluster_admin.Pihole.Rule.{RuleType, RuleKind, type_text, kind_text}
use pihole_cluster_admin.Pihole.Types.{
  FetchQueryLogClientRequest, FetchQueryLogResponse, GetDomainRulesResponse, AddDomainRuleOptions,
  AddDomainRuleResponse, RemoveDomainRuleOptions,
}
use pihole_cluster_admin.Pihole.Client.{
  Param, number, word, flag, empty, payload, get, post, delete, Request, Response, Http, Node, Io,
  and_then, return, wrap, add_seconds, AuthResponse, base_request, new_request, do_request,
}

-- `if v != nil { params.Set(key, ...) }`
abbrev pub param {ℓ} : {A : Type ℓ} → String → (A → Param) → Option A → List (String × Param)
param key write none = []
param key write (some a) = (key, write a) ∷ []

-- buildQueryParams, before `Encode` sorts the keys.
unfoldable pub build_query_params : FetchQueryLogClientRequest → List (String × Param)
build_query_params req = append (param "cursor" number req.cursor) (
    append (param "length" number req.length) (
      append (param "start" number req.start) (
        append (param "from" number req.filters.from) (
          append (param "until" number req.filters.until) (
            append (param "domain" word req.filters.domain) (
              append (param "client_ip" word req.filters.client_ip) (
                append (param "client_name" word req.filters.client_name) (
                  append (param "upstream" word req.filters.upstream) (
                    append (param "type" word req.filters.type_name) (
                      append (param "status" word req.filters.status) (
                        append (param "reply" word req.filters.reply) (
                          append (param "dnssec" word req.filters.dnssec)
                            (param "disk" flag req.filters.disk)))))))))))))

module _ {World Body : Type 0} (http : Http World Body) where
  -- The status test and the decoder of a call.
  unfoldable pub read_response : {A : Type 0} → ℕ → (Body → Result A) → Response Body → Result A
  read_response expected decode resp =
      if not (resp.status_code == expected)
      then err (other ("unexpected status code " ++ show_nat resp.status_code))
      else wrap "decoding response: " (decode resp.body)

  unfoldable pub run_request : {A : Type 0} → String → ℕ → (Body → Result A) → Request → Io World A
  unfolding read_response
  run_request prefix expected decode req n =
      and_then (wrap prefix (do_request http req n).0)
        (λ resp. return (read_response expected decode resp)) (do_request http req n).1

  -- The shape of every call: make the request, send it, test the status and decode the body.
  unfoldable pub api_call : {A : Type 0} → String → ℕ → (Body → Result A) → Request → Io World A
  unfolding run_request
  api_call prefix expected decode req n =
      and_then (new_request http "creating request: " req) (run_request prefix expected decode) n

  unfoldable pub fetch_query_logs : FetchQueryLogClientRequest → Io World FetchQueryLogResponse
  unfolding api_call base_request build_query_params
  fetch_query_logs req n =
      api_call "requesting pihole logs: " 200 http.decode_logs
        (base_request get ("queries" ∷ []) (build_query_params req) none empty n.client) n

  -- A read of domain rules, below `/domains`.
  unfoldable pub get_rules : List String → Io World GetDomainRulesResponse
  unfolding api_call base_request
  get_rules path n =
      api_call "requesting Pi-hole domain rules: " 200 http.decode_rules
        (base_request get ("domains" ∷ path) [] none empty n.client) n

  unfoldable pub get_all_domain_rules : Io World GetDomainRulesResponse
  unfolding get_rules
  get_all_domain_rules = get_rules []

  unfoldable pub get_domain_rules_by_type : RuleType → Io World GetDomainRulesResponse
  unfolding get_rules
  get_domain_rules_by_type t = get_rules (type_text t ∷ [])

  unfoldable pub get_domain_rules_by_kind : RuleKind → Io World GetDomainRulesResponse
  unfolding get_rules
  get_domain_rules_by_kind k = get_rules (kind_text k ∷ [])

  unfoldable pub get_domain_rules_by_domain : String → Io World GetDomainRulesResponse
  unfolding get_rules
  get_domain_rules_by_domain d = get_rules (d ∷ [])

  unfoldable pub get_domain_rules_by_type_kind :
      RuleType → RuleKind → Io World GetDomainRulesResponse
  unfolding get_rules
  get_domain_rules_by_type_kind t k = get_rules (type_text t ∷ kind_text k ∷ [])

  unfoldable pub get_domain_rules_by_type_kind_domain :
      RuleType → RuleKind → String → Io World GetDomainRulesResponse
  unfolding get_rules
  get_domain_rules_by_type_kind_domain t k d = get_rules (type_text t ∷ kind_text k ∷ d ∷ [])

  unfoldable pub add_domain_rule : AddDomainRuleOptions → Io World AddDomainRuleResponse
  unfolding api_call base_request
  add_domain_rule opts n =
      api_call "adding domain to pihole: " 201 http.decode_added
        (base_request post ("domains" ∷ type_text opts.rule_type ∷ kind_text opts.rule_kind ∷ []) []
          none (payload opts.payload) n.client)
        n

  -- There is no body to decode.
  unfoldable pub remove_domain_rule : RemoveDomainRuleOptions → Io World (Unit {0})
  unfolding api_call base_request
  remove_domain_rule opts n =
      api_call "requesting Pi-hole logs: " 204 (λ body. ok tt)
        (base_request delete
          ("domains" ∷ type_text opts.rule_type ∷ kind_text opts.rule_kind ∷ opts.domain ∷ []) []
          none empty n.client)
        n

  -- `took` is not copied from the response.
  unfoldable pub auth_status_of : ℕ → AuthResponse → AuthStatus
  auth_status_of now auth = record {
    valid = auth.valid;
    validity_seconds = auth.validity;
    valid_until = add_seconds now auth.validity;
    took = 0;
  }

  unfoldable pub read_auth_status : Response Body → Io World AuthStatus
  unfolding read_response auth_status_of
  read_auth_status resp n =
      and_then (read_response 200 http.decode_auth resp)
        (λ auth m. (ok (auth_status_of (http.now m.world) auth), m)) n

  -- The error of `http.NewRequestWithContext` is only logged, and `doRequest` panics on the nil
  -- request: `none`.
  unfoldable pub auth_status : Node World → Option (Result AuthStatus) × Node World
  unfolding read_auth_status base_request
  auth_status n =
      let req = base_request get ("auth" ∷ []) [] none empty n.client in
      elim (http.check req) [
        | some e ↦ (none, n)
        | none ↦
            let (r, m) =
              and_then (wrap "getting Pi-hole auth status: " (do_request http req n).0)
                read_auth_status (do_request http req n).1 in
            (some r, m)
      ]
