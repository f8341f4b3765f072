-- ===== src/Pihole/Client/Answers.antt =====
-- What the API calls of client.go return when they succeed.
use pihole_cluster_admin.Prelude.{
  ℕ, String, none, [], ◌∷◌, ◌≡◌, subst, nat_beq, nat_beq_iff, Bool-cases, sym, inl, inr,
  Option-cases,
}
use pihole_cluster_admin.Httpx.{Result, ok}
use pihole_cluster_admin.Httpx.Laws.{ok-injective, err-ne-ok}
use pihole_cluster_admin.Pihole.Rule.{RuleType, RuleKind, type_text, kind_text}
use pihole_cluster_admin.Pihole.Types.{
  FetchQueryLogClientRequest, FetchQueryLogResponse, GetDomainRulesResponse, AddDomainRuleOptions,
  AddDomainRuleResponse, RemoveDomainRuleOptions,
}
use pihole_cluster_admin.Pihole.Client.{
  Client, Request, Response, Http, Node, Io, wrap, base_request, new_request, do_request, get, post,
  delete, empty, payload,
}
use pihole_cluster_admin.Pihole.Client.Calls.{
  read_response, run_request, api_call, fetch_query_logs, get_rules, get_all_domain_rules,
  get_domain_rules_by_type, get_domain_rules_by_kind, get_domain_rules_by_domain,
  get_domain_rules_by_type_kind, get_domain_rules_by_type_kind_domain, add_domain_rule,
  remove_domain_rule,
}
use pihole_cluster_admin.Pihole.Client.Params.{present, log_params, build_query_params-present}
use pihole_cluster_admin.Pihole.Client.Laws.{wrap-ok, ensures, IsAnswer, do_request-IsAnswer}

-- A call of a client, with its arguments.
pub data ApiCall : Type 0 where
  query_logs : FetchQueryLogClientRequest → ApiCall
  all_rules : ApiCall
  rules_by_type : RuleType → ApiCall
  rules_by_kind : RuleKind → ApiCall
  rules_by_domain : String → ApiCall
  rules_by_type_kind : RuleType → RuleKind → ApiCall
  rules_by_type_kind_domain : RuleType → RuleKind → String → ApiCall
  add_rule : AddDomainRuleOptions → ApiCall
  remove_rule : RemoveDomainRuleOptions → ApiCall

abbrev pub Returned : ApiCall → Type 0
Returned (query_logs req) = FetchQueryLogResponse
Returned all_rules = GetDomainRulesResponse
Returned (rules_by_type t) = GetDomainRulesResponse
Returned (rules_by_kind k) = GetDomainRulesResponse
Returned (rules_by_domain d) = GetDomainRulesResponse
Returned (rules_by_type_kind t k) = GetDomainRulesResponse
Returned (rules_by_type_kind_domain t k d) = GetDomainRulesResponse
Returned (add_rule opts) = AddDomainRuleResponse
Returned (remove_rule opts) = Unit {0}

-- The request of Pi-hole's API that a call stands for.
unfoldable pub request_of : ApiCall → Client → Request
unfolding base_request present
request_of (query_logs req) =
    base_request get ("queries" ∷ []) (present (log_params req)) none empty
request_of all_rules = base_request get ("domains" ∷ []) [] none empty
request_of (rules_by_type t) = base_request get ("domains" ∷ type_text t ∷ []) [] none empty
request_of (rules_by_kind k) = base_request get ("domains" ∷ kind_text k ∷ []) [] none empty
request_of (rules_by_domain d) = base_request get ("domains" ∷ d ∷ []) [] none empty
request_of (rules_by_type_kind t k) =
    base_request get ("domains" ∷ type_text t ∷ kind_text k ∷ []) [] none empty
request_of (rules_by_type_kind_domain t k d) =
    base_request get ("domains" ∷ type_text t ∷ kind_text k ∷ d ∷ []) [] none empty
request_of (add_rule opts) =
    base_request post ("domains" ∷ type_text opts.rule_type ∷ kind_text opts.rule_kind ∷ []) [] none
      (payload opts.payload)
request_of (remove_rule opts) =
    base_request delete
      ("domains" ∷ type_text opts.rule_type ∷ kind_text opts.rule_kind ∷ opts.domain ∷ []) [] none
      empty

-- The status of Pi-hole's API for the success of a call.
abbrev pub success_status : ApiCall → ℕ
success_status (add_rule opts) = 201
success_status (remove_rule opts) = 204
success_status _ = 200

module _ {World Body : Type 0} (http : Http World Body) where
  abbrev pub decoded : (c : ApiCall) → Body → Result (Returned c)
  decoded (query_logs req) = http.decode_logs
  decoded all_rules = http.decode_rules
  decoded (rules_by_type t) = http.decode_rules
  decoded (rules_by_kind k) = http.decode_rules
  decoded (rules_by_domain d) = http.decode_rules
  decoded (rules_by_type_kind t k) = http.decode_rules
  decoded (rules_by_type_kind_domain t k d) = http.decode_rules
  decoded (add_rule opts) = http.decode_added
  decoded (remove_rule opts) = λ body. ok tt

  abbrev pub run : (c : ApiCall) → Io World (Returned c)
  run (query_logs req) = fetch_query_logs http req
  run all_rules = get_all_domain_rules http
  run (rules_by_type t) = get_domain_rules_by_type http t
  run (rules_by_kind k) = get_domain_rules_by_kind http k
  run (rules_by_domain d) = get_domain_rules_by_domain http d
  run (rules_by_type_kind t k) = get_domain_rules_by_type_kind http t k
  run (rules_by_type_kind_domain t k d) = get_domain_rules_by_type_kind_domain http t k d
  run (add_rule opts) = add_domain_rule http opts
  run (remove_rule opts) = remove_domain_rule http opts

  -- The node answered the request, sent with a session id, with the expected status and a body
  -- that decodes to the value.
  abbrev pub IsReadFrom : {A : Type 0} → ℕ → (Body → Result A) → Request → A → Node World → Type 0
  IsReadFrom expected decode req a m =
      (resp : Response Body) × (resp.status_code ≡ expected)
      × (decode resp.body ≡ ok a)
      × IsAnswer http req resp m

  read_response-ok :
      {A : Type 0} (expected : ℕ) (decode : Body → Result A) (resp : Response Body) (a : A)
      → read_response http expected decode resp ≡ ok a
      → (resp.status_code ≡ expected) × (decode resp.body ≡ ok a)
  unfolding read_response
  read_response-ok expected decode resp a h =
      elim (Bool-cases (nat_beq resp.status_code expected)) [
        | inl e ↦ (
          (nat_beq_iff resp.status_code expected).0 e,
          wrap-ok "decoding response: " _ a (rw (e, read_response) at h),
        )
        | inr e ↦ absurd (err-ne-ok (rw (e, read_response) at h))
      ]

  new_request-ok :
      (prefix : String) (req req' : Request) → new_request http prefix req ≡ ok req' → req ≡ req'
  unfolding new_request
  new_request-ok prefix req req' h = elim (Option-cases (http.check req)) [
    | inl e ↦ ok-injective _ _ (rw (e, new_request) at h)
    | inr (x, e) ↦ absurd (err-ne-ok (rw (e, new_request) at h))
  ]

  run_request-IsReadFrom :
      {A : Type 0} (prefix : String) (expected : ℕ) (decode : Body → Result A) (req : Request)
      (n : Node World) (a : A)
      → (run_request http prefix expected decode req n).0 ≡ ok a
      → IsReadFrom expected decode req a (run_request http prefix expected decode req n).1
  unfolding run_request
  run_request-IsReadFrom prefix expected decode req n =
      ensures (IsReadFrom expected decode req) (wrap prefix (do_request http req n).0)
        (λ resp k. (read_response http expected decode resp, k)) (do_request http req n).1
        (λ resp sent b read.
          let (good, value) = read_response-ok expected decode resp b read in
          (resp, good, value, do_request-IsAnswer http req n resp (wrap-ok prefix _ resp sent)))

  api_call-IsReadFrom :
      {A : Type 0} (prefix : String) (expected : ℕ) (decode : Body → Result A) (req : Request)
      (n : Node World) (a : A)
      → (api_call http prefix expected decode req n).0 ≡ ok a
      → IsReadFrom expected decode req a (api_call http prefix expected decode req n).1
  unfolding api_call
  api_call-IsReadFrom prefix expected decode req n =
      ensures (IsReadFrom expected decode req) (new_request http "creating request: " req)
        (run_request http prefix expected decode) n
        (λ req' made b done.
          subst
            (λ q. IsReadFrom expected decode q b (run_request http prefix expected decode req' n).1)
            (sym (new_request-ok "creating request: " req req' made))
            (run_request-IsReadFrom prefix expected decode req' n b done))

  -- Whenever a call of the client succeeds, the node has answered the request that the call stands
  -- for, sent with a session id that is not empty, with the status of success, and the value is
  -- decoded from the body of that answer. For a search of the query log, the parameters of that
  -- request are those of the fourteen that are set, each with the value of the field of its name.
  pub run-IsReadFrom :
      (c : ApiCall) (n : Node World) (a : Returned c)
      → (run c n).0 ≡ ok a
      → IsReadFrom (success_status c) (decoded c) (request_of c n.client) a (run c n).1
  unfolding request_of fetch_query_logs get_rules get_all_domain_rules get_domain_rules_by_type
      get_domain_rules_by_kind get_domain_rules_by_domain get_domain_rules_by_type_kind
      get_domain_rules_by_type_kind_domain add_domain_rule remove_domain_rule
  run-IsReadFrom (query_logs req) n a h =
      subst
        (λ ps.
          IsReadFrom 200 http.decode_logs (base_request get ("queries" ∷ []) ps none empty n.client)
            a (fetch_query_logs http req n).1)
        (build_query_params-present req) (api_call-IsReadFrom _ 200 _ _ n a h)
  run-IsReadFrom all_rules n a h = api_call-IsReadFrom _ 200 _ _ n a h
  run-IsReadFrom (rules_by_type t) n a h = api_call-IsReadFrom _ 200 _ _ n a h
  run-IsReadFrom (rules_by_kind k) n a h = api_call-IsReadFrom _ 200 _ _ n a h
  run-IsReadFrom (rules_by_domain d) n a h = api_call-IsReadFrom _ 200 _ _ n a h
  run-IsReadFrom (rules_by_type_kind t k) n a h = api_call-IsReadFrom _ 200 _ _ n a h
  run-IsReadFrom (rules_by_type_kind_domain t k d) n a h = api_call-IsReadFrom _ 200 _ _ n a h
  run-IsReadFrom (add_rule opts) n a h = api_call-IsReadFrom _ 201 _ _ n a h
  run-IsReadFrom (remove_rule opts) n a h = api_call-IsReadFrom _ 204 _ _ n a h
