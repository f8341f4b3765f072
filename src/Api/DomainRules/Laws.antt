-- ===== src/Api/DomainRules/Laws.antt =====
-- Which requests to add a rule reach the nodes, and with what.
use pihole_cluster_admin.Prelude.{
  some-ne-none, ℤ, ◌≡◌, ◌↔◌, ◌⊎◌, inl, inr, refl, sym, ◌∙◌, ap, String, Option, none, some, List,
  [], ◌∷◌, Map, All, Option-cases,
}
use pihole_cluster_admin.Text.{trim_space, to_lower}
use pihole_cluster_admin.Httpx.{Reply, json_error, parsed}
use pihole_cluster_admin.Domain.{NodeResult}
use pihole_cluster_admin.Pihole.Rule.{
  RuleType, RuleKind, type_text, kind_text, parse_rule_type, parse_rule_kind,
}
use pihole_cluster_admin.Pihole.Rule.Laws.{parse_rule_type_iff, parse_rule_kind_iff}
use pihole_cluster_admin.Pihole.Types.{
  AddDomainPayload, AddDomainRuleOptions, AddDomainRuleResponse, DomainValue, text, items, neither,
}
use pihole_cluster_admin.Pihole.Cluster.{ClientPort, Cluster}
use pihole_cluster_admin.Pihole.Cluster.Rules.{add_domain_rule}
use pihole_cluster_admin.Api.DomainRules.{
  bad, strings_of, slice_value, normalize_domain, domain_message, with_kind, encoded, add_body,
  handle_add_domain_rule,
}

abbrev pub IsString : Option String → Type 0
IsString none = ⊥
IsString (some s) = Unit

-- The value that stands for a `domain` when it is passed on: a list of one text for a text, and the
-- list itself for a list of texts; but null for the empty list.
abbrev pub IsPassedAs : DomainValue → DomainValue → Type 0
IsPassedAs (text s) d = d ≡ items (some s ∷ [])
IsPassedAs (items []) d = d ≡ neither
IsPassedAs (items (x ∷ xs)) d = All IsString (x ∷ xs) × (d ≡ items (x ∷ xs))
IsPassedAs neither d = ⊥

strings_of-All : (xs : List (Option String)) → All IsString xs → strings_of xs ≡ some xs
unfolding strings_of
strings_of-All [] h = refl
strings_of-All (none ∷ xs) h = absurd h.0
strings_of-All (some s ∷ xs) h = rw (strings_of-All xs h.1) refl

some-injective : {A : Type 0} (a b : A) → some a ≡ some b → a ≡ b
some-injective a b h = cc

All-strings_of :
    (xs found : List (Option String)) → strings_of xs ≡ some found → All IsString xs × (xs ≡ found)
unfolding strings_of
All-strings_of [] found h = (tt, some-injective _ _ h)
All-strings_of (none ∷ xs) found h = absurd (some-ne-none (sym h))
All-strings_of (some s ∷ xs) found h = elim (Option-cases (strings_of xs)) [
  | inl e ↦ absurd (some-ne-none (sym (rw (e, strings_of) at h)))
  | inr (rest, e) ↦
      let (all, same) = All-strings_of xs rest e in
      ((tt, all), ap (λ ys. some s ∷ ys) same ∙ some-injective _ _ (rw (e, strings_of) at h))
]

slice_iff :
    (x : Option String) (xs : List (Option String)) (d : DomainValue)
    (o : Option (List (Option String)))
    → strings_of (x ∷ xs) ≡ o
    → ((elim o [ none ↦ none | some found ↦ some (slice_value found) ]) ≡ some d)
      ↔ (All IsString (x ∷ xs) × (d ≡ items (x ∷ xs)))
slice_iff x xs d none e = (
  (λ h. absurd (some-ne-none (sym h))),
  (λ h. absurd (some-ne-none (sym (strings_of-All (x ∷ xs) h.0) ∙ e))),
)
slice_iff x xs d (some found) e =
    let (all, same) = All-strings_of (x ∷ xs) found e in
    (
      (λ h. (all, sym (some-injective _ _ h) ∙ ap slice_value (sym same))),
      (λ h. ap some (ap slice_value (sym same) ∙ sym h.1)),
    )

normalize_domain_iff : (v d : DomainValue) → (normalize_domain v ≡ some d) ↔ IsPassedAs v d
unfolding normalize_domain strings_of
normalize_domain_iff (text s) d = ((λ h. sym (some-injective _ _ h)), (λ e. ap some (sym e)))
normalize_domain_iff (items []) d = ((λ h. sym (some-injective _ _ h)), (λ e. ap some (sym e)))
normalize_domain_iff (items (x ∷ xs)) d = slice_iff x xs d (strings_of (x ∷ xs)) refl
normalize_domain_iff neither d = ((λ h. absurd (some-ne-none (sym h))), (λ e. absurd e))

abbrev pub IsAddRequest : String → String → Option AddDomainPayload → AddDomainRuleOptions → Type 0
IsAddRequest t k decoded opts =
    (to_lower (trim_space t) ≡ type_text opts.rule_type)
    × (to_lower (trim_space k) ≡ kind_text opts.rule_kind)
    × ((body : AddDomainPayload) × (decoded ≡ some body)
        × IsPassedAs body.domain opts.payload.domain
        × (opts.payload ≡ record body { domain = opts.payload.domain }))

module _ {C : Type 0} (port : ClientPort C) (order : List ℤ) where
  abbrev Answer : Type 0
  Answer = Reply (Map ℤ (NodeResult AddDomainRuleResponse)) × Cluster C

  -- Either the nodes are asked, or the reply has the status 400 and nothing has changed.
  abbrev pub AddsOrRefuses : (AddDomainRuleOptions → Type 0) → Answer → Cluster C → Type 0
  AddsOrRefuses IsFor r c =
      ((opts : AddDomainRuleOptions) × IsFor opts
        × (r ≡ encoded (add_domain_rule port opts order c)))
      ⊎ (((opts : AddDomainRuleOptions) → ¬ (IsFor opts))
          × ((m : String) × (r ≡ (json_error m 400, c))))

  domains_lem :
      (t k : String) (ty : RuleType) (kind : RuleKind) (body : AddDomainPayload) (c : Cluster C)
      (o : Option DomainValue)
      → normalize_domain body.domain ≡ o
      → to_lower (trim_space t) ≡ type_text ty
      → to_lower (trim_space k) ≡ kind_text kind
      → AddsOrRefuses
          (IsAddRequest t k (some body))
          (parsed
            (domain_message body.domain)
            o
            (λ domains. encoded (
              add_domain_rule port
                (record {
                  rule_type = ty;
                  rule_kind = kind;
                  payload = record body { domain = domains };
                })
                order
                c))
            c)
          c
  domains_lem t k ty kind body c none e is_type is_kind = inr (
    (λ opts (a, b, (body', same, passed, shape)). some-ne-none (
        sym ((normalize_domain_iff body'.domain opts.payload.domain).1 passed)
        ∙ ap (λ p. normalize_domain p.domain) (sym (some-injective _ _ same))
        ∙ e)),
    (_, refl),
  )
  domains_lem t k ty kind body c (some d) e is_type is_kind =
      inl
        (_, (is_type, is_kind, (body, refl, (normalize_domain_iff body.domain d).0 e, refl)), refl)

  decoded_lem :
      (t k : String) (ty : RuleType) (kind : RuleKind) (decoded : Option AddDomainPayload)
      (c : Cluster C)
      → to_lower (trim_space t) ≡ type_text ty
      → to_lower (trim_space k) ≡ kind_text kind
      → AddsOrRefuses
          (IsAddRequest t k decoded)
          (parsed "invalid JSON body" decoded (λ body. add_body port order ty kind body c) c)
          c
  unfolding add_body
  decoded_lem t k ty kind none c is_type is_kind =
      inr ((λ opts (a, b, (body, same, passed, shape)). some-ne-none (sym same)), (_, refl))
  decoded_lem t k ty kind (some body) c is_type is_kind =
      domains_lem t k ty kind body c _ refl is_type is_kind

  kind_lem :
      (t k : String) (ty : RuleType) (o : Option RuleKind) (decoded : Option AddDomainPayload)
      (c : Cluster C)
      → parse_rule_kind k ≡ o
      → to_lower (trim_space t) ≡ type_text ty
      → AddsOrRefuses
          (IsAddRequest t k decoded)
          (parsed
            (bad "kind")
            o
            (λ kind.
              parsed "invalid JSON body" decoded (λ body. add_body port order ty kind body c) c)
            c)
          c
  kind_lem t k ty none decoded c e is_type = inr (
    (λ opts (a, b, rest). some-ne-none (sym ((parse_rule_kind_iff k opts.rule_kind).1 b) ∙ e)),
    (_, refl),
  )
  kind_lem t k ty (some kind) decoded c e is_type =
      decoded_lem t k ty kind decoded c is_type ((parse_rule_kind_iff k kind).0 e)

  type_lem :
      (t k : String) (o : Option RuleType) (decoded : Option AddDomainPayload) (c : Cluster C)
      → parse_rule_type t ≡ o
      → AddsOrRefuses
          (IsAddRequest t k decoded)
          (parsed
            (bad "type")
            o
            (λ ty.
              with_kind k
                (λ kind c'.
                  parsed "invalid JSON body" decoded
                    (λ body. add_body port order ty kind body c')
                    c')
                c)
            c)
          c
  type_lem t k none decoded c e = inr (
    (λ opts (a, b, rest). some-ne-none (sym ((parse_rule_type_iff t opts.rule_type).1 a) ∙ e)),
    (_, refl),
  )
  type_lem t k (some ty) decoded c e =
      kind_lem t k ty (parse_rule_kind k) decoded c refl ((parse_rule_type_iff t ty).0 e)

  -- A request to add a rule either asks the nodes, with the type and the kind of its path and with
  -- its body, in which a domain that is one text has become a list and an empty list of domains has
  -- become null; or, exactly when it has no such type, kind or body, it gets the status 400 and
  -- the cluster is as it was.
  pub handle_add_domain_rule_lem :
      (t k : String) (decoded : Option AddDomainPayload) (c : Cluster C)
      → AddsOrRefuses (IsAddRequest t k decoded) (handle_add_domain_rule port order t k decoded c) c
  unfolding handle_add_domain_rule
  handle_add_domain_rule_lem t k decoded c = type_lem t k (parse_rule_type t) decoded c refl
