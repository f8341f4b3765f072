-- ===== src/Pihole/Types.antt =====
-- backend/internal/pihole/pihole_types.go and cluster_types.go. A float of seconds is a number of
-- microseconds: this code only passes such values on.
use pihole_cluster_admin.Prelude.{ℕ, ℤ, String, Bool, Option, List, Map}
use pihole_cluster_admin.Domain.{NodeResult}
use pihole_cluster_admin.Pihole.Rule.{RuleType, RuleKind}

pub record DomainInfo : Type 0 where
  pub domain : String
  pub unicode : String
  pub type_name : String
  pub kind_name : String
  pub comment : Option String
  pub groups : List ℤ
  pub enabled : Bool
  pub id : ℤ
  pub date_added : ℤ
  pub date_modified : ℤ

pub record ReplyInfo : Type 0 where
  pub type_name : String
  pub time : ℕ

pub record ClientInfo : Type 0 where
  pub ip : String
  pub name : Option String

pub record EdeInfo : Type 0 where
  pub code : ℤ
  pub text : Option String

pub record DnsLogEntry : Type 0 where
  pub id : ℤ
  pub time : ℕ
  pub type_name : String
  pub status : String
  pub dnssec : String
  pub domain : String
  pub upstream : Option String
  pub reply : ReplyInfo
  pub client : ClientInfo
  pub list_id : Option ℤ
  pub ede : EdeInfo
  pub cname : Option String

pub record FetchQueryLogFilters : Type 0 where
  pub from : Option ℤ
  pub until : Option ℤ
  pub domain : Option String
  pub client_ip : Option String
  pub client_name : Option String
  pub upstream : Option String
  pub type_name : Option String
  pub status : Option String
  pub reply : Option String
  pub dnssec : Option String
  pub disk : Option Bool

pub record FetchQueryLogClientRequest : Type 0 where
  pub filters : FetchQueryLogFilters
  pub cursor : Option ℤ
  pub length : Option ℤ
  pub start : Option ℤ

pub record FetchQueryLogResponse : Type 0 where
  pub queries : List DnsLogEntry
  pub cursor : ℤ
  pub records_total : ℤ
  pub records_filtered : ℤ
  pub draw : ℤ
  pub took : ℕ

pub record GetDomainRulesResponse : Type 0 where
  pub domains : List DomainInfo
  pub took : ℕ

-- The JSON value of the field `domain`: a string, a list, or neither. An item of the list that is
-- no string is `none`.
pub data DomainValue : Type 0 where
  text : String → DomainValue
  items : List (Option String) → DomainValue
  neither : DomainValue

pub record AddDomainPayload : Type 0 where
  pub domain : DomainValue
  pub comment : Option String
  pub groups : List ℤ
  pub enabled : Option Bool

pub record AddDomainRuleOptions : Type 0 where
  pub rule_type : RuleType
  pub rule_kind : RuleKind
  pub payload : AddDomainPayload

pub record RemoveDomainRuleOptions : Type 0 where
  pub rule_type : RuleType
  pub rule_kind : RuleKind
  pub domain : String

pub record ProcessedResult : Type 0 where
  pub success : List String
  pub errors : List (String × String)

pub record AddDomainRuleResponse : Type 0 where
  pub domains : List DomainInfo
  pub processed : Option ProcessedResult
  pub took : ℕ

-- cluster_types.go
pub record FetchQueryLogClusterRequest : Type 0 where
  pub filters : FetchQueryLogFilters
  pub cursor : Option String
  pub length : Option ℤ
  pub start : Option ℤ

pub record FetchQueryLogsClusterResponse : Type 0 where
  pub cursor : String
  pub results : Map ℤ (NodeResult FetchQueryLogResponse)
  pub end_of_results : Bool

-- ClientConfig of client.go
pub record ClientConfig : Type 0 where
  pub id : ℤ
  pub name : String
  pub scheme : String
  pub host : String
  pub port : ℤ
  pub password : String
