-- ===== src/Api/QueryLogs.antt =====
-- backend/internal/handler/queryloghandler/handler.go: a request for a page of query logs.
--
-- A missing query parameter is the empty text. The parsers of `strconv` and `time` are parameters.
pub mod Laws
mod Tests
use pihole_cluster_admin.Prelude.{
  ℕ, ℤ, pos, negsuc, ◌-◌, String, Bool, true, false, not, ◌&&◌, Option, none, some, List, ◌==◌,
  string_eq, ltb, ltb_ℤ, if◌then◌else◌,
}
use pihole_cluster_admin.Httpx.{
  GoError, other, error_text, Result, ok, err, ◌>>=◌, Reply, json, bad_request,
}
use pihole_cluster_admin.Pihole.Types.{
  FetchQueryLogFilters, FetchQueryLogClusterRequest, FetchQueryLogsClusterResponse,
}
use pihole_cluster_admin.Pihole.Cluster.{ClientPort, Cluster}
use pihole_cluster_admin.Pihole.Cluster.QueryLogs.{fetch_query_logs}

-- strconv.Atoi, time.Parse(time.RFC3339) in seconds, and strconv.ParseBool
pub record Parsers : Type 0 where
  pub atoi : String → Option ℤ
  pub rfc3339 : String → Option ℤ
  pub parse_bool : String → Option Bool

pub record QueryParams : Type 0 where
  pub cursor : String
  pub from : String
  pub until : String
  pub length : String
  pub start : String
  pub domain : String
  pub client_ip : String
  pub client_name : String
  pub upstream : String
  pub type_name : String
  pub status : String
  pub reply : String
  pub dnssec : String
  pub disk : String

abbrev pub no_filters : FetchQueryLogFilters
no_filters = record {
  from = none;
  until = none;
  domain = none;
  client_ip = none;
  client_name = none;
  upstream = none;
  type_name = none;
  status = none;
  reply = none;
  dnssec = none;
  disk = none;
}

abbrev pub value_or : {A : Type 0} → String → Option A → Result (Option A)
value_or message none = err (other message)
value_or message (some a) = ok (some a)

-- `if v != "" { parse, or reply with the message }`
abbrev pub optional : {A : Type 0} → String → (String → Option A) → String → Result (Option A)
optional message parse v = if v == "" then ok none else value_or message (parse v)

abbrev pub not_negative : Option ℤ → Option ℤ
not_negative none = none
not_negative (some i) = if ltb_ℤ i (pos 0) then none else some i

abbrev pub given : String → Option String
given v = if v == "" then none else some v

-- Seconds that are five minutes before the time
abbrev pub five_minutes_before : ℕ → ℤ
five_minutes_before now = if ltb now 300 then negsuc (300 - now - 1) else pos (now - 300)

module _ (parsers : Parsers) where
  abbrev pub parse_length : String → Result (Option ℤ)
  parse_length = optional "invalid length" (λ v. not_negative (parsers.atoi v))

  -- `from` and `until`: both, or five minutes up to now
  unfoldable pub parse_times : ℕ → String → String → Result (Option ℤ × Option ℤ)
  parse_times now from until =
      if from == "" && until == "" then ok (some (five_minutes_before now), some (pos now)) else (do
        f ← optional "invalid 'from' time" parsers.rfc3339 from
        u ← optional "invalid 'until' time" parsers.rfc3339 until
        ok (f, u))

  unfoldable pub cursor_request : QueryParams → Result FetchQueryLogClusterRequest
  cursor_request q = do
    length ← parse_length q.length
    ok (record { filters = no_filters; cursor = some q.cursor; length = length; start = none })

  unfoldable pub filter_request : ℕ → QueryParams → Result FetchQueryLogClusterRequest
  unfolding parse_times
  filter_request now q = do
    times ← parse_times now q.from q.until
    length ← parse_length q.length
    start ← optional "invalid start" (λ v. not_negative (parsers.atoi v)) q.start
    disk ← optional "invalid start" parsers.parse_bool q.disk
    ok (record {
      filters = record {
        from = times.0;
        until = times.1;
        domain = given q.domain;
        client_ip = given q.client_ip;
        client_name = given q.client_name;
        upstream = given q.upstream;
        type_name = given q.type_name;
        status = given q.status;
        reply = given q.reply;
        dnssec = given q.dnssec;
        disk = disk;
      };
      cursor = none;
      length = length;
      start = start;
    })

  -- The request for the cluster, at a time in seconds
  unfoldable pub request_of : ℕ → QueryParams → Result FetchQueryLogClusterRequest
  unfolding cursor_request filter_request
  request_of now q = if not (q.cursor == "") then cursor_request q else filter_request now q

module _ {C : Type 0} (parsers : Parsers) (port : ClientPort C) (uuid : String) (now : ℕ)
    (order : List ℤ) where
  abbrev pub page_reply :
      Result FetchQueryLogsClusterResponse × Cluster C
      → Reply FetchQueryLogsClusterResponse × Cluster C
  page_reply (err e, c) = bad_request (error_text e) c
  page_reply (ok page, c) = (json 200 page, c)

  abbrev pub fetch_requested :
      Result FetchQueryLogClusterRequest
      → ℕ
      → Cluster C
      → Reply FetchQueryLogsClusterResponse × Cluster C
  fetch_requested (err e) found_at c = bad_request (error_text e) c
  fetch_requested (ok req) found_at c =
      page_reply (fetch_query_logs port uuid now order req found_at c)

  -- getQueryLogs at `seconds`; the other times are those of `fetch_query_logs`.
  unfoldable pub get_query_logs :
      ℕ → QueryParams → ℕ → Cluster C → Reply FetchQueryLogsClusterResponse × Cluster C
  unfolding request_of error_text fetch_query_logs
  get_query_logs seconds q found_at c = fetch_requested (request_of parsers seconds q) found_at c
