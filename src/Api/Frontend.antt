-- ===== src/Api/Frontend.antt =====
-- What a request for the frontend is answered with (backend/internal/handler/frontendhandler/handler.go),
-- the address that the request log writes (backend/internal/middleware/requestlogger.go), and the
-- handlers of the health and of the health check.
mod Tests
use Prim.Native.String
use pihole_cluster_admin.Prelude.{
  ℕ, String, Bool, true, false, ◌||◌, Option, none, some, List, [], ◌∷◌, ◌==◌, string_eq,
  if◌then◌else◌,
}
use pihole_cluster_admin.Text.{has_prefix, split, trim_space}
use pihole_cluster_admin.Httpx.{Reply, json}
use pihole_cluster_admin.Health.{Service, Summary, NodeHealth, values}

-- isLikelyAsset
unfoldable pub is_likely_asset : String → Bool
unfolding has_prefix
is_likely_asset p = has_prefix p "/assets/" || has_prefix p "/static/"

-- strings.TrimPrefix(path, "/")
abbrev pub trim_slash : String → String
trim_slash String.[] = ""
trim_slash (String.◌∷◌ c s) = if has_prefix (String.◌∷◌ c s) "/" then s else String.◌∷◌ c s

-- The path that the file server is given, and the header Cache-Control
pub record Served : Type 0 where
  pub path : String
  pub cache_control : Option String

abbrev pub file_name : String → String
file_name trimmed = if trimmed == "" then "index.html" else trimmed

-- spaHandler; `opens` tells whether the embedded files have a name.
unfoldable pub spa_handler : (String → Bool) → String → Served
unfolding is_likely_asset has_prefix
spa_handler opens path =
    if opens (file_name (trim_slash path))
    then record {
      path = path;
      cache_control =
          if is_likely_asset path then some "public, max-age=31536000, immutable" else none;
    }
    else record { path = "/index.html"; cache_control = some "no-cache" }

abbrev pub first_part : List String → String
first_part [] = ""
first_part (p ∷ parts) = trim_space p

abbrev pub host_or : String → Option String → String
host_or remote none = remote
host_or remote (some host) = host

-- realIP, from the headers X-Forwarded-For and X-Real-IP, and the address of the connection with what
-- net.SplitHostPort makes of it.
unfoldable pub real_ip : (String → Option String) → String → String → String → String
unfolding split trim_space
real_ip split_host_port forwarded real remote =
    if forwarded == ""
    then (if real == "" then host_or remote (split_host_port remote) else real)
    else first_part (split "," forwarded)

-- getSummary and getNodeHealth of healthhandler
unfoldable pub handle_get_summary : Service → Reply Summary
handle_get_summary s = json 200 s.summary

unfoldable pub handle_get_node_health : Service → Reply (List NodeHealth)
unfolding values
handle_get_node_health s = json 200 (values s.node_health)

-- healthcheck: the value of the one field `status`
unfoldable pub healthcheck : Reply String
healthcheck = json 200 "OK"
