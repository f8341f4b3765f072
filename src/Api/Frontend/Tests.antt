-- ===== src/Api/Frontend/Tests.antt =====
-- Requests for a frontend of two files.
use pihole_cluster_admin.Prelude.{◌≡◌, refl, String, Bool, ◌||◌, none, some, ◌==◌, string_eq}
use pihole_cluster_admin.Text.{has_prefix, split, trim_space}
use pihole_cluster_admin.Api.Frontend.{is_likely_asset, spa_handler, real_ip}

abbrev two_files : String → Bool
two_files name = name == "index.html" || name == "assets/main.js"

root_served : spa_handler two_files "/" ≡ record { path = "/"; cache_control = none }
unfolding spa_handler is_likely_asset has_prefix
root_served = refl

asset_served : spa_handler two_files "/assets/main.js" ≡ record {
  path = "/assets/main.js";
  cache_control = some "public, max-age=31536000, immutable";
}
unfolding spa_handler is_likely_asset has_prefix
asset_served = refl

route_served :
    spa_handler two_files "/query/logs"
    ≡ record { path = "/index.html"; cache_control = some "no-cache" }
unfolding spa_handler is_likely_asset has_prefix
route_served = refl

forwarded_ip : real_ip (λ a. none) "10.0.0.1 , 10.0.0.2" "" "10.0.0.3:80" ≡ "10.0.0.1"
unfolding real_ip split trim_space
forwarded_ip = refl
