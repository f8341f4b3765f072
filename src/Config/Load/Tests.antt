-- ===== src/Config/Load/Tests.antt =====
-- The defaults with a key that the environment gives.
use pihole_cluster_admin.Prelude.{
  ℕ, ℤ, pos, ◌+◌, ◌≤◌, ◌≡◌, ◌↔◌, refl, ap, subst, String, Bool, false, Option, none, some, [], ◌==◌,
  string_eq, if◌then◌else◌, Map, lookup, insert, lookup-insert,
}
use pihole_cluster_admin.Text.{trim_space, byte_length}
use pihole_cluster_admin.Httpx.{ok}
use pihole_cluster_admin.Config.{Config, Files}
use pihole_cluster_admin.Config.Load.{
  Value, text, number, truth, Viper, was_read, set_defaults, config_file, prepared, bind_flags,
  init_config, load,
}
use pihole_cluster_admin.Config.Load.Settings.{ViperLaws, Reads, or_default}
use pihole_cluster_admin.Config.Load.Laws.{load-ok_iff}

abbrev long_key : String
long_key = "0123456789abcdef0123456789abcdef"

-- The environment has the key; the state are the defaults.
abbrev from_environment : String → Option Value
from_environment k = if k == "encryption_key" then some (text long_key) else none

abbrev text_or : Option Value → String
text_or (some (text s)) = s
text_or _ = ""

abbrev number_or : Option Value → ℤ
number_or (some (number n)) = n
number_or _ = pos 0

abbrev truth_or : Option Value → Bool
truth_or (some (truth b)) = b
truth_or _ = false

abbrev setting : Map String Value → String → Option Value
setting m k = or_default (from_environment k) (lookup k m)

abbrev config_of : (String → Option Value) → Config
config_of get = record {
  database = record {
    path = text_or (get "database.path");
    migrations_path = text_or (get "database.migrations_path");
  };
  encryption_key = text_or (get "encryption_key");
  health_service = record {
    grace_period_seconds = number_or (get "health_service.grace_period_seconds");
    polling_interval_seconds = number_or (get "health_service.polling_interval_seconds");
  };
  log = record { level = text_or (get "log.level") };
  server = record {
    port = number_or (get "server.port");
    tls_enabled = truth_or (get "server.tls_enabled");
    tls_cert_file = text_or (get "server.tls_cert_file");
    tls_key_file = text_or (get "server.tls_key_file");
    read_header_timeout_seconds = number_or (get "server.read_header_timeout_seconds");
    session = record {
      backend = text_or (get "server.session.backend");
      ttl_hours = number_or (get "server.session.ttl_hours");
      secure = truth_or (get "server.session.secure");
      allow_insecure_cookie = truth_or (get "server.session.allow_insecure_cookie");
      cookie_name = text_or (get "server.session.cookie_name");
      cookie_path = text_or (get "server.session.cookie_path");
      same_site = text_or (get "server.session.same_site");
    };
    server_side_events = record {
      heartbeat_seconds = number_or (get "server.server_side_events.heartbeat_seconds");
    };
  };
}

abbrev map_viper : Viper (Map String Value)
map_viper = record {
  bind_flag = λ name value m. m;
  get_string = λ name m. "";
  set_config_file = λ name m. m;
  set_config_name = λ name m. m;
  set_config_type = λ name m. m;
  add_config_path = λ path m. m;
  set_env_prefix = λ prefix m. m;
  set_env_key_replacer = λ old new m. m;
  automatic_env = λ m. m;
  set_default = insert;
  read_in_config = λ m. (was_read, m);
  unmarshal = λ m. ok (config_of (setting m));
}

config_of-Reads : (get : String → Option Value) → Reads get (config_of get)
config_of-Reads get = record {
  path = λ s h. ap text_or h;
  key = λ s h. ap text_or h;
  grace = λ n h. ap number_or h;
  polling = λ n h. ap number_or h;
  level = λ s h. ap text_or h;
  port = λ n h. ap number_or h;
  tls = λ b h. ap truth_or h;
  timeout = λ n h. ap number_or h;
  backend = λ s h. ap text_or h;
  ttl = λ n h. ap number_or h;
  name = λ s h. ap text_or h;
  cookie = λ s h. ap text_or h;
  same_site = λ s h. ap text_or h;
  secure = λ b h. ap truth_or h;
  heartbeat = λ n h. ap number_or h;
}

decoded-Reads :
    (m : Map String Value) (c : Config) → ok (config_of (setting m)) ≡ ok c → Reads (setting m) c
decoded-Reads m c h = subst (Reads (setting m)) (cc) (config_of-Reads (setting m))

map_viper-laws : ViperLaws map_viper
map_viper-laws = record {
  given = λ m. from_environment;
  default_of = λ m k. lookup k m;
  default_set = lookup-insert;
  default_read = λ m key. refl;
  reads = decoded-Reads;
}

-- A disk that counts the directories
abbrev counter : Files ℕ
counter = record {
  dir = λ path. "/var/lib/pihole-cluster-admin";
  mkdir_all = λ path n. (none, n + 1);
}

abbrev ready : Map String Value
unfolding prepared set_defaults config_file insert
ready = prepared map_viper none []

load-ok_iff_example : ((load map_viper counter none [] 0).0 ≡ ok (config_of (setting ready))) ↔ (
    ((counter.mkdir_all (counter.dir "/var/lib/pihole-cluster-admin/data.db") 0).0 ≡ none)
    × (32 ≤ byte_length (trim_space long_key)))
unfolding init_config bind_flags prepared set_defaults config_file insert map_viper-laws
load-ok_iff_example =
    load-ok_iff map_viper map_viper-laws counter none [] ready long_key (config_of (setting ready))
      0 refl (λ k. refl) refl
