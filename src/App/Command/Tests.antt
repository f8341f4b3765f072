-- ===== src/App/Command/Tests.antt =====
-- A run of the program that is stopped by a signal.
use pihole_cluster_admin.Prelude.{
  ℕ, pos, ◌≡◌, refl, ◌↔◌, ◌⊎◌, String, none, some, List, [], ◌∷◌, ◌==◌, string_eq, if◌then◌else◌,
}
use pihole_cluster_admin.Httpx.{ok, other}
use pihole_cluster_admin.Crypto.Sample.{toy}
use pihole_cluster_admin.Pihole.Types.{ClientConfig}
use pihole_cluster_admin.Pihole.Cluster.Sample.{Node, port}
use pihole_cluster_admin.Nodes.Sample.{small_table}
use pihole_cluster_admin.Config.Load.{Viper, not_found, load}
use pihole_cluster_admin.App.Start.Sample.{files, driver, cfg}
use pihole_cluster_admin.App.Server.{Event, signalled, woken, shut}
use pihole_cluster_admin.App.Command.{Invocation, answered, runs, exits, execute}
use pihole_cluster_admin.App.Command.Laws.{RanWell, execute-zero_iff}

-- Settings that decode to one configuration
abbrev viper : Viper ℕ
viper = record {
  bind_flag = λ name value n. n;
  get_string = λ name n. "";
  set_config_file = λ name n. n;
  set_config_name = λ name n. n;
  set_config_type = λ name n. n;
  add_config_path = λ path n. n;
  set_env_prefix = λ prefix n. n;
  set_env_key_replacer = λ old new n. n;
  automatic_env = λ n. n;
  set_default = λ key value n. n;
  read_in_config = λ n. (not_found, n);
  unmarshal = λ n. ok cfg;
}

-- Two flags, one of which is known
abbrev cobra : List String → Invocation
cobra [] = runs
cobra (flag ∷ args) =
    if flag == "--help" then answered none else answered (some (other "unknown flag"))

abbrev new_client : ClientConfig → Node
new_client c = record { id = c.id; cursor = pos 0 }

abbrev stopped : List Event
stopped = signalled ∷ woken ∷ shut none ∷ []

execute-zero_iff_example :
    ((execute viper files driver toy small_table port new_client cobra [] none 0 stopped 0).0
      ≡ some (exits 0))
    ↔ ((cobra [] ≡ answered none)
        ⊎ ((cobra [] ≡ runs)
            × RanWell viper files driver toy small_table port new_client stopped
                (load viper files none 0 0)))
execute-zero_iff_example =
    execute-zero_iff viper files driver toy small_table port new_client cobra [] none 0 stopped 0

execute_test :
    (execute viper files driver toy small_table port new_client cobra [] none 0 stopped 0).0
    ≡ some (exits 0)
unfolding execute
execute_test = refl

help_test :
    (execute viper files driver toy small_table port new_client cobra ("--help" ∷ []) none 0 [] 0).0
    ≡ some (exits 0)
unfolding execute
help_test = refl

flag_test :
    (execute viper files driver toy small_table port new_client cobra ("--nope" ∷ []) none 0 [] 0).0
    ≡ some (exits 1)
unfolding execute
flag_test = refl
