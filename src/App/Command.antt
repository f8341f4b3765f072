-- ===== src/App/Command.antt =====
-- The command of backend/cmd/pihole-cluster-admin/root.go from the command line to the exit status, with
-- Run of backend/internal/app/app.go. Cobra's reading of the arguments is a parameter. The logger and the
-- other goroutines of Run do not end the program.
pub mod Laws
mod Tests
use pihole_cluster_admin.Prelude.{ℕ, ℤ, String, Option, none, some, List}
use pihole_cluster_admin.Httpx.{GoError, Result, ok, err}
use pihole_cluster_admin.Crypto.{Cipher}
use pihole_cluster_admin.Pihole.Types.{ClientConfig}
use pihole_cluster_admin.Pihole.Cluster.{ClientPort}
use pihole_cluster_admin.Nodes.Store.{PiholeTable}
use pihole_cluster_admin.Config.{Config, Files}
use pihole_cluster_admin.Config.Load.{Viper, load}
use pihole_cluster_admin.App.Database.{Driver, wrapped}
use pihole_cluster_admin.App.Start.{App, Started, exited, failed, started, new_app}
use pihole_cluster_admin.App.Server.{
  Main, waiting, shutting_down, returned, Server, started as new_server, Event, run, exit_status,
}

-- What cobra does with the arguments of the program: it calls PersistentPreRunE and RunE, or it answers by
-- itself, as it does for --help, or returns an error, as it does for an unknown flag.
pub data Invocation : Type 0 where
  answered : Option GoError → Invocation
  runs : Invocation

-- The program has ended with a status, or runs.
pub data Exit : Type 0 where
  exits : ℕ → Exit
  running : Exit

abbrev pub app_error : Option GoError → Option GoError
app_error none = none
app_error (some e) = some (wrapped "app run error" e)

-- What `application.Run` has returned, if it has
unfoldable pub run_result : Main → Exit
unfolding exit_status
run_result (returned e) = exits (exit_status (app_error e))
run_result waiting = running
run_result shutting_down = running

abbrev pub after_run : Option Server → Option Exit
unfolding run_result
after_run none = none
after_run (some s) = some (run_result s.main)

-- RunE once `New` has been called; `none` if the steps of the server cannot be taken.
unfoldable pub run_app : {C : Type 0} → List Event → Started C → Option Exit
unfolding run_result run exit_status
run_app es exited = some (exits 1)
run_app es (failed e) = some (exits (exit_status (some (wrapped "failed to create app" e))))
run_app es (started app) = after_run (run es new_server)

module _ {V Byte Disk Db M C : Type 0} (viper : Viper V) (files : Files Disk)
    (driver : Driver Disk Db M) (cipher : Cipher Byte) (table : PiholeTable Db)
    (port : ClientPort C) (new_client : ClientConfig → C) where
  -- PersistentPreRunE, and RunE with the configuration that it has put into the context
  unfoldable pub run_command : List Event → Result Config × Disk → Option Exit × Disk
  unfolding run_app new_app exit_status
  run_command es (err e, disk) = (some (exits (exit_status (some e))), disk)
  run_command es (ok cfg, disk) =
      let (app, disk') = new_app files driver cipher table port new_client cfg disk in
      (run_app es app, disk')

  abbrev pub invoke : Invocation → Option String → V → List Event → Disk → Option Exit × Disk
  invoke (answered e) user_dir v es disk = (some (exits (exit_status e)), disk)
  invoke runs user_dir v es disk = run_command es (load viper files user_dir v disk)

  -- Execute, for the arguments of the program; `es` are the steps of the server and the signals.
  unfoldable pub execute :
      (List String → Invocation)
      → List String
      → Option String
      → V
      → List Event
      → Disk
      → Option Exit × Disk
  unfolding load run_command exit_status
  execute cobra args user_dir v es disk = invoke (cobra args) user_dir v es disk
