-- ===== src/App/Command/Laws.antt =====
-- When the program ends with the status 0.
use pihole_cluster_admin.Prelude.{
  ◌≡◌, ◌≢◌, ◌⊎◌, inl, inr, sym, refl, ◌∙◌, ap, subst, ◌↔◌, String, Option, none, some, List, All,
  arith,
}
use pihole_cluster_admin.Httpx.{GoError, Result, ok, err}
use pihole_cluster_admin.Crypto.{Cipher}
use pihole_cluster_admin.Pihole.Types.{ClientConfig}
use pihole_cluster_admin.Pihole.Cluster.{ClientPort}
use pihole_cluster_admin.Nodes.Store.{PiholeTable}
use pihole_cluster_admin.Config.{Config, Files}
use pihole_cluster_admin.Config.Load.{Viper, load}
use pihole_cluster_admin.App.Database.{Driver}
use pihole_cluster_admin.App.Start.{App, Started, exited, failed, started, new_app}
use pihole_cluster_admin.App.Server.{
  Main, returned, Server, started as new_server, Event, run, exit_status,
}
use pihole_cluster_admin.App.Server.Laws.{IsUnsignalled, IsWaiting, Keeps, run-IsWaiting}
use pihole_cluster_admin.App.Command.{
  Invocation, answered, runs, exits, run_result, after_run, run_app, run_command, invoke, execute,
}

answered-ne-runs : {e : Option GoError} → answered e ≢ runs
answered-ne-runs h = cc

run_result-zero_iff : (m : Main) → (run_result m ≡ exits 0) ↔ (m ≡ returned none)
unfolding run_result exit_status
run_result-zero_iff m = ground arith

-- The server has been told to stop and has stopped without an error.
abbrev pub IsStopped : List Event → Type 0
IsStopped es =
    (s : Server) × (run es new_server ≡ some s)
    × (s.main ≡ returned none)
    × ¬ (All IsUnsignalled es)

after_run-IsStopped :
    (es : List Event) (o : Option Server)
    → run es new_server ≡ o
    → after_run o ≡ some (exits 0)
    → IsStopped es
unfolding after_run
after_run-IsStopped es none ran zero = cc
after_run-IsStopped es (some s) ran zero =
    let ended : s.main ≡ returned none = (run_result-zero_iff s.main).0 (cc) in
    let waits = run-IsWaiting es new_server in
    (
      s,
      ran,
      ended,
      λ quiet.
          let w : IsWaiting s =
            subst Keeps ran (waits quiet (record { at_wait = refl; not_done = refl })) in
          cc,
    )

module _ {C : Type 0} (es : List Event) where
  run_app-zero_iff :
      (x : Started C)
      → (run_app es x ≡ some (exits 0)) ↔ ((app : App C) × (x ≡ started app) × IsStopped es)
  unfolding run_app exit_status after_run
  run_app-zero_iff exited = ((λ h. cc), (λ p. cc))
  run_app-zero_iff (failed e) = ((λ h. cc), (λ p. cc))
  run_app-zero_iff (started app) = (
    (λ h. (app, refl, after_run-IsStopped es (run es new_server) refl h)),
    (λ p.
        let (app', same, (s, ran, ended, told)) = p in
        rw ran (ap some ((run_result-zero_iff s.main).1 ended))),
  )

module _ {V Byte Disk Db M C : Type 0} (viper : Viper V) (files : Files Disk)
    (driver : Driver Disk Db M) (cipher : Cipher Byte) (table : PiholeTable Db)
    (port : ClientPort C) (new_client : ClientConfig → C) where
  -- The configuration is accepted, `New` succeeds, and the server stops without an error.
  abbrev pub RanWell : List Event → Result Config × Disk → Type 0
  RanWell es r =
      (c : Config) × (disk : Disk) × (app : App C) × (r ≡ (ok c, disk))
      × ((new_app files driver cipher table port new_client c disk).0 ≡ started app)
      × IsStopped es

  run_command-zero :
      (es : List Event) (r : Result Config × Disk)
      → (run_command viper files driver cipher table port new_client es r).0 ≡ some (exits 0)
      → RanWell es r
  unfolding run_command exit_status
  run_command-zero es (err e, disk) zero = cc
  run_command-zero es (ok c, disk) zero =
      let started_by = new_app files driver cipher table port new_client c disk in
      let (app, made, stopped) = (run_app-zero_iff es started_by.0).0 zero in
      (c, disk, app, refl, made, stopped)

  RanWell-zero :
      (es : List Event) (r : Result Config × Disk)
      → RanWell es r
      → (run_command viper files driver cipher table port new_client es r).0 ≡ some (exits 0)
  unfolding run_command
  RanWell-zero es r (c, disk, app, loaded, made, stopped) =
      let started_by = new_app files driver cipher table port new_client c disk in
      ap (λ x. (run_command viper files driver cipher table port new_client es x).0) loaded
      ∙ (run_app-zero_iff es started_by.0).1 (app, made, stopped)

  invoke-zero_iff :
      (i : Invocation) (user_dir : Option String) (v : V) (es : List Event) (disk : Disk)
      → ((invoke viper files driver cipher table port new_client i user_dir v es disk).0
          ≡ some (exits 0))
        ↔ ((i ≡ answered none) ⊎ ((i ≡ runs) × RanWell es (load viper files user_dir v disk)))
  unfolding exit_status
  invoke-zero_iff (answered none) user_dir v es disk = ((λ h. inl refl), (λ h. refl))
  invoke-zero_iff (answered (some e)) user_dir v es disk =
      ((λ h. cc), (λ h. elim h [ inl same ↦ cc | inr ran ↦ absurd (answered-ne-runs ran.0) ]))
  invoke-zero_iff runs user_dir v es disk =
      let loaded = load viper files user_dir v disk in
      (
        (λ zero. inr (refl, run_command-zero es loaded zero)),
        (λ h. elim h [
          | inl same ↦ absurd (answered-ne-runs (sym same))
          | inr ran ↦ RanWell-zero es loaded ran.1
        ]),
      )

  -- The program ends with the status 0 exactly when cobra answers the arguments by itself without an
  -- error, as it does for --help, or when cobra runs the command, the configuration is loaded and
  -- accepted, `New` makes the application, and the server has returned without an error; and a server
  -- takes a signal for that: whatever the listening does, a program that runs the command does not end
  -- with the status 0 before.
  pub execute-zero_iff :
      (cobra : List String → Invocation) (args : List String) (user_dir : Option String) (v : V)
      (es : List Event) (disk : Disk)
      → ((execute viper files driver cipher table port new_client cobra args user_dir v es disk).0
          ≡ some (exits 0))
        ↔ ((cobra args ≡ answered none)
            ⊎ ((cobra args ≡ runs) × RanWell es (load viper files user_dir v disk)))
  unfolding execute
  execute-zero_iff cobra args user_dir v es disk = invoke-zero_iff (cobra args) user_dir v es disk
