-- ===== src/App/Start/Laws.antt =====
-- Which clients the program starts with.
use pihole_cluster_admin.Prelude.{
  ℤ, ◌≡◌, refl, subst, ◌⊎◌, inl, inr, String, List, [], ◌∷◌, Map, int_eq, insert,
}
use pihole_cluster_admin.Httpx.{GoError, Result, ok, err}
use pihole_cluster_admin.Crypto.{Cipher}
use pihole_cluster_admin.Domain.{PiholeNode, PiholeNodeSecret}
use pihole_cluster_admin.Pihole.Types.{ClientConfig}
use pihole_cluster_admin.Pihole.Cluster.{ClientPort}
use pihole_cluster_admin.Nodes.Store.{PiholeTable, get_all_pihole_nodes, get_pihole_node_secret}
use pihole_cluster_admin.Nodes.Service.{config_of, load_clients}
use pihole_cluster_admin.Config.{Config, Files}
use pihole_cluster_admin.App.Database.{Driver, new_database}
use pihole_cluster_admin.App.Start.{
  App, started, or_empty, wired, with_nodes, with_database, new_app,
}

abbrev pub Among : PiholeNode → List PiholeNode → Type 0
Among node [] = ⊥
Among node (n ∷ nodes) = (node ≡ n) ⊎ Among node nodes

module _ {Byte Disk Db M C : Type 0} (files : Files Disk) (driver : Driver Disk Db M)
    (cipher : Cipher Byte) (table : PiholeTable Db) (port : ClientPort C)
    (new_client : ClientConfig → C) where
  load_clients-err :
      (key : String) (db : Db) (node : PiholeNode) (e : GoError) (nodes : List PiholeNode)
      (clients : Map ℤ C)
      → Among node nodes
      → get_pihole_node_secret cipher table key node.id db ≡ err e
      → (x : GoError) × (load_clients cipher table key port new_client nodes db clients ≡ err x)
  unfolding load_clients
  load_clients-err key db node e [] clients among unreadable = absurd among
  load_clients-err key db node e (n ∷ nodes) clients (inl same) unreadable =
      let here : get_pihole_node_secret cipher table key n.id db ≡ err e =
        subst (λ m. get_pihole_node_secret cipher table key m.id db ≡ err e) same unreadable in
      (e, rw here refl)
  load_clients-err key db node e (n ∷ nodes) clients (inr later) unreadable =
      at_secret (get_pihole_node_secret cipher table key n.id db) refl
        (λ cs. load_clients-err key db node e nodes cs later unreadable)
    where
      at_secret :
          (r : Result PiholeNodeSecret)
          → get_pihole_node_secret cipher table key n.id db ≡ r
          → ((cs : Map ℤ C)
              → (x : GoError) × (load_clients cipher table key port new_client nodes db cs ≡ err x))
          → (x : GoError) × (load_clients cipher table key port new_client (n ∷ nodes) db clients
              ≡ err x)
      at_secret (err y) first rest = (y, rw first refl)
      at_secret (ok secret) first rest =
          let (x, failed_later) = rest (insert n.id (new_client (config_of n secret)) clients) in
          (x, rw first failed_later)

  -- If the password of one node in the list cannot be read, because its row or its text cannot be
  -- decrypted with the configured key, the program starts all the same, and with no client at all.
  pub start_forgets :
      (cfg : Config) (disk disk' : Disk) (db : Db) (nodes : List PiholeNode) (node : PiholeNode)
      (e : GoError)
      → new_database files driver cfg.database disk ≡ (ok db, disk')
      → get_all_pihole_nodes cipher table cfg.encryption_key db ≡ ok nodes
      → Among node nodes
      → get_pihole_node_secret cipher table cfg.encryption_key node.id db ≡ err e
      → (app : App C) × (new_app files driver cipher table port new_client cfg disk
          ≡ (started app, disk'))
        × (app.cluster.clients ≡ [])
  unfolding new_app with_database with_nodes wired or_empty
  start_forgets cfg disk disk' db nodes node e opened listed among unreadable =
      let (x, none_loaded) =
        load_clients-err cfg.encryption_key db node e nodes [] among unreadable in
      (wired cfg (err x), rw opened (rw listed (rw none_loaded refl)), refl)
