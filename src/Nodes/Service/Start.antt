-- ===== src/Nodes/Service/Start.antt =====
-- The cluster that is loaded at the start has the clients that the table asks for, so a restart
-- changes no configuration.
use mathlib.Core.Option
use pihole_cluster_admin.Prelude.{
  ℤ, ◌≡◌, refl, sym, ◌∙◌, ap, subst, String, Bool, true, false, Option, none, some, List, [], ◌∷◌,
  ◌==◌, int_eq, if◌then◌else◌, All, lookup, insert, Map, lookup-insert, int_beq_iff,
}
use pihole_cluster_admin.Httpx.{ok, ◌>>=◌}
use pihole_cluster_admin.Httpx.Laws.{ok-injective}
use pihole_cluster_admin.Crypto.{Cipher}
use pihole_cluster_admin.Crypto.Laws.{CipherLaws}
use pihole_cluster_admin.Pihole.Types.{ClientConfig}
use pihole_cluster_admin.Pihole.Cluster.{ClientPort, Cluster}
use pihole_cluster_admin.Nodes.Store.{
  PiholeRow, PiholeTable, row_to_domain_node, nodes_of, get_all_pihole_nodes,
}
use pihole_cluster_admin.Nodes.Store.Laws.{TableLaws, Reads}
use pihole_cluster_admin.Nodes.Service.{config_of, load_clients, get_clients}
use pihole_cluster_admin.Nodes.Service.Laws.{ClientLaws, row_config, Matches, IsInStep, secret}
use pihole_cluster_admin.Nodes.Service.Steps.{Op, IsSized, run_all, run_all-IsInStep}

abbrev pub keyed : List PiholeRow → Map ℤ PiholeRow
keyed [] = []
keyed (r ∷ rows) = (r.id, r) ∷ keyed rows

-- The `SELECT` of all rows returns rows that are there, but for the password, which it does not
-- read, and each that is there.
pub record ListLaws {Db : Type 0} (table : PiholeTable Db) (laws : TableLaws table) : Type 0 where
  pub listed :
      (db : Db) (rows : List PiholeRow)
      → table.select_all db ≡ ok rows
      → All
          (λ r. (secret : String) × (laws.row db r.id ≡ some (record r { password_enc = secret })))
          rows
        × ((k : ℤ) → lookup k (keyed rows) ≡ none → laws.row db k ≡ none)

module _ {Byte Db C : Type 0} (cipher : Cipher Byte) (table : PiholeTable Db) (key : String)
    (cipher_laws : CipherLaws cipher) (laws : TableLaws table) (port : ClientPort C)
    (new_client : ClientConfig → C) (client_laws : ClientLaws port new_client) where
  abbrev Matching : Option PiholeRow → Option C → Type 0
  Matching = Matches cipher table key cipher_laws laws port new_client client_laws

  -- Every password can be decrypted.
  abbrev pub IsReadable : Db → Type 0
  IsReadable db =
      (k : ℤ) (r : PiholeRow)
      → laws.row db k ≡ some r
      → (password : String) × Reads cipher table key cipher_laws laws r password

  IsInStep-IsReadable :
      (db : Db) (c : Cluster C)
      → IsInStep cipher table key cipher_laws laws port new_client client_laws db c
      → IsReadable db
  IsInStep-IsReadable db c h k r e =
      let (client, password, found, reads, cfg) =
        subst (λ o. Matching o (lookup k c.clients)) e (h k) in
      (password, reads)

  -- The client of an id after the loop, from the row that the loop has met for the id and the
  -- client before it.
  abbrev Loaded : Db → ℤ → Option PiholeRow → Option C → Option C → Type 0
  Loaded db k none found old = found ≡ old
  Loaded db k (some r) found old = Matching (laws.row db k) found

  load_next :
      (db : Db) (k : ℤ) (r : PiholeRow) (client : C) (b : Bool) (o : Option PiholeRow)
      (found old : Option C)
      → ((b ≡ true) → Matching (laws.row db k) (some client))
      → Loaded db k o found (if b then some client else old)
      → Loaded db k (if b then some r else o) found old
  load_next db k r client true none found old here h =
      subst (Matching (laws.row db k)) (sym h) (here refl)
  load_next db k r client true (some r') found old here h = h
  load_next db k r client false o found old here h = h

  abbrev Loads : Db → List PiholeRow → Map ℤ C → Type 0
  Loads db rows before =
      (clients : Map ℤ C) × (load_clients cipher table key port new_client (nodes_of rows) db before
        ≡ ok clients)
      × ((k : ℤ) → Loaded db k (lookup k (keyed rows)) (lookup k clients) (lookup k before))

  load_clients_lem :
      (db : Db) (rows : List PiholeRow) (before : Map ℤ C)
      → All
          (λ r. (hidden : String) × (laws.row db r.id ≡ some (record r { password_enc = hidden })))
          rows
      → IsReadable db
      → Loads db rows before
  unfolding load_clients nodes_of lookup row_to_domain_node
  load_clients_lem db [] before there readable = (before, refl, λ k. refl)
  load_clients_lem db (r ∷ rows) before ((hidden, here), rest) readable =
      let stored : PiholeRow = record r { password_enc = hidden } in
      let (password, reads) = readable r.id stored here in
      let cfg = row_config r password in
      let (clients, same, loaded) =
        load_clients_lem db rows (insert r.id (new_client cfg) before) rest readable in
      let at = λ (k : ℤ) (b : (r.id == k) ≡ true).
        subst (λ j. Matching (laws.row db j) (some (new_client cfg))) ((int_beq_iff r.id k).0 b)
          (subst (λ o. Matching o (some (new_client cfg))) (sym here)
            (new_client cfg, password, refl, reads, client_laws.cfg-new cfg)) in
      (
        clients,
        ap
              (λ s. s >>= (λ hidden.
                load_clients cipher table key port new_client (nodes_of rows) db
                  (insert r.id (new_client (config_of (row_to_domain_node r) hidden)) before)))
              (secret cipher table key cipher_laws laws port new_client client_laws db stored
                password here reads)
            ∙ same,
        λ k.
            load_next db k r (new_client cfg) (r.id == k) (lookup k (keyed rows)) (lookup k clients)
              (lookup k before) (at k)
              (subst (λ o. Loaded db k (lookup k (keyed rows)) (lookup k clients) o)
                (lookup-insert r.id k (new_client cfg) before) (loaded k)),
      )

  complete :
      (db : Db) (k : ℤ) (o : Option PiholeRow) (found : Option C)
      → (o ≡ none → laws.row db k ≡ none)
      → Loaded db k o found none
      → Matching (laws.row db k) found
  complete db k none found missing h = subst (λ a. Matching a found) (sym (missing refl)) h
  complete db k (some r) found missing h = h

  same_config :
      (o : Option PiholeRow) (a b : Option C)
      → Matching o a
      → Matching o b
      → Option.map client_laws.cfg_of a ≡ Option.map client_laws.cfg_of b
  same_config none a b h h' = ap (Option.map client_laws.cfg_of) (h ∙ sym h')
  same_config (some r) a b (client, p, found, reads, cfg) (client', p', found', reads', cfg') =
      let same : p ≡ p' = ok-injective _ _ (sym reads ∙ reads') in
      ap (Option.map client_laws.cfg_of) found
      ∙ ap some (cfg ∙ ap (row_config r) same ∙ sym cfg')
      ∙ sym (ap (Option.map client_laws.cfg_of) found')

  module _ (list_laws : ListLaws table laws) where
    -- If the table, the cipher and the clients behave as documented, every password can be
    -- decrypted and the rows can be listed, then GetClients succeeds, and a cluster with what it
    -- returns is in step with the table.
    pub get_clients-IsInStep :
        (db : Db) (rows : List PiholeRow) (c : Cluster C)
        → table.select_all db ≡ ok rows
        → IsReadable db
        → (clients : Map ℤ C) × (get_clients cipher table key port new_client db ≡ ok clients)
          × IsInStep cipher table key cipher_laws laws port new_client client_laws db
              (record c { clients = clients })
    unfolding get_clients get_all_pihole_nodes lookup
    get_clients-IsInStep db rows c all readable =
        let (there, rows_of) = list_laws.listed db rows all in
        let (clients, same, loaded) = load_clients_lem db rows [] there readable in
        (
          clients,
          ap
                (λ s.
                  (s >>= (λ rs. ok (nodes_of rs)))
                  >>= (λ nodes. load_clients cipher table key port new_client nodes db []))
                all
              ∙ same,
          λ k. complete db k (lookup k (keyed rows)) (lookup k clients) (rows_of k) (loaded k),
        )

    -- If the table, the cipher and the clients behave as documented and the table and the cluster
    -- are in step, then after every sequence of additions, updates and removals, failing ones
    -- included, a restart that can list the rows loads clients with the same ids and
    -- configurations as those of the running cluster.
    pub get_clients-run_all :
        (ops : List (Op cipher table key cipher_laws laws port new_client client_laws))
        (s : Db × Cluster C) (rows : List PiholeRow)
        → All (IsSized cipher table key cipher_laws laws port new_client client_laws) ops
        → IsInStep cipher table key cipher_laws laws port new_client client_laws s.0 s.1
        → table.select_all
            (run_all cipher table key cipher_laws laws port new_client client_laws ops s).0
          ≡ ok rows
        → (clients : Map ℤ C) × (get_clients cipher table key port new_client
              (run_all cipher table key cipher_laws laws port new_client client_laws ops s).0
            ≡ ok clients)
          × ((k : ℤ)
              → Option.map client_laws.cfg_of (lookup k clients)
                ≡ Option.map client_laws.cfg_of (
                    lookup k
                      (run_all cipher table key cipher_laws laws port new_client client_laws ops
                        s).1.clients))
    get_clients-run_all ops s rows size h all =
        let after = run_all cipher table key cipher_laws laws port new_client client_laws ops s in
        let kept =
          run_all-IsInStep cipher table key cipher_laws laws port new_client client_laws ops s size
            h in
        let (clients, same, fresh) =
          get_clients-IsInStep after.0 rows after.1 all
            (IsInStep-IsReadable after.0 after.1 kept) in
        (
          clients,
          same,
          λ k.
              same_config (laws.row after.0 k) (lookup k clients) (lookup k after.1.clients)
                (fresh k) (kept k),
        )
