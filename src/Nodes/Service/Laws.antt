-- ===== src/Nodes/Service/Laws.antt =====
-- The rows of the table and the clients of the cluster stay in step.
use pihole_cluster_admin.Prelude.{
  some-ne-none, ℤ, ◌≡◌, refl, sym, ◌∙◌, ap, subst, String, Bool, true, false, Option, none, some,
  List, ◌==◌, int_eq, if◌then◌else◌, length, lookup, has, ◌⊎◌, inl, inr, arith,
}
use pihole_cluster_admin.Httpx.{GoError, Result, ok, err}
use pihole_cluster_admin.Httpx.Laws.{ok-injective, err-ne-ok}
use pihole_cluster_admin.Domain.{PiholeNode}
use pihole_cluster_admin.Crypto.{Cipher}
use pihole_cluster_admin.Crypto.Laws.{CipherLaws}
use pihole_cluster_admin.Pihole.Types.{ClientConfig}
use pihole_cluster_admin.Pihole.Client
use pihole_cluster_admin.Pihole.Client.{Http, Node}
use pihole_cluster_admin.Pihole.Client.Port.{client_port}
use pihole_cluster_admin.Pihole.Cluster.{ClientPort, Cluster, add_client}
use pihole_cluster_admin.Pihole.Cluster.Members.{lookup-add_client}
use pihole_cluster_admin.Nodes.Store.{
  PiholeRow, AddPiholeParams, PiholeTable, row_to_domain_node, get_pihole_node_secret,
}
use pihole_cluster_admin.Nodes.Store.Laws.{
  TableLaws, SameRows, HasFailed, HasAdded, Reads, get_pihole_node_secret_lem,
  add_pihole_node-HasAdded, if_same,
}
use pihole_cluster_admin.Nodes.Service.{joined, add_secret, add_stored, add}

-- A new client and an updated one have the configuration that they are given, with its id.
pub record ClientLaws {C : Type 0} (port : ClientPort C) (new_client : ClientConfig → C)
    : Type 0 where
  pub cfg_of : C → ClientConfig
  pub cfg-new : (cfg : ClientConfig) → cfg_of (new_client cfg) ≡ cfg
  pub cfg-update : (cfg : ClientConfig) (client : C) → cfg_of (port.update cfg client) ≡ cfg
  pub id-cfg : (client : C) → port.get_id client ≡ (cfg_of client).id

-- The client of a Pi-hole, with the world that its requests reach.
abbrev pub client_in : {World : Type 0} → World → ClientConfig → Node World
client_in world cfg = record { client = Client.new_client cfg; world = world }

unfoldable pub client-laws :
    {World Body : Type 0} (http : Http World Body) (world : World)
    → ClientLaws (client_port http) (client_in world)
unfolding client_port Client.new_client Client.update
client-laws http world = record {
  cfg_of = λ n. n.client.cfg;
  cfg-new = λ cfg. refl;
  cfg-update = λ cfg n. refl;
  id-cfg = λ n. refl;
}

abbrev pub row_config : PiholeRow → String → ClientConfig
row_config r password = record {
  id = r.id;
  name = r.name;
  scheme = r.scheme;
  host = r.host;
  port = r.port;
  password = password;
}

module _ {Byte Db C : Type 0} (cipher : Cipher Byte) (table : PiholeTable Db) (key : String)
    (cipher_laws : CipherLaws cipher) (laws : TableLaws table) (port : ClientPort C)
    (new_client : ClientConfig → C) (client_laws : ClientLaws port new_client) where
  -- The client for a row, if there is one: it has the fields of the row and its decrypted password.
  abbrev pub Matches : Option PiholeRow → Option C → Type 0
  Matches none found = found ≡ none
  Matches (some r) found =
      (client : C) × (password : String) × (found ≡ some client)
      × Reads cipher table key cipher_laws laws r password
      × (client_laws.cfg_of client ≡ row_config r password)

  -- Every row has its client, and there is no other client.
  abbrev pub IsInStep : Db → Cluster C → Type 0
  IsInStep db c = (k : ℤ) → Matches (laws.row db k) (lookup k c.clients)

  pub SameRows-IsInStep :
      (db db' : Db) (c : Cluster C)
      → SameRows cipher table key cipher_laws laws db db'
      → IsInStep db c
      → IsInStep db' c
  SameRows-IsInStep db db' c same h k =
      subst (λ o. Matches o (lookup k c.clients)) (sym (same k)) (h k)

  -- What an operation on a row and its client leaves.
  pub step-IsInStep :
      (db db' : Db) (c c' : Cluster C) (id : ℤ) (o : Option PiholeRow) (found : Option C)
      → ((k : ℤ) → laws.row db' k ≡ (if id == k then o else laws.row db k))
      → ((k : ℤ) → lookup k c'.clients ≡ (if id == k then found else lookup k c.clients))
      → Matches o found
      → IsInStep db c
      → IsInStep db' c'
  step-IsInStep db db' c c' id o found rows clients at h k =
      subst (λ a. Matches a (lookup k c'.clients)) (sym (rows k))
        (subst (λ b. Matches (if id == k then o else laws.row db k) b) (sym (clients k))
          (choose (id == k) (h k)))
    where
      choose :
          (b : Bool)
          → Matches (laws.row db k) (lookup k c.clients)
          → Matches (if b then o else laws.row db k) (if b then found else lookup k c.clients)
      choose true m = at
      choose false m = m

  abbrev pub HasError : {A : Type 0} → Result A → Type 0
  HasError r = (x : GoError) × (r ≡ err x)

  -- An operation that fails, or not, leaves this: the state is in step; and if it fails, then no row
  -- has changed, and no client.
  abbrev pub IsAtomic : {A : Type 0} → Result A × (Db × Cluster C) → Db → Cluster C → Type 0
  IsAtomic r db c =
      IsInStep r.1.0 r.1.1
      × (HasError r.0 → SameRows cipher table key cipher_laws laws db r.1.0 × (r.1.1 ≡ c))

  -- An error that leaves every row
  pub failed-IsAtomic :
      {A : Type 0} (e : GoError) (db db' : Db) (c : Cluster C)
      → SameRows cipher table key cipher_laws laws db db'
      → IsInStep db c
      → IsAtomic {A = A} (err e, (db', c)) db c
  failed-IsAtomic e db db' c same h = (SameRows-IsInStep db db' c same h, λ x. (same, refl))

  pub done-IsAtomic :
      {A : Type 0} (a : A) (db db' : Db) (c c' : Cluster C)
      → IsInStep db' c'
      → IsAtomic (ok a, (db', c')) db c
  done-IsAtomic a db db' c c' h = (h, λ x. absurd (err-ne-ok (sym x.1)))

  -- A secret that can be read, for the node of a row
  pub secret :
      (db : Db) (r : PiholeRow) (password : String)
      → laws.row db r.id ≡ some r
      → Reads cipher table key cipher_laws laws r password
      → get_pihole_node_secret cipher table key (row_to_domain_node r).id db
        ≡ ok (record { node_id = r.id; password = password })
  unfolding row_to_domain_node
  secret db r password e reads =
      get_pihole_node_secret_lem cipher table key cipher_laws laws db r password e reads

  pub joined_lem :
      (node : PiholeNode) (db db' : Db) (c : Cluster C) (r : Option GoError × Cluster C)
      → r.0 ≡ none
      → IsInStep db' r.1
      → IsAtomic (joined node r db') db c
  joined_lem node db db' c (none, c') e h = done-IsAtomic node db db' c c' h
  joined_lem node db db' c (some x, c') e h = absurd (some-ne-none e)

  -- The id of a client that is new
  id-new : (cfg : ClientConfig) → port.get_id (new_client cfg) ≡ cfg.id
  id-new cfg = client_laws.id-cfg (new_client cfg) ∙ ap (λ a. a.id) (client_laws.cfg-new cfg)

  -- A client whose id is free is added.
  add_client_free :
      (client : C) (c : Cluster C) (id : ℤ)
      → port.get_id client ≡ id
      → lookup id c.clients ≡ none
      → ((add_client port client c).0 ≡ none)
        × ((k : ℤ)
            → lookup k (add_client port client c).1.clients
              ≡ (if id == k then some client else lookup k c.clients))
  unfolding add_client
  add_client_free client c id same free =
      let free' : lookup (port.get_id client) c.clients ≡ none =
        ap (λ j. lookup j c.clients) same ∙ free in
      (
        ground arith,
        λ k.
            lookup-add_client port client c k
            ∙ rw (free', has) (ap (λ j. if j == k then some client else lookup k c.clients) same),
      )

  add_secret_lem :
      (db db' : Db) (c : Cluster C) (new : PiholeRow) (password : String)
      → ((k : ℤ) → laws.row db' k ≡ (if new.id == k then some new else laws.row db k))
      → laws.row db new.id ≡ none
      → Reads cipher table key cipher_laws laws new password
      → IsInStep db c
      → IsAtomic
          (add_secret cipher table key port new_client
            (row_to_domain_node new)
            (ok (record { node_id = new.id; password = password }))
            db'
            c)
          db
          c
  unfolding add_secret row_to_domain_node
  add_secret_lem db db' c new password rows free reads h =
      let cfg = row_config new password in
      let (done, clients) =
        add_client_free (new_client cfg) c new.id (id-new cfg)
          (subst (λ o. Matches o (lookup new.id c.clients)) free (h new.id)) in
      joined_lem (row_to_domain_node new) db db' c (add_client port (new_client cfg) c) done (
        step-IsInStep db db' c (add_client port (new_client cfg) c).1 new.id (some new)
          (some (new_client cfg)) rows clients
          (new_client cfg, password, refl, reads, client_laws.cfg-new cfg) h)

  add_stored_lem :
      (params : AddPiholeParams) (db : Db) (c : Cluster C) (r : Result PiholeNode × Db)
      → HasFailed cipher table key cipher_laws laws r db
        ⊎ HasAdded cipher table key cipher_laws laws params r db
      → IsInStep db c
      → IsAtomic (add_stored cipher table key port new_client r c) db c
  unfolding add_stored
  add_stored_lem params db c (err e, db') (inl (x, same)) h = failed-IsAtomic _ db db' c same h
  add_stored_lem params db c (ok node, db') (inl ((x, e), same)) h = absurd (err-ne-ok (sym e))
  add_stored_lem params db c (err e, db') (inr (new, free, rows, done, reads, s, t, p, n)) h =
      absurd (err-ne-ok done)
  add_stored_lem params db c (ok node, db') (inr (new, free, rows, done, reads, s, t, p, n)) h =
      let here : laws.row db' new.id ≡ some new =
        rows new.id
        ∙ if_same cipher table key cipher_laws laws new.id (some new) (laws.row db new.id) in
      subst (λ n. IsAtomic (add_stored cipher table key port new_client (ok n, db') c) db c)
        (sym (ok-injective _ _ done))
        (subst
          (λ s.
            IsAtomic (add_secret cipher table key port new_client (row_to_domain_node new) s db' c)
              db c)
          (sym (secret db' new _ here reads)) (add_secret_lem db db' c new _ rows free reads h))

  pub add-IsAtomic :
      (nonce : List Byte) (params : AddPiholeParams) (db : Db) (c : Cluster C)
      → length nonce ≡ cipher.nonce_size
      → IsInStep db c
      → IsAtomic (add cipher table key port new_client (ok nonce) params (db, c)) db c
  unfolding add
  add-IsAtomic nonce params db c size h =
      add_stored_lem params db c _
        (add_pihole_node-HasAdded cipher table key cipher_laws laws nonce params db size) h
