-- ===== src/Nodes/Service/Steps.antt =====
-- Runs of the service: additions, updates and removals of nodes, in any order.
use pihole_cluster_admin.Prelude.{
  ℕ, ℤ, ◌≡◌, refl, sym, ◌∙◌, ap, subst, String, Bool, true, false, Option, none, some, List, [],
  ◌∷◌, ◌==◌, int_eq, if◌then◌else◌, length, All, ltb, lookup, has, ◌⊎◌, inl, inr, int_beq_iff,
  int_beq_refl, arith,
}
use pihole_cluster_admin.Text.{trim_space}
use pihole_cluster_admin.Httpx.{GoError, Result, ok, err}
use pihole_cluster_admin.Httpx.Laws.{ok-injective, err-ne-ok}
use pihole_cluster_admin.Domain.{PiholeNode}
use pihole_cluster_admin.Crypto.{Cipher, decrypt_password}
use pihole_cluster_admin.Crypto.Laws.{CipherLaws}
use pihole_cluster_admin.Pihole.Types.{ClientConfig}
use pihole_cluster_admin.Pihole.Cluster.{
  ClientPort, Cluster, update_client, remove_client, has_client,
}
use pihole_cluster_admin.Pihole.Cluster.Members.{lookup-remove_client, lookup-update_client}
use pihole_cluster_admin.Nodes.Store.{
  PiholeRow, AddPiholeParams, UpdatePiholeParams, PiholeTable, row_to_domain_node, removed,
  remove_pihole_node,
}
use pihole_cluster_admin.Nodes.Store.Laws.{TableLaws, HasFailed, Reads, if_same}
use pihole_cluster_admin.Nodes.Store.Update.{HasUpdated, HasSecret, update_pihole_node-HasUpdated}
use pihole_cluster_admin.Nodes.Service.{
  add, update_secret, update_stored, update, remove_stored, remove, removed_from,
}
use pihole_cluster_admin.Nodes.Service.Laws.{
  ClientLaws, row_config, Matches, IsInStep, step-IsInStep, IsAtomic, failed-IsAtomic,
  done-IsAtomic, joined_lem, secret, add-IsAtomic,
}

module _ {Byte Db C : Type 0} (cipher : Cipher Byte) (table : PiholeTable Db) (key : String)
    (cipher_laws : CipherLaws cipher) (laws : TableLaws table) (port : ClientPort C)
    (new_client : ClientConfig → C) (client_laws : ClientLaws port new_client) where
  abbrev InStep : Db → Cluster C → Type 0
  InStep = IsInStep cipher table key cipher_laws laws port new_client client_laws

  abbrev Atomic : {A : Type 0} → Result A × (Db × Cluster C) → Db → Cluster C → Type 0
  Atomic = IsAtomic cipher table key cipher_laws laws port new_client client_laws

  abbrev Matching : Option PiholeRow → Option C → Type 0
  Matching = Matches cipher table key cipher_laws laws port new_client client_laws

  -- A client that is there is updated.
  update_client_there :
      (cfg : ClientConfig) (client : C) (c : Cluster C)
      → lookup cfg.id c.clients ≡ some client
      → ((update_client port cfg.id cfg c).0 ≡ none)
        × ((k : ℤ)
            → lookup k (update_client port cfg.id cfg c).1.clients
              ≡ (if cfg.id == k then some (port.update cfg client) else lookup k c.clients))
  unfolding update_client
  update_client_there cfg client c there = (
    ground (arith, int_beq_refl cfg.id),
    λ k. ground (
      arith,
      lookup-update_client port cfg.id cfg c k,
      int_beq_iff cfg.id k,
      int_beq_refl cfg.id,
    ),
  )

  -- The password of a row after an update can be read.
  new_password :
      (given : Option String) (old new : PiholeRow) (found : Option C)
      → HasSecret cipher table key cipher_laws laws given old new
      → Matching (some old) found
      → (password : String) × Reads cipher table key cipher_laws laws new password
  new_password none old new found same (client, password, e, reads, cfg) =
      (password, subst (λ s. decrypt_password cipher key s ≡ ok password) (sym same) reads)
  new_password (some p) old new found reads m = (trim_space p, reads)

  update_secret_lem :
      (db db' : Db) (c : Cluster C) (old new : PiholeRow) (password : String)
      → ((k : ℤ) → laws.row db' k ≡ (if new.id == k then some new else laws.row db k))
      → laws.row db new.id ≡ some old
      → Reads cipher table key cipher_laws laws new password
      → InStep db c
      → Atomic
          (update_secret cipher table key port new_client
            (row_to_domain_node new)
            (ok (record { node_id = new.id; password = password }))
            db'
            c)
          db
          c
  unfolding update_secret row_to_domain_node
  update_secret_lem db db' c old new password rows there reads h =
      let cfg = row_config new password in
      let (client, before, found, reads_before, more) =
        subst (λ o. Matching o (lookup new.id c.clients)) there (h new.id) in
      let (done, clients) = update_client_there cfg client c found in
      joined_lem cipher table key cipher_laws laws port new_client client_laws
        (row_to_domain_node new) db db' c (update_client port new.id cfg c) done
        (step-IsInStep cipher table key cipher_laws laws port new_client client_laws db db' c
          (update_client port new.id cfg c).1 new.id (some new) (some (port.update cfg client)) rows
          clients (port.update cfg client, password, refl, reads, client_laws.cfg-update cfg client)
          h)

  update_stored_lem :
      (id : ℤ) (params : UpdatePiholeParams) (db : Db) (c : Cluster C) (r : Result PiholeNode × Db)
      → HasFailed cipher table key cipher_laws laws r db
        ⊎ HasUpdated cipher table key cipher_laws laws id params r db
      → InStep db c
      → Atomic (update_stored cipher table key port new_client r c) db c
  unfolding update_stored
  update_stored_lem id params db c (err e, db') (inl (x, same)) h =
      failed-IsAtomic cipher table key cipher_laws laws port new_client client_laws _ db db' c same
        h
  update_stored_lem id params db c (ok node, db') (inl ((x, e), same)) h =
      absurd (err-ne-ok (sym e))
  update_stored_lem id params db c (err e, db') (inr (old, new, at, rows, done, shape, hidden)) h =
      absurd (err-ne-ok done)
  update_stored_lem id params db c (ok node, db') (inr (old, new, at, rows, done, shape, hidden))
        h =
      let same : new.id ≡ id = ap (λ r. r.id) shape ∙ laws.keyed db id old at in
      let there : laws.row db new.id ≡ some old = ap (laws.row db) same ∙ at in
      let rows' =
        subst (λ j. (k : ℤ) → laws.row db' k ≡ (if j == k then some new else laws.row db k))
          (sym same) rows in
      let here : laws.row db' new.id ≡ some new =
        rows' new.id
        ∙ if_same cipher table key cipher_laws laws new.id (some new) (laws.row db new.id) in
      let (password, reads) =
        new_password params.password old new (lookup new.id c.clients) hidden
          (subst (λ o. Matching o (lookup new.id c.clients)) there (h new.id)) in
      subst (λ n. Atomic (update_stored cipher table key port new_client (ok n, db') c) db c)
        (sym (ok-injective _ _ done))
        (subst
          (λ s.
            Atomic (update_secret cipher table key port new_client (row_to_domain_node new) s db' c)
              db c)
          (sym (
            secret cipher table key cipher_laws laws port new_client client_laws db' new password
              here reads))
          (update_secret_lem db db' c old new password rows' there reads h))

  update-IsAtomic :
      (nonce : List Byte) (id : ℤ) (params : UpdatePiholeParams) (db : Db) (c : Cluster C)
      → length nonce ≡ cipher.nonce_size
      → InStep db c
      → Atomic (update cipher table key port new_client (ok nonce) id params (db, c)) db c
  unfolding update
  update-IsAtomic nonce id params db c size h =
      update_stored_lem id params db c _
        (update_pihole_node-HasUpdated cipher table key cipher_laws laws nonce id params db size) h

  removed_from_lem :
      (found : Bool) (db db' : Db) (c : Cluster C) (r : Option GoError × Cluster C)
      → InStep db' r.1
      → Atomic (removed_from cipher table key port new_client found r db') db c
  removed_from_lem found db db' c (none, c') h =
      done-IsAtomic cipher table key cipher_laws laws port new_client client_laws found db db' c c'
        h
  removed_from_lem found db db' c (some e, c') h =
      done-IsAtomic cipher table key cipher_laws laws port new_client client_laws false db db' c c'
        h

  remove_member :
      (id : ℤ) (found : Bool) (db db' : Db) (c : Cluster C) (b : Bool)
      → has id c.clients ≡ b
      → ((k : ℤ) → laws.row db' k ≡ (if id == k then none else laws.row db k))
      → InStep db c
      → Atomic
          (if b
            then removed_from cipher table key port new_client found (remove_client port id c) db'
            else (ok found, (db', c)))
          db
          c
  remove_member id found db db' c true e rows h =
      removed_from_lem found db db' c (remove_client port id c) (
        step-IsInStep cipher table key cipher_laws laws port new_client client_laws db db' c
          (remove_client port id c).1 id none none rows (lookup-remove_client port id c) refl h)
  remove_member id found db db' c false e rows h =
      done-IsAtomic cipher table key cipher_laws laws port new_client client_laws found db db' c c (
        step-IsInStep cipher table key cipher_laws laws port new_client client_laws db db' c c id
          none none rows (λ k. ground (arith, int_beq_iff id k)) refl h)

  remove_stored_lem :
      (id : ℤ) (db : Db) (c : Cluster C) (r : Result ℕ × Db)
      → table.delete id db ≡ r
      → InStep db c
      → Atomic
          (remove_stored cipher table key port new_client id (removed cipher table key r) c)
          db
          c
  unfolding remove_stored has_client
  remove_stored_lem id db c (err e, db') same h =
      failed-IsAtomic cipher table key cipher_laws laws port new_client client_laws e db db' c
        (λ k.
          ap (λ p. laws.row p.1 k) (sym same) ∙ laws.delete_failed id db e (ap (λ p. p.0) same) k)
        h
  remove_stored_lem id db c (ok n, db') same h =
      remove_member id (ltb 0 n) db db' c (has id c.clients) refl
        (λ k. ap (λ p. laws.row p.1 k) (sym same) ∙ laws.deleted id db n (ap (λ p. p.0) same) k) h

  remove-IsAtomic :
      (id : ℤ) (db : Db) (c : Cluster C)
      → InStep db c
      → Atomic (remove cipher table key port new_client id (db, c)) db c
  unfolding remove remove_pihole_node
  remove-IsAtomic id db c h = remove_stored_lem id db c _ refl h

  -- A call of the service, with the nonce that it reads.
  pub data Op : Type 0 where
    adding : List Byte → AddPiholeParams → Op
    updating : List Byte → ℤ → UpdatePiholeParams → Op
    removing : ℤ → Op

  abbrev pub IsSized : Op → Type 0
  IsSized (adding nonce params) = length nonce ≡ cipher.nonce_size
  IsSized (updating nonce id params) = length nonce ≡ cipher.nonce_size
  IsSized (removing id) = Unit

  abbrev pub error_in : {A : Type 0} → Result A → Option GoError
  error_in (ok a) = none
  error_in (err e) = some e

  -- A call, and its error
  abbrev pub run : Op → Db × Cluster C → Option GoError × (Db × Cluster C)
  run (adding nonce params) s = (
    error_in (add cipher table key port new_client (ok nonce) params s).0,
    (add cipher table key port new_client (ok nonce) params s).1,
  )
  run (updating nonce id params) s = (
    error_in (update cipher table key port new_client (ok nonce) id params s).0,
    (update cipher table key port new_client (ok nonce) id params s).1,
  )
  run (removing id) s = (
    error_in (remove cipher table key port new_client id s).0,
    (remove cipher table key port new_client id s).1,
  )

  abbrev pub run_all : List Op → Db × Cluster C → Db × Cluster C
  run_all [] s = s
  run_all (op ∷ ops) s = run_all ops (run op s).1

  error_in-HasError :
      {A : Type 0} (r : Result A) (e : GoError) → error_in r ≡ some e → (x : GoError) × (r ≡ err x)
  error_in-HasError (ok a) e h = absurd cc
  error_in-HasError (err x) e h = (x, refl)

  run-IsInStep :
      (op : Op) (db : Db) (c : Cluster C)
      → IsSized op
      → InStep db c
      → InStep (run op (db, c)).1.0 (run op (db, c)).1.1
  run-IsInStep (adding nonce params) db c size h =
      (add-IsAtomic cipher table key cipher_laws laws port new_client client_laws nonce params db c
        size h).0
  run-IsInStep (updating nonce id params) db c size h =
      (update-IsAtomic nonce id params db c size h).0
  run-IsInStep (removing id) db c size h = (remove-IsAtomic id db c h).0

  -- If the table, the cipher and the clients behave as documented, then every sequence of
  -- additions, updates and removals of nodes, failing ones included, keeps the table and the
  -- cluster in step: each row has a client with its fields and its decrypted password, and there
  -- is no other client.
  pub run_all-IsInStep :
      (ops : List Op) (s : Db × Cluster C)
      → All IsSized ops
      → IsInStep cipher table key cipher_laws laws port new_client client_laws s.0 s.1
      → IsInStep cipher table key cipher_laws laws port new_client client_laws
          (run_all ops s).0
          (run_all ops s).1
  run_all-IsInStep [] s size h = h
  run_all-IsInStep (op ∷ ops) (db, c) (size, sizes) h =
      run_all-IsInStep ops (run op (db, c)).1 sizes (run-IsInStep op db c size h)
