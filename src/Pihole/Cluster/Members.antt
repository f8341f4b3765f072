-- ===== src/Pihole/Cluster/Members.antt =====
-- The membership of a cluster: `AddClient`, `RemoveClient`, `UpdateClient`, `HasClient`.
use pihole_cluster_admin.Prelude.{
  ℤ, Bool, true, false, ◌≡◌, Option, none, some, lookup, has, ◌==◌, lookup-insert, lookup-delete,
  int_eq, int_beq_iff, if◌then◌else◌, arith, Option-cases, not, ◌&&◌, ◌||◌, List, [], ◌∷◌, inl, inr,
}
use pihole_cluster_admin.Httpx.{GoError}
use pihole_cluster_admin.Pihole.Types.{ClientConfig}
use pihole_cluster_admin.Pihole.Cluster.{
  ClientPort, Cluster, add_client, remove_client, update_client,
}

module _ {C : Type 0} (port : ClientPort C) where
  -- Every client stands under its own id.
  abbrev pub IsKeyed : Cluster C → Type 0
  IsKeyed c = (id : ℤ) (client : C) → lookup id c.clients ≡ some client → port.get_id client ≡ id

  -- After `AddClient` every lookup is as before, but that of the new client's id, which finds the
  -- client if that id was free.
  pub lookup-add_client :
      (client : C) (c : Cluster C) (id : ℤ)
      → lookup id (add_client port client c).1.clients ≡ (
          if has (port.get_id client) c.clients
          then lookup id c.clients
          else if port.get_id client == id
          then some client
          else lookup id c.clients)
  unfolding add_client
  lookup-add_client client c id =
      ground (arith, lookup-insert (port.get_id client) id client c.clients)

  pub lookup-remove_client :
      (rid : ℤ) (c : Cluster C) (id : ℤ)
      → lookup id (remove_client port rid c).1.clients
        ≡ (if rid == id then none else lookup id c.clients)
  unfolding remove_client
  lookup-remove_client rid c id = ground (arith, lookup-delete rid id c.clients, int_beq_iff rid id)

  abbrev pub updated : ClientConfig → Option C → Option C
  updated cfg none = none
  updated cfg (some client) = some (port.update cfg client)

  pub lookup-update_client :
      (uid : ℤ) (cfg : ClientConfig) (c : Cluster C) (id : ℤ)
      → lookup id (update_client port uid cfg c).1.clients ≡ (
          if uid == cfg.id && uid == id
          then updated cfg (lookup id c.clients)
          else lookup id c.clients)
  unfolding update_client
  lookup-update_client uid cfg c id = elim (Option-cases (lookup uid c.clients)) [
    | inl e ↦ ground (arith, int_beq_iff uid id)
    | inr (client, e) ↦
        ground (arith, lookup-insert uid id (port.update cfg client) c.clients, int_beq_iff uid id)
  ]

  -- An operation on the members.
  pub data Change : Type 0 where
    add : C → Change
    remove : ℤ → Change
    update : ℤ → ClientConfig → Change

  abbrev pub change : Change → Cluster C → Option GoError × Cluster C
  change (add client) c = add_client port client c
  change (remove id) c = remove_client port id c
  change (update id cfg) c = update_client port id cfg c

  abbrev pub changes : List Change → Cluster C → Cluster C
  changes [] c = c
  changes (op ∷ ops) c = changes ops (change op c).1

  module _
      (id-update : (cfg : ClientConfig) (client : C)
        → port.get_id (port.update cfg client) ≡ cfg.id) where
    change-IsKeyed : (op : Change) (c : Cluster C) → IsKeyed c → IsKeyed (change op c).1
    change-IsKeyed (add client) c k id found h =
        ground
          (arith, lookup-add_client client c id, int_beq_iff (port.get_id client) id, k id found)
    change-IsKeyed (remove rid) c k id found h =
        ground (arith, lookup-remove_client rid c id, k id found)
    change-IsKeyed (update uid cfg) c k id found h = elim (Option-cases (lookup id c.clients)) [
      | inl e ↦ ground (arith, lookup-update_client uid cfg c id)
      | inr (client, e) ↦ ground (
        arith,
        lookup-update_client uid cfg c id,
        int_beq_iff uid id,
        int_beq_iff uid cfg.id,
        id-update cfg client,
        k id found,
      )
    ]

    -- If `Update` gives a client the id of its configuration, then every sequence of additions,
    -- removals and updates, failing ones included, keeps each client under its own id.
    pub changes-IsKeyed : (ops : List Change) (c : Cluster C) → IsKeyed c → IsKeyed (changes ops c)
    changes-IsKeyed [] c k = k
    changes-IsKeyed (op ∷ ops) c k = changes-IsKeyed ops (change op c).1 (change-IsKeyed op c k)

  -- It adds an id that is there, removes or updates one that is not, or updates with the
  -- configuration of another id.
  abbrev pub is_refused : Change → Cluster C → Bool
  is_refused (add client) c = has (port.get_id client) c.clients
  is_refused (remove id) c = not (has id c.clients)
  is_refused (update id cfg) c = not (id == cfg.id) || not (has id c.clients)

  abbrev pub has_error : Option GoError → Bool
  has_error none = false
  has_error (some e) = true

  -- An operation on the members fails exactly when `is_refused` says so, and then it leaves the
  -- cluster as it was.
  pub change_refused :
      (op : Change) (c : Cluster C)
      → (has_error (change op c).0 ≡ is_refused op c)
        × ((change op c).1 ≡ (if is_refused op c then c else (change op c).1))
  unfolding add_client remove_client update_client
  change_refused (add client) c = (ground arith, ground arith)
  change_refused (remove id) c = (ground arith, ground arith)
  change_refused (update id cfg) c = (ground arith, ground arith)
