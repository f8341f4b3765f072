-- ===== src/Health/Sweep/Results.antt =====
-- What is recorded of each node after a sweep over the cluster.
use pihole_cluster_admin.Prelude.{
  ℕ, ℤ, ◌+◌, ◌/◌, Bool, true, false, ◌≡◌, refl, sym, ◌∙◌, ap, Option, none, some, List, [], ◌∷◌,
  ◌==◌, int_eq, nat_eq, string_eq, Map, lookup, IsUnique, insert-IsUnique, All, if◌then◌else◌,
  int_beq_iff, arith, beq_refl,
}
use pihole_cluster_admin.Httpx.{Result, ok, err, error_text}
use pihole_cluster_admin.Domain.{PiholeNodeRef, NodeResult, AuthStatus}
use pihole_cluster_admin.Pihole.Cluster.{
  Call, ClientPort, Cluster, Run, finish, run_worker, run_workers, for_each_client, gather,
}
use pihole_cluster_admin.Pihole.Cluster.FanOut.{Covers}
use pihole_cluster_admin.Pihole.Cluster.Rules.{auth_status, node_worker}
use pihole_cluster_admin.Pihole.Cluster.Rules.Laws.{entry_of, entry, gather-IsReport}
use pihole_cluster_admin.Realtime.{Broker}
use pihole_cluster_admin.Realtime.Sound.{some-injective}
use pihole_cluster_admin.Health.{
  NodeHealth, online, degraded, offline, Service, pick_status, node_health_of,
}
use pihole_cluster_admin.Health.Laws.{IsKeyed, health_after, lookup-sweep_once}
use pihole_cluster_admin.Health.Sweep.{Encoders, sweep}

module _ {C R : Type 0} (f : ℤ → Call C R) (snapshot : Map ℤ C) where
  finish-IsUnique :
      (id : ℤ) (o : Option R) (c : C) (r : Run C R)
      → IsUnique r.results
      → IsUnique (finish id o c r).results
  unfolding finish
  finish-IsUnique id none c r h = h
  finish-IsUnique id (some a) c r h = insert-IsUnique id a r.results h

  run_worker-IsUnique :
      (id : ℤ) (r : Run C R) → IsUnique r.results → IsUnique (run_worker f snapshot id r).results
  unfolding run_worker
  run_worker-IsUnique id r h = at_client (lookup id snapshot)
    where
      at_client :
          (o : Option C)
          → IsUnique
              (elim o as (λ _. Run C R) [
                | none ↦ r
                | some c ↦ finish id (f id c).0 (f id c).1 r
              ]).results
      at_client none = h
      at_client (some c) = finish-IsUnique id (f id c).0 (f id c).1 r h

  run_workers-IsUnique :
      (order : List ℤ) (r : Run C R)
      → IsUnique r.results
      → IsUnique (run_workers f snapshot order r).results
  unfolding run_workers
  run_workers-IsUnique [] r h = h
  run_workers-IsUnique (id ∷ order) r h =
      run_workers-IsUnique order (run_worker f snapshot id r) (run_worker-IsUnique id r h)

gather-IsUnique :
    {C R : Type 0} (f : ℤ → Call C R) (order : List ℤ) (c : Cluster C)
    → IsUnique (gather f order c).0
unfolding gather for_each_client
gather-IsUnique f order c =
    run_workers-IsUnique f c.clients order (record { results = []; clients = c.clients }) tt

-- What holds of every value that a lookup finds holds of every entry.
All-lookup :
    {V : Type 0} (P : ℤ → V → Type 0) (m : Map ℤ V)
    → IsUnique m
    → ((k : ℤ) (v : V) → lookup k m ≡ some v → P k v)
    → All (λ p. P p.0 p.1) m
unfolding lookup
All-lookup P [] unique found = tt
All-lookup P ((k, v) ∷ m) (once, unique) found =
    (found k v (rw (beq_refl k) refl), All-lookup P m unique (λ j w h. found j w (later j w h)))
  where
    later : (j : ℤ) (w : _) → lookup j m ≡ some w → (if k == j then some v else lookup j m) ≡ some w
    later j w h = ground (arith, int_beq_iff k j)

-- The health that the answer of a client shows: offline with the text of the error, online if the
-- answer is valid and degraded if it is not, with the time that the call took in milliseconds,
-- rounded. A client that panicked leaves what was known.
unfoldable pub shown :
    ℕ → PiholeNodeRef → Option (Result AuthStatus) → Option NodeHealth → Option NodeHealth
unfolding error_text
shown now node none old = old
shown now node (some (err e)) old = some (record {
  id = node.id;
  name = node.name;
  status = offline;
  latency_ms = 0;
  last_err = error_text e;
  updated_at = now;
})
shown now node (some (ok a)) old = some (record {
  id = node.id;
  name = node.name;
  status = if a.valid then online else degraded;
  latency_ms = (a.took + 500) / 1000;
  last_err = "";
  updated_at = now;
})

valid_status : (valid : Bool) → pick_status valid none ≡ (if valid then online else degraded)
unfolding pick_status
valid_status true = refl
valid_status false = refl

-- The service records what the answer shows.
health_after-shown :
    (now : ℕ) (node : PiholeNodeRef) (o : Option (Result AuthStatus)) (old : Option NodeHealth)
    → health_after now (entry_of node o) old ≡ shown now node o old
unfolding shown node_health_of pick_status
health_after-shown now node none old = refl
health_after-shown now node (some (err e)) old = ground arith
health_after-shown now node (some (ok a)) old = rw (valid_status a.valid) refl

module _ {C : Type 0} (port : ClientPort C) where
  -- After a call of AuthStatus each client still says the id that it stands under.
  abbrev pub KnowsIds : Cluster C → Type 0
  KnowsIds c =
      (id : ℤ) (client : C)
      → lookup id c.clients ≡ some client
      → (port.get_node_info (port.auth_status client).1).id ≡ id

  entry-id :
      (k : ℤ) (client : C) (o : Option (Result AuthStatus)) (v : NodeResult AuthStatus)
      → (port.get_node_info (port.auth_status client).1).id ≡ k
      → entry_of (port.get_node_info (port.auth_status client).1) o ≡ some v
      → v.pihole_node.id ≡ k
  entry-id k client none v knows h = cc
  entry-id k client (some (ok a)) v knows h =
      ap (λ (x : NodeResult AuthStatus). x.pihole_node.id) (sym (some-injective h)) ∙ knows
  entry-id k client (some (err e)) v knows h =
      ap (λ (x : NodeResult AuthStatus). x.pihole_node.id) (sym (some-injective h)) ∙ knows

  -- What AuthStatus of the cluster reports for a node
  abbrev pub reported : Cluster C → ℤ → Option (NodeResult AuthStatus)
  reported c id = elim (lookup id c.clients) [
    | none ↦ none
    | some client ↦ entry port port.auth_status client
  ]

  auth_status-IsReport :
      (order : List ℤ) (c : Cluster C)
      → Covers order c.clients
      → (id : ℤ) → lookup id (auth_status port order c).0 ≡ reported c id
  unfolding auth_status
  auth_status-IsReport order c all = gather-IsReport port port.auth_status order c all

  auth_status-IsUnique : (order : List ℤ) (c : Cluster C) → IsUnique (auth_status port order c).0
  unfolding auth_status
  auth_status-IsUnique order c = gather-IsUnique (λ id. node_worker port port.auth_status) order c

  auth_status-IsKeyed :
      (order : List ℤ) (c : Cluster C)
      → Covers order c.clients
      → KnowsIds c
      → IsKeyed (auth_status port order c).0
  auth_status-IsKeyed order c all knows =
      All-lookup (λ k v. v.pihole_node.id ≡ k) (auth_status port order c).0
        (auth_status-IsUnique order c)
        (λ k v found.
          at_client k v (lookup k c.clients) refl
            (sym (auth_status-IsReport order c all k) ∙ found))
    where
      at_client :
          (k : ℤ) (v : NodeResult AuthStatus) (o : Option C)
          → lookup k c.clients ≡ o
          → elim o as (λ _. Option (NodeResult AuthStatus)) [
            | none ↦ none
            | some client ↦ entry port port.auth_status client
          ]
            ≡ some v
          → v.pihole_node.id ≡ k
      at_client k v none e h = cc
      at_client k v (some client) e h =
          entry-id k client (port.auth_status client).0 v (knows k client e) h

  -- The health that a sweep has recorded of a node: that which its own client's answer shows, or
  -- what was recorded before if it has no client or its client panicked.
  abbrev pub health_now : ℕ → Cluster C → Service → ℤ → Option NodeHealth
  health_now now c s id = elim (lookup id c.clients) [
    | none ↦ lookup id s.node_health
    | some client ↦
        shown now (port.get_node_info (port.auth_status client).1) (port.auth_status client).0
          (lookup id s.node_health)
  ]

  reported_now :
      (now : ℕ) (o : Option C) (old : Option NodeHealth)
      → health_after now
          (elim o as (λ _. Option (NodeResult AuthStatus)) [
            | none ↦ none
            | some client ↦ entry port port.auth_status client
          ])
          old
        ≡ elim o [
          | none ↦ old
          | some client ↦
              shown now
                (port.get_node_info (port.auth_status client).1)
                (port.auth_status client).0
                old
        ]
  reported_now now none old = refl
  reported_now now (some client) old =
      health_after-shown now (port.get_node_info (port.auth_status client).1)
        (port.auth_status client).0 old

  pub sweep-health :
      (encoders : Encoders) (order : List ℤ) (now later : ℕ) (c : Cluster C) (s : Service)
      (b : Broker)
      → Covers order c.clients
      → KnowsIds c
      → (id : ℤ)
      → lookup id (sweep port encoders order now later c s b).0.node_health ≡ health_now now c s id
  unfolding sweep
  sweep-health encoders order now later c s b all knows id =
      lookup-sweep_once now later (auth_status port order c).0 s id (auth_status-IsUnique order c)
        (auth_status-IsKeyed order c all knows)
      ∙ ap (λ o. health_after now o (lookup id s.node_health)) (auth_status-IsReport order c all id)
      ∙ reported_now now (lookup id c.clients) (lookup id s.node_health)
