-- ===== src/Health/Laws.antt =====
-- What is known of each node after a sweep.
use pihole_cluster_admin.Prelude.{
  ℕ, ℤ, ◌≡◌, refl, ◌∙◌, ap, subst, Bool, true, false, Option, none, some, [], ◌∷◌, ◌==◌, int_eq,
  Map, lookup, insert, lookup-insert, IsUnique, All, if◌then◌else◌, int_beq_iff,
}
use pihole_cluster_admin.Domain.{NodeResult, AuthStatus}
use pihole_cluster_admin.Health.{
  NodeHealth, Service, node_health_of, sweep_each, sweep_once, recompute_locked,
}

-- Every result stands under the id of its node.
abbrev pub IsKeyed : Map ℤ (NodeResult AuthStatus) → Type 0
IsKeyed results = All (λ p. p.1.pihole_node.id ≡ p.0) results

abbrev pub health_after : ℕ → Option (NodeResult AuthStatus) → Option NodeHealth → Option NodeHealth
health_after now none old = old
health_after now (some r) old = some (node_health_of now r)

after_head :
    (b : Bool) (now : ℕ) (r : NodeResult AuthStatus) (o : Option (NodeResult AuthStatus))
    (old : Option NodeHealth)
    → ((b ≡ true) → o ≡ none)
    → health_after now o (if b then some (node_health_of now r) else old)
      ≡ health_after now (if b then some r else o) old
after_head true now r o old h = ap (λ o. health_after now o (some (node_health_of now r))) (h refl)
after_head false now r o old h = refl

lookup-sweep_each :
    (now : ℕ) (results : Map ℤ (NodeResult AuthStatus)) (m : Map ℤ NodeHealth) (id : ℤ)
    → IsUnique results
    → IsKeyed results
    → lookup id (sweep_each now results m) ≡ health_after now (lookup id results) (lookup id m)
unfolding sweep_each lookup
lookup-sweep_each now [] m id unique keyed = refl
lookup-sweep_each now ((k, r) ∷ results) m id (once, unique) (same, keyed) =
    lookup-sweep_each now results (insert r.pihole_node.id (node_health_of now r) m) id unique keyed
    ∙ ap (health_after now (lookup id results))
        (lookup-insert r.pihole_node.id id (node_health_of now r) m)
    ∙ ap
        (λ j.
          health_after now (lookup id results)
            (if j == id then some (node_health_of now r) else lookup id m))
        same
    ∙ after_head (k == id) now r (lookup id results) (lookup id m)
        (λ e. subst (λ j. lookup j results ≡ none) ((int_beq_iff k id).0 e) once)

-- If the results stand under the ids of their nodes, a sweep records for each node of the results
-- the health that its own result shows, and keeps what is recorded of every other node, also of
-- one that has left the cluster.
pub lookup-sweep_once :
    (now later : ℕ) (results : Map ℤ (NodeResult AuthStatus)) (s : Service) (id : ℤ)
    → IsUnique results
    → IsKeyed results
    → lookup id (sweep_once now later results s).node_health
      ≡ health_after now (lookup id results) (lookup id s.node_health)
unfolding sweep_once recompute_locked
lookup-sweep_once now later results s id unique keyed =
    lookup-sweep_each now results s.node_health id unique keyed
