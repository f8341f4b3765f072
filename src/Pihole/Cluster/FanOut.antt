-- ===== src/Pihole/Cluster/FanOut.antt =====
-- Fan-outs do not depend on the order in which the nodes answer.
use mathlib.Core.Bool.{true≢false}
use pihole_cluster_admin.Prelude.{
  ℤ, Bool, true, false, ◌||◌, ◌≡◌, refl, sym, ◌∙◌, Option, none, some, List, [], ◌∷◌, Map, lookup,
  lookup-insert, has, ◌==◌, int_beq_refl, int_beq_comm, Bool-cases, Option-cases, inl, inr, int_eq,
  int_beq_iff, if◌then◌else◌, arith,
}
use pihole_cluster_admin.Pihole.Cluster.{
  Call, Run, finish, run_worker, run_workers, for_each_client,
}

-- A goroutine for `id` is among those that finish.
abbrev pub contains : ℤ → List ℤ → Bool
contains id [] = false
contains id (j ∷ order) = id == j || contains id order

-- Every client of the snapshot has finished, as `g.Wait()` ensures.
abbrev pub Covers : {C : Type 0} → List ℤ → Map ℤ C → Type 0
Covers order clients = (id : ℤ) → has id clients ≡ true → contains id order ≡ true

module _ {C R : Type 0} (f : ℤ → Call C R) (snapshot : Map ℤ C) where
  -- The result of the node `id`, if it has a client and the client does not panic.
  abbrev pub node_outcome : ℤ → Option R
  node_outcome id = elim (lookup id snapshot) [ none ↦ none | some c ↦ (f id c).0 ]

  abbrev or_else : Option R → Option R → Option R
  or_else none o = o
  or_else (some a) o = some a

  lookup-finish :
      (id j : ℤ) (a : Option R) (c : C) (r : Run C R)
      → lookup id (finish j a c r).results
        ≡ (if j == id then or_else a (lookup id r.results) else lookup id r.results)
  unfolding finish
  lookup-finish id j none c r = ground arith
  lookup-finish id j (some a) c r = lookup-insert j id a r.results

  lookup-run_worker_self :
      (id : ℤ) (r : Run C R)
      → lookup id (run_worker f snapshot id r).results
        ≡ or_else (node_outcome id) (lookup id r.results)
  unfolding run_worker
  lookup-run_worker_self id r = elim (Option-cases (lookup id snapshot)) [
    | inl e ↦ rw (e, run_worker, node_outcome)
    | inr (c, e) ↦
        rw (e, run_worker, node_outcome)
          (rw (lookup-finish id id (f id c).0 (f id c).1 r) (rw (int_beq_refl id)))
  ]

  lookup-run_worker_ne :
      (id j : ℤ) (r : Run C R)
      → (j == id) ≡ false
      → lookup id (run_worker f snapshot j r).results ≡ lookup id r.results
  unfolding run_worker
  lookup-run_worker_ne id j r h = elim (Option-cases (lookup j snapshot)) [
    | inl e ↦ rw (e, run_worker)
    | inr (c, e) ↦ rw (e, run_worker) (rw (lookup-finish id j (f j c).0 (f j c).1 r) (rw h))
  ]

  -- A second result of one node changes nothing.
  or_else_twice :
      (again : Bool) (a b : Option R)
      → (if again then or_else a (or_else a b) else or_else a b) ≡ or_else a b
  or_else_twice true none b = refl
  or_else_twice true (some a) b = refl
  or_else_twice false a b = refl

  lookup-run_workers :
      (order : List ℤ) (id : ℤ) (r : Run C R)
      → lookup id (run_workers f snapshot order r).results ≡ (
          if contains id order
          then or_else (node_outcome id) (lookup id r.results)
          else lookup id r.results)
  unfolding run_workers
  lookup-run_workers [] id r = refl
  lookup-run_workers (j ∷ order) id r = elim (Bool-cases (id == j)) [
    | inl e ↦ rw (lookup-run_workers order id (run_worker f snapshot j r)) (
        rw (← (int_beq_iff id j).0 e) (
          rw (int_beq_refl id, lookup-run_worker_self id r)
            (or_else_twice (contains id order) (node_outcome id) (lookup id r.results))))
    | inr e ↦
        rw (lookup-run_workers order id (run_worker f snapshot j r))
          (rw (e, lookup-run_worker_ne id j r (int_beq_comm j id ∙ e)))
  ]

  or_else-none : (o : Option R) → or_else o none ≡ o
  or_else-none none = refl
  or_else-none (some a) = refl

  from_start :
      (order : List ℤ) (id : ℤ)
      → contains id order ≡ true
      → lookup id (for_each_client f order snapshot).results ≡ node_outcome id
  unfolding for_each_client lookup
  from_start order id h = rw (lookup-run_workers order id) (rw h (or_else-none (node_outcome id)))

  not_covered :
      (order : List ℤ) (id : ℤ)
      → lookup id snapshot ≡ none
      → contains id order ≡ false
      → lookup id (for_each_client f order snapshot).results ≡ node_outcome id
  unfolding for_each_client lookup
  not_covered order id e h = rw (lookup-run_workers order id) (rw h (rw (e, node_outcome)))

  -- Once every goroutine has finished, in whatever order, the results hold for each node what its
  -- own client returned, and nothing for a node that has no client or whose client panicked.
  pub lookup-for_each_client :
      (order : List ℤ)
      → Covers order snapshot
      → (id : ℤ) → lookup id (for_each_client f order snapshot).results ≡ node_outcome id
  lookup-for_each_client order all id = elim (Bool-cases (contains id order)) [
    | inl h ↦ from_start order id h
    | inr h ↦ elim (Option-cases (lookup id snapshot)) [
      | inl e ↦ not_covered order id e h
      | inr (c, e) ↦ absurd (true≢false (sym (all id (rw (e, has))) ∙ h))
    ]
  ]
