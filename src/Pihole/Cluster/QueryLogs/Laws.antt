-- ===== src/Pihole/Cluster/QueryLogs/Laws.antt =====
-- What a page of query logs promises.
use mathlib.Core.Bool.{false≢true}
use pihole_cluster_admin.Prelude.{
  ℕ, ℤ, ◌≡◌, ◌↔◌, refl, sym, ◌∙◌, subst, String, true, false, Option, none, some, List, [], ◌∷◌,
  Map, int_eq, int_beq_iff, string_eq, if◌then◌else◌, arith, All, Option-cases, Bool-cases, inl,
  inr, or-eq-false_iff,
}
use pihole_cluster_admin.Httpx.{other, ok, err}
use pihole_cluster_admin.Httpx.Laws.{ok-injective}
use pihole_cluster_admin.Domain.{NodeResult}
use pihole_cluster_admin.Pihole.Types.{
  FetchQueryLogFilters, FetchQueryLogResponse, FetchQueryLogClusterRequest,
  FetchQueryLogsClusterResponse,
}
use pihole_cluster_admin.Pihole.Cursor.{SearchState, get_pihole_cursor, get_search_state}
use pihole_cluster_admin.Pihole.Cluster.{ClientPort, Cluster}
use pihole_cluster_admin.Pihole.Cluster.QueryLogs.{
  page_cursor, fetch_nodes, fetch_found, fetch_page, add_cursor, next_cursors, cursor_moved,
  any_moved, fetch_next, fetch_query_logs,
}

-- The node has given no response, or one whose cursor is that of the snapshot.
abbrev pub IsUnmoved : SearchState FetchQueryLogFilters → ℤ → Option FetchQueryLogResponse → Type 0
IsUnmoved s id none = Unit
IsUnmoved s id (some a) = get_pihole_cursor id s ≡ some a.cursor

abbrev pub AllUnmoved :
    SearchState FetchQueryLogFilters → Map ℤ (NodeResult FetchQueryLogResponse) → Type 0
AllUnmoved s = All (λ entry. IsUnmoved s entry.0 entry.1.response)

cursor_moved_iff :
    (s : SearchState FetchQueryLogFilters) (id cursor : ℤ)
    → (cursor_moved s id cursor ≡ false) ↔ (get_pihole_cursor id s ≡ some cursor)
cursor_moved_iff s id cursor = elim (Option-cases (get_pihole_cursor id s)) [
  | inl e ↦ rw e ((λ h. cc), (λ h. cc))
  | inr (old, e) ↦
      rw e (ground (arith, int_beq_iff old cursor), ground (arith, int_beq_iff old cursor))
]

-- The head of the list of cursors, as `next_cursors` builds it.
moved_head :
    (s : SearchState FetchQueryLogFilters) (id : ℤ) (o : Option FetchQueryLogResponse)
    (rest : Map ℤ ℤ)
    → (any_moved s (add_cursor id o rest) ≡ false) ↔ (IsUnmoved s id o × (any_moved s rest ≡ false))
unfolding any_moved add_cursor
moved_head s id none rest = ((λ h. (tt, h)), (λ h. h.1))
moved_head s id (some a) rest = (
  (λ h.
      let (here, later) = (or-eq-false_iff _ _).0 h in
      ((cursor_moved_iff s id a.cursor).0 here, later)),
  (λ h. (or-eq-false_iff _ _).1 ((cursor_moved_iff s id a.cursor).1 h.0, h.1)),
)

any_moved_iff :
    (s : SearchState FetchQueryLogFilters) (results : Map ℤ (NodeResult FetchQueryLogResponse))
    → (any_moved s (next_cursors results) ≡ false) ↔ AllUnmoved s results
unfolding any_moved next_cursors
any_moved_iff s [] = ((λ h. tt), (λ h. refl))
any_moved_iff s ((id, r) ∷ results) = (
  (λ h.
      let (here, later) = (moved_head s id r.response (next_cursors results)).0 h in
      (here, (any_moved_iff s results).0 later)),
  (λ h.
      (moved_head s id r.response (next_cursors results)).1 (h.0, (any_moved_iff s results).1 h.1)),
)

-- What the response says of a page that continues the snapshot `s` of the cursor `cursor`.
abbrev pub IsPageAfter :
    String → String → SearchState FetchQueryLogFilters → FetchQueryLogsClusterResponse → Type 0
IsPageAfter uuid cursor s resp =
    ((resp.end_of_results ≡ true) ↔ AllUnmoved s resp.results)
    × (resp.cursor ≡ (if resp.end_of_results then cursor else uuid))

module _ {C : Type 0} (port : ClientPort C) (uuid : String) (now : ℕ) (order : List ℤ) where
  fetch_next-IsPageAfter :
      (req : FetchQueryLogClusterRequest) (cursor : String) (s : SearchState FetchQueryLogFilters)
      (c : Cluster C) (resp : FetchQueryLogsClusterResponse)
      → (fetch_next port uuid now order req cursor s c).0 ≡ ok resp
      → IsPageAfter uuid cursor s resp
  unfolding fetch_next
  fetch_next-IsPageAfter req cursor s c resp h =
      let results = (fetch_nodes port uuid now order req (some s) c).0 in
      elim (Bool-cases (any_moved s (next_cursors results))) [
        | inl moved ↦
            subst (IsPageAfter uuid cursor s) (ok-injective _ _ (rw (moved, fetch_next) at h)) (
              (
                (λ e. absurd (false≢true e)),
                (λ u. absurd (false≢true (sym ((any_moved_iff s results).1 u) ∙ moved))),
              ),
              refl,
            )
        | inr still ↦
            subst (IsPageAfter uuid cursor s) (ok-injective _ _ (rw (still, fetch_next) at h))
              (((λ e. (any_moved_iff s results).0 still), (λ u. refl)), refl)
      ]

  -- A page that continues a snapshot is the last one exactly when every node that answered returned
  -- the cursor it had in the snapshot; then the browser keeps its cursor, else it gets the new one.
  pub fetch_query_logs-IsPageAfter :
      (req : FetchQueryLogClusterRequest) (found_at : ℕ) (c : Cluster C) (cursor : String)
      (s : SearchState FetchQueryLogFilters) (resp : FetchQueryLogsClusterResponse)
      → page_cursor req.cursor ≡ some cursor
      → (get_search_state cursor found_at c.cursor_manager).0 ≡ some s
      → (fetch_query_logs port uuid now order req found_at c).0 ≡ ok resp
      → IsPageAfter uuid cursor s resp
  unfolding fetch_query_logs
  fetch_query_logs-IsPageAfter req found_at c cursor s resp paged found h =
      let looked = (get_search_state cursor found_at c.cursor_manager).1 in
      let c' : Cluster C = record c { cursor_manager = looked } in
      let h' =
        subst (λ page. (fetch_page port uuid now order req page found_at c).0 ≡ ok resp) paged h in
      fetch_next-IsPageAfter req cursor s c' resp
        (subst (λ o. (fetch_found port uuid now order req cursor o c').0 ≡ ok resp) found h')

  -- An unknown or expired cursor is an error, and no node is asked.
  pub fetch_query_logs_expired :
      (req : FetchQueryLogClusterRequest) (found_at : ℕ) (c : Cluster C) (cursor : String)
      → page_cursor req.cursor ≡ some cursor
      → (get_search_state cursor found_at c.cursor_manager).0 ≡ none
      → ((fetch_query_logs port uuid now order req found_at c).0
          ≡ err (other "cursor expired or not found"))
        × ((fetch_query_logs port uuid now order req found_at c).1.clients ≡ c.clients)
  unfolding fetch_query_logs
  fetch_query_logs_expired req found_at c cursor paged gone =
      subst
        (λ page.
          ((fetch_page port uuid now order req page found_at c).0
            ≡ err (other "cursor expired or not found"))
          × ((fetch_page port uuid now order req page found_at c).1.clients ≡ c.clients))
        (sym paged) (simp gone (refl, refl))
