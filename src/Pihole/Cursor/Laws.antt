-- ===== src/Pihole/Cursor/Laws.antt =====
-- What a cursor promises: its snapshot, until it expires.
use pihole_cluster_admin.Prelude.{
  ℕ, ℤ, ◌≤◌, ◌≡◌, ◌≢◌, String, none, some, Map, lookup-delete, map_laws, arith, eq_iff, ltb,
  if◌then◌else◌, beq_refl, string_eq,
}
use pihole_cluster_admin.Durations.{after_hours}
use pihole_cluster_admin.Pihole.Cursor.{
  CursorManager, new_search_state, create_cursor, get_search_state,
}

module _ {ℓ} {T : Type ℓ} (m : CursorManager T) (cursor : String) (params : T)
    (cursors : Map ℤ ℤ) where
  -- A snapshot created at `now` is found at `later` with its parameters and cursors exactly while
  -- `later` is at most `ttl_hours` hours, as a duration of int64 nanoseconds, after `now`.
  pub get_search_state-create_cursor :
      (now later : ℕ)
      → (get_search_state cursor later (create_cursor cursor now params cursors m)).0 ≡ (
          if ltb (after_hours now m.ttl_hours) later
          then none
          else some (new_search_state now m.ttl_hours params cursors))
  unfolding get_search_state create_cursor
  get_search_state-create_cursor now later = simp (map_laws, beq_refl) (ground arith)

  -- Creating a cursor leaves what the other cursors find as it was.
  pub get_search_state-create_cursor_ne :
      (now later : ℕ) (j : String)
      → cursor ≢ j
      → (get_search_state j later (create_cursor cursor now params cursors m)).0
        ≡ (get_search_state j later m).0
  unfolding get_search_state create_cursor
  get_search_state-create_cursor_ne now later j h = simp map_laws (ground (arith, eq_iff cursor j))

module _ {ℓ} {T : Type ℓ} (m : CursorManager T) where
  -- A lookup at one time, which may drop an expired snapshot, changes no lookup at that time or
  -- later.
  pub get_search_state_stable :
      (cursor j : String) (now later : ℕ)
      → now ≤ later
      → (get_search_state j later (get_search_state cursor now m).1).0
        ≡ (get_search_state j later m).0
  unfolding get_search_state
  get_search_state_stable cursor j now later h =
      ground (arith, lookup-delete cursor j m.search_states, eq_iff cursor j)

  pub ttl_hours-get_search_state :
      (cursor : String) (now : ℕ) → (get_search_state cursor now m).1.ttl_hours ≡ m.ttl_hours
  unfolding get_search_state
  ttl_hours-get_search_state cursor now = ground arith
