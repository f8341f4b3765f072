-- ===== src/Pihole/Cursor.antt =====
-- backend/internal/pihole/cursor.go: the snapshots behind the cursors that browsers page with.
-- `uuid.NewString()` and `time.Now()` are arguments. Each method holds the manager's mutex from
-- start to end, so it is one step of the state.
pub mod Laws
use pihole_cluster_admin.Prelude.{
  ℕ, ℤ, String, Option, none, some, [], Map, lookup, insert, delete, ltb, if◌then◌else◌, string_eq,
  int_eq,
}
use pihole_cluster_admin.Durations.{after_hours}

pub record SearchState {ℓ} (T : Type ℓ) : Type ℓ where
  pub expire_at : ℕ
  pub pihole_cursors : Map ℤ ℤ
  pub request_params : T

pub record CursorManager {ℓ} (T : Type ℓ) : Type ℓ where
  pub ttl_hours : ℤ
  pub search_states : Map String (SearchState T)

module _ {ℓ} {T : Type ℓ} where
  unfoldable pub new_search_state : ℕ → ℤ → T → Map ℤ ℤ → SearchState T
  unfolding after_hours
  new_search_state now ttl_hours params cursors = record {
    expire_at = after_hours now ttl_hours;
    pihole_cursors = cursors;
    request_params = params;
  }

  unfoldable pub get_pihole_cursor : ℤ → SearchState T → Option ℤ
  get_pihole_cursor id s = lookup id s.pihole_cursors

  unfoldable pub new_cursor_manager : ℤ → CursorManager T
  new_cursor_manager ttl_hours = record { ttl_hours = ttl_hours; search_states = [] }

  -- The new cursor is the first argument.
  unfoldable pub create_cursor : String → ℕ → T → Map ℤ ℤ → CursorManager T → CursorManager T
  unfolding new_search_state
  create_cursor cursor now params cursors m = record m {
    search_states = insert cursor (new_search_state now m.ttl_hours params cursors) m.search_states;
  }

  abbrev get_found :
      String
      → ℕ
      → CursorManager T
      → Option (SearchState T)
      → Option (SearchState T) × CursorManager T
  get_found cursor now m none = (none, m)
  get_found cursor now m (some s) =
      if ltb s.expire_at now
      then (none, record m { search_states = delete cursor m.search_states })
      else (some s, m)

  unfoldable pub get_search_state :
      String → ℕ → CursorManager T → Option (SearchState T) × CursorManager T
  get_search_state cursor now m = get_found cursor now m (lookup cursor m.search_states)

  unfoldable pub clear : CursorManager T → CursorManager T
  clear m = record m { search_states = [] }
