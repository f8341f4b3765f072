-- ===== src/Sessions/Memory.antt =====
-- backend/internal/sessions/memory_session.go: sessions in a map.
pub mod Laws
use pihole_cluster_admin.Prelude.{
  ℕ, ℤ, String, Bool, true, false, Option, none, some, List, [], ◌∷◌, Map, lookup, insert, delete,
  string_eq, if◌then◌else◌,
}
use pihole_cluster_admin.Httpx.{GoError, Result, ok}
use pihole_cluster_admin.Sessions.{Session, Storage, live}

-- The values of the map
unfoldable pub values : Map String Session → List Session
values [] = []
values ((k, s) ∷ m) = s ∷ values m

-- NewMemorySessionStore
abbrev pub new_memory_session_store : Map String Session
new_memory_session_store = []

unfoldable pub memory_create : Session → Map String Session → Option GoError × Map String Session
memory_create session m = (none, insert session.id session m)

unfoldable pub memory_get_user_id : ℕ → String → Map String Session → Result (Option ℤ)
unfolding live
memory_get_user_id now session_id m = ok (live now (lookup session_id m))

unfoldable pub memory_delete : String → Map String Session → Option GoError × Map String Session
memory_delete session_id m = (none, delete session_id m)

unfoldable pub memory_session_store : Storage (Map String Session)
unfolding memory_create memory_get_user_id memory_delete values
memory_session_store = record {
  create = memory_create;
  get_all = λ m. ok (values m);
  get_user_id = memory_get_user_id;
  delete = memory_delete;
}
