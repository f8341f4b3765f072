-- ===== src/Sessions/Purge/Tests.antt =====
-- A session that is created while the purge deletes an expired one.
use pihole_cluster_admin.Prelude.{
  pos, ◌≡◌, refl, ◌↔◌, String, true, some, [], ◌∷◌, Map, lookup, insert, delete, string_eq, arith,
  eq_iff,
}
use pihole_cluster_admin.Durations.{after_hours}
use pihole_cluster_admin.Text.{trim_space}
use pihole_cluster_admin.Sessions.{
  Session, SessionConfig, create_session, new_session, auth_middleware, passed, live,
}
use pihole_cluster_admin.Sessions.Memory.{
  memory_session_store, memory_create, memory_delete, values,
}
use pihole_cluster_admin.Sessions.Memory.Laws.{memory_session_store-laws}
use pihole_cluster_admin.Sessions.Purge.{selecting, purging, ticked, next_session, purge_step}
use pihole_cluster_admin.Sessions.Purge.Managed.{
  Sessions, put, Managed, starts, passes, purges, creates,
}
use pihole_cluster_admin.Sessions.Purge.Laws.{auth_middleware-Managed}

abbrev cfg : SessionConfig
cfg = record {
  backend = "memory";
  ttl_hours = pos 1;
  secure = true;
  allow_insecure_cookie = true;
  cookie_name = "session_id";
  cookie_path = "/";
  same_site = "Strict";
}

abbrev old : Session
old = record { id = "aa"; user_id = pos 7; expires_at = 10 }

abbrev fresh : Session
fresh = record { id = "bb"; user_id = pos 2; expires_at = after_hours 11 (pos 1) }

abbrev old_store : Map String Session
old_store = ("aa", old) ∷ []

abbrev both : Map String Session
both = ("aa", old) ∷ ("bb", fresh) ∷ []

abbrev fresh_store : Map String Session
fresh_store = ("bb", fresh) ∷ []

abbrev known : Sessions
known = put "bb" (some fresh) (λ k. lookup k old_store)

after_purge :
    Managed memory_session_store memory_session_store-laws cfg 11 (purging 11 []) fresh_store known
unfolding memory_session_store memory_session_store-laws memory_create memory_delete values
    purge_step create_session new_session lookup insert delete trim_space
after_purge =
    purges 11 (purging 11 (old ∷ [])) (purging 11 []) both fresh_store known next_session
      (creates 11 (purging 11 (old ∷ [])) old_store both _ "bb" (pos 2)
        (purges 11 selecting (purging 11 (old ∷ [])) old_store old_store _ (ticked 11)
          (passes 5 11 selecting old_store _ (starts 5 old_store (refl, refl, tt)) (omega arith))
          refl refl)
        refl ((λ h. ground (arith, h, eq_iff "aa" "bb")), tt) refl)
      tt refl

auth_middleware-Managed_example :
    (auth_middleware memory_session_store 12 (some "bb") fresh_store ≡ passed (pos 2))
    ↔ (live 12 (known "bb") ≡ some (pos 2))
auth_middleware-Managed_example =
    auth_middleware-Managed memory_session_store memory_session_store-laws cfg 11 (purging 11 [])
      fresh_store known 12 "bb" (pos 2) after_purge (omega arith)
