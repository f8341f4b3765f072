-- ===== src/Sessions/Purge/Managed.antt =====
-- The session manager in use: requests that create and destroy sessions, between the steps of the
-- purge.
use pihole_cluster_admin.Prelude.{
  ℕ, ℤ, ◌≤◌, ◌≡◌, ◌≢◌, String, Option, none, some, ◌==◌, string_eq, if◌then◌else◌, All,
}
use pihole_cluster_admin.Text.{trim_space}
use pihole_cluster_admin.Httpx.{GoError, ok}
use pihole_cluster_admin.Sessions.{
  Session, Storage, SessionConfig, new_session, create_session, destroy_session,
}
use pihole_cluster_admin.Sessions.Laws.{StorageLaws}
use pihole_cluster_admin.Sessions.Purge.{Purger, selecting, purging, PurgeStep, ticked, purge_step}

-- The sessions as a browser knows them: those created and not destroyed, whatever is purged.
abbrev pub Sessions : Type 0
Sessions = String → Option Session

abbrev pub put : String → Option Session → Sessions → Sessions
put id v m k = if id == k then v else m k

-- The purge is not about to delete a session of that id: ids are random.
abbrev pub IsNew : String → Purger → Type 0
IsNew id (purging t ss) = All (λ s. s.id ≢ id) ss
IsNew id _ = Unit

abbrev pub IsAt : ℕ → PurgeStep → Type 0
IsAt now (ticked t) = t ≡ now
IsAt now _ = Unit

-- The clock, the purge and the storage, with the sessions as the browsers know them. Every
-- CreateSession has succeeded; a DestroySession may fail.
pub data Managed {S : Type 0} (storage : Storage S) (laws : StorageLaws storage)
    (cfg : SessionConfig) : ℕ → Purger → S → Sessions → Type 0 where
  starts :
      (now : ℕ) (st : S) → laws.IsGood st → Managed storage laws cfg now selecting st (laws.look st)
  passes :
      (now later : ℕ) (p : Purger) (st : S) (m : Sessions)
      → Managed storage laws cfg now p st m
      → now ≤ later
      → Managed storage laws cfg later p st m
  purges :
      (now : ℕ) (p q : Purger) (st st' : S) (m : Sessions) (a : PurgeStep)
      → Managed storage laws cfg now p st m
      → IsAt now a
      → purge_step storage a (p, st) ≡ (q, st')
      → Managed storage laws cfg now q st' m
  creates :
      (now : ℕ) (p : Purger) (st st' : S) (m : Sessions) (id : String) (user_id : ℤ)
      → Managed storage laws cfg now p st m
      → trim_space id ≡ id
      → IsNew id p
      → create_session storage cfg now id user_id st ≡ (ok id, st')
      → Managed storage laws cfg now p st' (put id (some (new_session cfg now id user_id)) m)
  destroys :
      (now : ℕ) (p : Purger) (st st' : S) (m : Sessions) (id : String)
      → Managed storage laws cfg now p st m
      → destroy_session storage id st ≡ (none, st')
      → Managed storage laws cfg now p st' (put id none m)
  destroy_fails :
      (now : ℕ) (p : Purger) (st st' : S) (m : Sessions) (id : String) (e : GoError)
      → Managed storage laws cfg now p st m
      → destroy_session storage id st ≡ (some e, st')
      → Managed storage laws cfg now p st' m
