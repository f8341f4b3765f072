-- ===== src/Sessions/Purge.antt =====
-- StartPurgeLoop of backend/internal/sessions/session_manager.go, between the calls of the requests:
-- PurgeExpired reads all sessions and then deletes them one by one, and each call of the storage is
-- a step of its own.
pub mod Managed
pub mod Agrees
pub mod Laws
mod Tests
use pihole_cluster_admin.Prelude.{ℕ, Bool, true, false, List, [], ◌∷◌, if◌then◌else◌}
use pihole_cluster_admin.Httpx.{Result, ok, err}
use pihole_cluster_admin.Sessions.{Session, Storage, is_expired}

-- Where the goroutine of StartPurgeLoop is: at its `select`, in the loop of PurgeExpired with the
-- time that it has read and the sessions that are left, or at its end.
pub data Purger : Type 0 where
  selecting ended : Purger
  purging : ℕ → List Session → Purger

pub data PurgeStep : Type 0 where
  -- A tick at a time, with the call of GetAll
  ticked : ℕ → PurgeStep
  -- The next round of the loop of PurgeExpired
  next_session : PurgeStep
  -- `ctx.Done()`
  done : PurgeStep

abbrev pub listed : ℕ → Result (List Session) → Purger
listed now (ok ss) = purging now ss
listed now (err e) = selecting

module _ {S : Type 0} (storage : Storage S) where
  abbrev pub delete_expired : ℕ → Session → S → S
  delete_expired now s st = if is_expired now s then (storage.delete s.id st).1 else st

  -- A step of the goroutine; one that cannot be taken now changes nothing.
  unfoldable pub purge_step : PurgeStep → Purger × S → Purger × S
  purge_step (ticked now) (selecting, st) = (listed now (storage.get_all st), st)
  purge_step done (selecting, st) = (ended, st)
  purge_step next_session (purging now [], st) = (selecting, st)
  purge_step next_session (purging now (s ∷ ss), st) = (purging now ss, delete_expired now s st)
  purge_step _ (p, st) = (p, st)

  -- The loop of PurgeExpired to its end, with no other step between
  unfoldable pub rounds : List Session → Purger × S → Purger × S
  unfolding purge_step
  rounds [] ps = purge_step next_session ps
  rounds (s ∷ ss) ps = rounds ss (purge_step next_session ps)
