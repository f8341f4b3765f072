-- ===== src/Sessions/Purge/Laws.antt =====
-- Purges are invisible: the storage with the purge between is the map of the sessions created and
-- not destroyed.
use pihole_cluster_admin.Prelude.{
  ℕ, ℤ, ◌≤◌, ◌≡◌, refl, sym, ◌∙◌, ap, subst, ◌↔◌, String, none, some, List, [], ◌∷◌, string_eq,
  arith,
}
use pihole_cluster_admin.Httpx.{ok}
use pihole_cluster_admin.Sessions.{
  Session, Storage, SessionConfig, live, new_session, create_session, destroy_session, purge_each,
  purge_expired, auth_middleware, passed,
}
use pihole_cluster_admin.Sessions.Laws.{StorageLaws, auth_middleware-user_at}
use pihole_cluster_admin.Sessions.Purge.{
  Purger, selecting, purging, ticked, delete_expired, purge_step, rounds,
}
use pihole_cluster_admin.Sessions.Purge.Managed.{
  Sessions, put, Managed, starts, passes, purges, creates, destroys, destroy_fails,
}
use pihole_cluster_admin.Sessions.Purge.Agrees.{
  Agrees, purge_step-Agrees, created-Agrees, destroyed-Agrees, kept-Agrees, value_or_error-none,
}

module _ {S : Type 0} (storage : Storage S) where
  -- The rounds without a step between are the loop of PurgeExpired.
  rounds-purge_each :
      (now : ℕ) (ss : List Session) (st : S)
      → rounds storage ss (purging now ss, st) ≡ (selecting, purge_each storage now ss st)
  unfolding rounds purge_step purge_each
  rounds-purge_each now [] st = refl
  rounds-purge_each now (s ∷ ss) st = rounds-purge_each now ss (delete_expired storage now s st)

  -- A tick and the rounds that follow it, without a step between, are PurgeExpired.
  pub rounds-purge_expired :
      (now : ℕ) (ss : List Session) (st : S)
      → storage.get_all st ≡ ok ss
      → rounds storage ss (purge_step storage (ticked now) (selecting, st))
        ≡ (selecting, purge_expired storage now st)
  unfolding purge_step purge_expired
  rounds-purge_expired now ss st e = rw (e, purge_expired) (rounds-purge_each now ss st)

module _ {S : Type 0} (storage : Storage S) (laws : StorageLaws storage) (cfg : SessionConfig) where
  Managed-Agrees :
      (now : ℕ) (p : Purger) (st : S) (m : Sessions)
      → Managed storage laws cfg now p st m
      → Agrees storage laws cfg now p st m
  unfolding create_session new_session destroy_session
  Managed-Agrees _ _ _ _ (starts now st good) = record {
    good = good;
    same = λ later h k. refl;
    gone = λ later h. tt;
  }
  Managed-Agrees _ _ _ _ (passes now later p st m managed h) =
      let a = Managed-Agrees now p st m managed in
      record {
        good = a.good;
        same = λ t g. a.same t (omega (arith, h, g));
        gone = λ t g. a.gone t (omega (arith, h, g));
      }
  Managed-Agrees _ _ _ _ (purges now p q st st' m x managed at stepped) =
      subst (λ r. Agrees storage laws cfg now r.0 r.1 m) stepped
        (purge_step-Agrees storage laws cfg now x p st m at (Managed-Agrees now p st m managed))
  Managed-Agrees _ _ _ _ (creates now p st st' m id user_id managed trimmed new made) =
      subst
        (λ x. Agrees storage laws cfg now p x (put id (some (new_session cfg now id user_id)) m))
        (ap (λ r. r.1) made)
        (created-Agrees storage laws cfg now p st m (new_session cfg now id user_id) trimmed new
          (value_or_error-none _ id (ap (λ r. r.0) made)) (Managed-Agrees now p st m managed))
  Managed-Agrees _ _ _ _ (destroys now p st st' m id managed deleted) =
      subst (λ x. Agrees storage laws cfg now p x (put id none m)) (ap (λ r. r.1) deleted)
        (destroyed-Agrees storage laws cfg now p st m id (ap (λ r. r.0) deleted)
          (Managed-Agrees now p st m managed))
  Managed-Agrees _ _ _ _ (destroy_fails now p st st' m id e managed failed) =
      subst (λ x. Agrees storage laws cfg now p x m) (ap (λ r. r.1) failed)
        (kept-Agrees storage laws cfg now p st m id e (ap (λ r. r.0) failed)
          (Managed-Agrees now p st m managed))

  -- Over a lawful storage, however requests that create and destroy sessions and the calls of the
  -- storage by the purge come between each other, if no id is created that the purge is about to
  -- delete and every CreateSession has succeeded, then at every later time the middleware lets a
  -- request in for a user exactly when its cookie is the id of a session of that user that has been
  -- there or been created, has not been destroyed since, and has not expired.
  pub auth_middleware-Managed :
      (now : ℕ) (p : Purger) (st : S) (m : Sessions) (later : ℕ) (id : String) (u : ℤ)
      → Managed storage laws cfg now p st m
      → now ≤ later
      → (auth_middleware storage later (some id) st ≡ passed u) ↔ (live later (m id) ≡ some u)
  auth_middleware-Managed now p st m later id u managed h =
      let same = (Managed-Agrees now p st m managed).same later h id in
      let gate = auth_middleware-user_at storage laws later id st u in
      ((λ got. sym same ∙ gate.0 got), (λ alive. gate.1 (same ∙ alive)))
