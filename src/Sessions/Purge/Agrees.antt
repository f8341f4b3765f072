-- ===== src/Sessions/Purge/Agrees.antt =====
-- The storage agrees with the sessions that the browsers know, through every step of the purge and of
-- the requests.
use pihole_cluster_admin.Prelude.{
  ℕ, ◌≤◌, ◌≡◌, ◌≢◌, refl, sym, ◌∙◌, ap, subst, String, Bool, true, false, Option, none, some, List,
  [], ◌∷◌, ◌==◌, string_eq, if◌then◌else◌, All, eq_iff, Bool-cases, inl, inr,
}
use pihole_cluster_admin.Text.{trim_space}
use pihole_cluster_admin.Httpx.{GoError, Result, ok, err}
use pihole_cluster_admin.Sessions.{
  Session, Storage, SessionConfig, is_expired, live, value_or_error,
}
use pihole_cluster_admin.Sessions.Laws.{
  StorageLaws, user_at, AreGone, AreGone-same, listed-AreGone, purge_one,
}
use pihole_cluster_admin.Sessions.Purge.{
  Purger, selecting, ended, purging, PurgeStep, ticked, next_session, done, listed, purge_step,
}
use pihole_cluster_admin.Sessions.Purge.Managed.{Sessions, put, IsNew, IsAt}

live-if_same :
    (b : Bool) (later : ℕ) (v x y : Option Session)
    → live later x ≡ live later y
    → live later (if b then v else x) ≡ live later (if b then v else y)
live-if_same true later v x y h = refl
live-if_same false later v x y h = h

live-if_none :
    (b : Bool) (later : ℕ) (x : Option Session)
    → live later x ≡ none
    → live later (if b then none else x) ≡ none
unfolding live
live-if_none true later x h = refl
live-if_none false later x h = h

if_ne : (id k : String) (v x : Option Session) → k ≢ id → (if id == k then v else x) ≡ x
if_ne id k v x ne = elim (Bool-cases (id == k)) [
  | inl e ↦ absurd (ne (sym ((eq_iff id k).0 e)))
  | inr e ↦ rw e refl
]

pub value_or_error-none :
    {A : Type 0} (e : Option GoError) (a : A) → value_or_error a e ≡ ok a → e ≡ none
value_or_error-none none a h = refl
value_or_error-none (some e) a h = cc

module _ {S : Type 0} (storage : Storage S) (laws : StorageLaws storage) (cfg : SessionConfig) where
  -- What the purge is about to delete lets nobody in.
  abbrev pub PendingAreGone : ℕ → S → Purger → Type 0
  PendingAreGone later st (purging t ss) = AreGone storage laws t later st ss
  PendingAreGone later st _ = Unit

  pub record Agrees (now : ℕ) (p : Purger) (st : S) (m : Sessions) : Type 0 where
    pub good : laws.IsGood st
    pub same :
        (later : ℕ)
        → now ≤ later
        → (k : String) → user_at storage laws later st k ≡ live later (m k)
    pub gone : (later : ℕ) → now ≤ later → PendingAreGone later st p

  delete_good :
      (expired : Bool) (id : String) (st : S)
      → laws.IsGood st
      → laws.IsGood (if expired then (storage.delete id st).1 else st)
  delete_good true id st good = laws.delete_good id st good
  delete_good false id st good = good

  -- A change that wakes none of the sessions of a list
  AreGone-from :
      (t later : ℕ) (st st' : S) (ss : List Session)
      → All
          (λ s.
            user_at storage laws later st s.id ≡ none → user_at storage laws later st' s.id ≡ none)
          ss
      → AreGone storage laws t later st ss
      → AreGone storage laws t later st' ss
  AreGone-from t later st st' [] keeps gone = tt
  AreGone-from t later st st' (s ∷ ss) (keep, keeps) (here, rest) =
      ((λ e. keep (here e)), AreGone-from t later st st' ss keeps rest)

  All-each : (Q : Session → Type 0) (ss : List Session) → ((s : Session) → Q s) → All Q ss
  All-each Q [] each = tt
  All-each Q (s ∷ ss) each = (each s, All-each Q ss each)

  listed-Agrees :
      (now : ℕ) (st : S) (m : Sessions) (r : Result (List Session))
      → storage.get_all st ≡ r
      → Agrees now selecting st m
      → Agrees now (listed now r) st m
  listed-Agrees now st m (ok ss) e a = record {
    good = a.good;
    same = a.same;
    gone = λ later h. listed-AreGone storage laws now later st ss h (laws.listed st ss a.good e);
  }
  listed-Agrees now st m (err x) e a = a

  pub purge_step-Agrees :
      (now : ℕ) (x : PurgeStep) (p : Purger) (st : S) (m : Sessions)
      → IsAt now x
      → Agrees now p st m
      → Agrees now (purge_step storage x (p, st)).0 (purge_step storage x (p, st)).1 m
  unfolding purge_step
  purge_step-Agrees now (ticked t) selecting st m at a =
      subst (λ u. Agrees now (listed u (storage.get_all st)) st m) (sym at)
        (listed-Agrees now st m (storage.get_all st) refl a)
  purge_step-Agrees now done selecting st m at a = record {
    good = a.good;
    same = a.same;
    gone = λ later h. tt;
  }
  purge_step-Agrees now next_session (purging t []) st m at a = record {
    good = a.good;
    same = a.same;
    gone = λ later h. tt;
  }
  purge_step-Agrees now next_session (purging t (s ∷ ss)) st m at a =
      let kept = λ (later : ℕ) (h : now ≤ later).
        purge_one storage laws (is_expired t s) later s.id st (a.gone later h).0 in
      record {
        good = delete_good (is_expired t s) s.id st a.good;
        same = λ later h k. kept later h k ∙ a.same later h k;
        gone =
            λ later h. AreGone-same storage laws t later st _ ss (kept later h) (a.gone later h).1;
      }
  purge_step-Agrees now next_session selecting st m at a = a
  purge_step-Agrees now next_session ended st m at a = a
  purge_step-Agrees now (ticked t) (purging u ss) st m at a = a
  purge_step-Agrees now (ticked t) ended st m at a = a
  purge_step-Agrees now done (purging u ss) st m at a = a
  purge_step-Agrees now done ended st m at a = a

  new-AreGone :
      (later : ℕ) (st st' : S) (id : String) (p : Purger)
      → ((k : String) → k ≢ id → user_at storage laws later st' k ≡ user_at storage laws later st k)
      → IsNew id p
      → PendingAreGone later st p
      → PendingAreGone later st' p
  new-AreGone later st st' id selecting same new gone = tt
  new-AreGone later st st' id ended same new gone = tt
  new-AreGone later st st' id (purging t []) same new gone = tt
  new-AreGone later st st' id (purging t (s ∷ ss)) same (here, new) (first, rest) =
      ((λ e. same s.id here ∙ first e), new-AreGone later st st' id (purging t ss) same new rest)

  still-AreGone :
      (later : ℕ) (st st' : S) (p : Purger)
      → ((k : String)
          → user_at storage laws later st k ≡ none
          → user_at storage laws later st' k ≡ none)
      → PendingAreGone later st p
      → PendingAreGone later st' p
  still-AreGone later st st' selecting keep gone = tt
  still-AreGone later st st' ended keep gone = tt
  still-AreGone later st st' (purging t ss) keep gone =
      AreGone-from t later st st' ss (All-each _ ss (λ s. keep s.id)) gone

  pub created-Agrees :
      (now : ℕ) (p : Purger) (st : S) (m : Sessions) (s : Session)
      → trim_space s.id ≡ s.id
      → IsNew s.id p
      → (storage.create s st).0 ≡ none
      → Agrees now p st m
      → Agrees now p (storage.create s st).1 (put s.id (some s) m)
  created-Agrees now p st m s trimmed new made a =
      let seen = laws.look_create s st trimmed made in
      record {
        good = laws.create_good s st a.good;
        same = λ later h k.
            ap (live later) (seen k)
            ∙ live-if_same (s.id == k) later (some s) (laws.look st k) (m k) (a.same later h k);
        gone = λ later h.
            new-AreGone later st _ s.id p
              (λ k ne. ap (live later) (seen k ∙ if_ne s.id k (some s) (laws.look st k) ne)) new
              (a.gone later h);
      }

  pub destroyed-Agrees :
      (now : ℕ) (p : Purger) (st : S) (m : Sessions) (id : String)
      → (storage.delete id st).0 ≡ none
      → Agrees now p st m
      → Agrees now p (storage.delete id st).1 (put id none m)
  destroyed-Agrees now p st m id deleted a =
      let seen = laws.look_delete id st deleted in
      record {
        good = laws.delete_good id st a.good;
        same = λ later h k.
            ap (live later) (seen k)
            ∙ live-if_same (id == k) later none (laws.look st k) (m k) (a.same later h k);
        gone = λ later h.
            still-AreGone later st _ p
              (λ k asleep. ap (live later) (seen k) ∙ live-if_none (id == k) later _ asleep)
              (a.gone later h);
      }

  pub kept-Agrees :
      (now : ℕ) (p : Purger) (st : S) (m : Sessions) (id : String) (e : GoError)
      → (storage.delete id st).0 ≡ some e
      → Agrees now p st m
      → Agrees now p (storage.delete id st).1 m
  kept-Agrees now p st m id e failed a =
      let seen = laws.look_delete_failed id st e failed in
      record {
        good = laws.delete_good id st a.good;
        same = λ later h k. ap (live later) (seen k) ∙ a.same later h k;
        gone = λ later h.
            still-AreGone later st _ p (λ k asleep. ap (live later) (seen k) ∙ asleep)
              (a.gone later h);
      }
