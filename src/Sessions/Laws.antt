-- ===== src/Sessions/Laws.antt =====
-- What a storage of sessions promises, and what the session manager does over any such storage.
use pihole_cluster_admin.Prelude.{
  ℕ, ℤ, ◌≤◌, ◌≡◌, refl, sym, ◌∙◌, ap, ◌↔◌, String, Bool, true, false, Option, none, some, List, [],
  ◌∷◌, ◌==◌, string_eq, if◌then◌else◌, All, arith, beq_refl, subst, ◌≢◌, eq_iff, Bool-cases,
  Option-cases, inl, inr,
}
use pihole_cluster_admin.Text.{trim_space}
use pihole_cluster_admin.Httpx.{GoError, Result, ok, err}
use pihole_cluster_admin.Durations.{after_hours}
use pihole_cluster_admin.Sessions.{
  Session, Storage, SessionConfig, is_expired, live, value_or_error, new_session, create_session,
  destroy_session, purge_each, purge_expired, passed, gate_of, auth_middleware,
}

-- A storage, seen as a partial function from ids to sessions. `IsGood` holds of the states that
-- the storage reaches.
pub record StorageLaws {S : Type 0} (storage : Storage S) : Type 1 where
  pub look : S → String → Option Session
  pub IsGood : S → Type 0
  pub create_good : (s : Session) (st : S) → IsGood st → IsGood (storage.create s st).1
  pub delete_good : (id : String) (st : S) → IsGood st → IsGood (storage.delete id st).1
  pub look_create :
      (s : Session) (st : S)
      → trim_space s.id ≡ s.id
      → (storage.create s st).0 ≡ none
      → (k : String) → look (storage.create s st).1 k ≡ (if s.id == k then some s else look st k)
  pub look_delete :
      (id : String) (st : S)
      → (storage.delete id st).0 ≡ none
      → (k : String) → look (storage.delete id st).1 k ≡ (if id == k then none else look st k)
  pub look_delete_failed :
      (id : String) (st : S) (e : GoError)
      → (storage.delete id st).0 ≡ some e
      → (k : String) → look (storage.delete id st).1 k ≡ look st k
  pub listed :
      (st : S) (ss : List Session)
      → IsGood st
      → storage.get_all st ≡ ok ss
      → All (λ s. look st s.id ≡ some s) ss
  pub found :
      (now : ℕ) (id : String) (st : S) (u : ℤ)
      → (storage.get_user_id now id st ≡ ok (some u)) ↔ (live now (look st id) ≡ some u)

pub gate_of-passed_iff :
    (r : Result (Option ℤ)) (u : ℤ) → (gate_of r ≡ passed u) ↔ (r ≡ ok (some u))
unfolding gate_of
gate_of-passed_iff (err e) u = ((λ h. cc), (λ h. cc))
gate_of-passed_iff (ok none) u = ((λ h. cc), (λ h. cc))
gate_of-passed_iff (ok (some v)) u = ((λ h. cc), (λ h. cc))

value_or_error-ok : {A : Type 0} (e : Option GoError) (a : A) → value_or_error a e ≡ ok a → e ≡ none
value_or_error-ok none a h = refl
value_or_error-ok (some e) a h = cc

pub none-ne-some : {A : Type 0} {a : A} → none ≢ some a
none-ne-some h = cc

if_refl : {A : Type 0} (k : String) (a b : A) → (if k == k then a else b) ≡ a
if_refl k a b = rw (beq_refl k) refl

live-none : (now : ℕ) → live now none ≡ none
unfolding live
live-none now = refl

live-if :
    (id k : String) (look : String → Option Session) (now : ℕ)
    → live now (look id) ≡ none
    → live now (if id == k then none else look k) ≡ live now (look k)
live-if id k look now gone = elim (Bool-cases (id == k)) [
  | inl e ↦
      rw e (live-none now ∙ sym (subst (λ j. live now (look j) ≡ none) ((eq_iff id k).0 e) gone))
  | inr e ↦ rw e refl
]

live-expired :
    (now later : ℕ) (s : Session)
    → now ≤ later
    → is_expired now s ≡ true
    → live later (some s) ≡ none
unfolding live
live-expired now later s h e = ground arith

pub live-some_iff :
    (now : ℕ) (s : Session) (u : ℤ)
    → (live now (some s) ≡ some u) ↔ ((u ≡ s.user_id) × (now ≤ s.expires_at))
unfolding live
live-some_iff now s u = ground arith

pub stored_session :
    (now : ℕ) (u : ℤ) (o : Option Session)
    → live now o ≡ some u
    → (s : Session) × (o ≡ some s) × (u ≡ s.user_id) × (now ≤ s.expires_at)
stored_session now u none h = absurd (none-ne-some (sym (live-none now) ∙ h))
stored_session now u (some s) h =
    let (own, fresh) = (live-some_iff now s u).0 h in (s, refl, own, fresh)

module _ {S : Type 0} (storage : Storage S) (laws : StorageLaws storage) where
  -- What a request with a session id would be let in as
  abbrev pub user_at : ℕ → S → String → Option ℤ
  user_at now st id = live now (laws.look st id)

  -- The middleware lets a request in as the user of its session.
  pub auth_middleware-user_at :
      (now : ℕ) (id : String) (st : S) (u : ℤ)
      → (auth_middleware storage now (some id) st ≡ passed u) ↔ (user_at now st id ≡ some u)
  unfolding auth_middleware
  auth_middleware-user_at now id st u =
      let gate = gate_of-passed_iff (storage.get_user_id now id st) u in
      let lookup = laws.found now id st u in
      ((λ h. lookup.0 (gate.0 h)), (λ h. gate.1 (lookup.1 h)))

  -- Over a lawful storage, the middleware lets a request in for a user exactly when the value of
  -- its cookie is the id of a stored session of the user that has not expired.
  pub auth_middleware-passed_iff :
      (now : ℕ) (id : String) (st : S) (u : ℤ)
      → (auth_middleware storage now (some id) st ≡ passed u)
        ↔ ((s : Session) × (laws.look st id ≡ some s) × (u ≡ s.user_id) × (now ≤ s.expires_at))
  auth_middleware-passed_iff now id st u =
      let gate = auth_middleware-user_at now id st u in
      (
        (λ h. stored_session now u (laws.look st id) (gate.0 h)),
        (λ found.
            let (s, here, own, fresh) = found in
            gate.1 (ap (live now) here ∙ (live-some_iff now s u).1 (own, fresh))),
      )

  -- Deleting the session of an id that lets nobody in changes nothing.
  pub delete-user_at :
      (now : ℕ) (id : String) (st : S)
      → user_at now st id ≡ none
      → (k : String) → user_at now (storage.delete id st).1 k ≡ user_at now st k
  delete-user_at now id st gone k = elim (Option-cases (storage.delete id st).0) [
    | inl e ↦ ap (live now) (laws.look_delete id st e k) ∙ live-if id k (laws.look st) now gone
    | inr (x, e) ↦ ap (live now) (laws.look_delete_failed id st x e k)
  ]

  pub purge_one :
      (expired : Bool) (now : ℕ) (id : String) (st : S)
      → ((expired ≡ true) → user_at now st id ≡ none)
      → (k : String)
      → user_at now (if expired then (storage.delete id st).1 else st) k ≡ user_at now st k
  purge_one true now id st gone k = delete-user_at now id st (gone refl) k
  purge_one false now id st gone k = refl

  -- The sessions of a list that have expired let nobody in.
  abbrev pub AreGone : ℕ → ℕ → S → List Session → Type 0
  AreGone now later st = All (λ s. (is_expired now s ≡ true) → user_at later st s.id ≡ none)

  pub AreGone-same :
      (now later : ℕ) (st st' : S) (ss : List Session)
      → ((k : String) → user_at later st' k ≡ user_at later st k)
      → AreGone now later st ss
      → AreGone now later st' ss
  AreGone-same now later st st' [] same gone = tt
  AreGone-same now later st st' (s ∷ ss) same (here, rest) =
      ((λ e. same s.id ∙ here e), AreGone-same now later st st' ss same rest)

  purge_each-user_at :
      (now later : ℕ) (ss : List Session) (st : S)
      → AreGone now later st ss
      → (k : String) → user_at later (purge_each storage now ss st) k ≡ user_at later st k
  unfolding purge_each
  purge_each-user_at now later [] st gone k = refl
  purge_each-user_at now later (s ∷ ss) st (here, rest) k =
      let same = purge_one (is_expired now s) later s.id st here in
      purge_each-user_at now later ss _ (AreGone-same now later st _ ss same rest) k ∙ same k

  pub listed-AreGone :
      (now later : ℕ) (st : S) (ss : List Session)
      → now ≤ later
      → All (λ s. laws.look st s.id ≡ some s) ss
      → AreGone now later st ss
  listed-AreGone now later st [] h all = tt
  listed-AreGone now later st (s ∷ ss) h (here, rest) = (
    (λ e. ap (live later) here ∙ live-expired now later s h e),
    listed-AreGone now later st ss h rest,
  )

  -- Over a lawful storage in a good state, PurgeExpired never ends a session that has not expired:
  -- at that time and later, every id lets in the same user as before.
  pub purge_expired_stable :
      (now later : ℕ) (st : S) (k : String)
      → laws.IsGood st
      → now ≤ later
      → user_at later (purge_expired storage now st) k ≡ user_at later st k
  unfolding purge_expired
  purge_expired_stable now later st k good h = purge_with (storage.get_all st) refl
    where
      purge_with :
          (r : Result (List Session))
          → storage.get_all st ≡ r
          → user_at later (elim r [ ok ss ↦ purge_each storage now ss st | err e ↦ st ]) k
            ≡ user_at later st k
      purge_with (ok ss) e =
          purge_each-user_at now later ss st
            (listed-AreGone now later st ss h (laws.listed st ss good e)) k
      purge_with (err x) e = refl

  -- Over a lawful storage, after CreateSession has returned an id that has no spaces around it, a
  -- request with that id is let in as the user it was created for, and as nobody else, until its
  -- hours, as a duration of int64 nanoseconds, have passed, and then no longer.
  pub auth_middleware-create_session :
      (cfg : SessionConfig) (now later : ℕ) (id : String) (user_id u : ℤ) (st : S)
      → trim_space id ≡ id
      → (create_session storage cfg now id user_id st).0 ≡ ok id
      → (auth_middleware storage later (some id) (create_session storage cfg now id user_id st).1
          ≡ passed u)
        ↔ ((u ≡ user_id) × (later ≤ after_hours now cfg.ttl_hours))
  unfolding create_session new_session
  auth_middleware-create_session cfg now later id user_id u st trimmed made =
      let s = new_session cfg now id user_id in
      let st' = (storage.create s st).1 in
      let seen : laws.look st' id ≡ some s =
        laws.look_create s st trimmed (value_or_error-ok _ id made) id
        ∙ if_refl id (some s) (laws.look st id) in
      let gate = auth_middleware-user_at later id st' u in
      let alive = live-some_iff later s u in
      (
        (λ h. alive.0 (sym (ap (live later) seen) ∙ gate.0 h)),
        (λ h. gate.1 (ap (live later) seen ∙ alive.1 h)),
      )

  -- Over a lawful storage, after DestroySession has succeeded, the id lets nobody in.
  pub destroy_session_refuses :
      (id : String) (st : S) (later : ℕ) (u : ℤ)
      → (destroy_session storage id st).0 ≡ none
      → auth_middleware storage later (some id) (destroy_session storage id st).1 ≢ passed u
  unfolding destroy_session
  destroy_session_refuses id st later u done in_ =
      let st' = (storage.delete id st).1 in
      let seen : laws.look st' id ≡ none =
        laws.look_delete id st done id ∙ if_refl id none (laws.look st id) in
      none-ne-some (
        sym (ap (live later) seen ∙ live-none later)
        ∙ (auth_middleware-user_at later id st' u).0 in_)
