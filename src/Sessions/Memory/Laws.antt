-- ===== src/Sessions/Memory/Laws.antt =====
-- The map of sessions keeps the promises of a storage.
use pihole_cluster_admin.Prelude.{
  ℤ, ◌≡◌, refl, ap, ◌↔◌, String, Option, none, some, List, [], ◌∷◌, string_eq, subst, All, arith,
  eq_iff, Map, lookup, insert, delete, lookup-insert, lookup-delete,
}
use pihole_cluster_admin.Httpx.{Result, ok}
use pihole_cluster_admin.Httpx.Laws.{ok-injective}
use pihole_cluster_admin.Sessions.{Session, live}
use pihole_cluster_admin.Sessions.Laws.{StorageLaws}
use pihole_cluster_admin.Sessions.Memory.{
  values, memory_create, memory_delete, memory_get_user_id, memory_session_store,
}

-- Every session stands under its own id, and an id has one entry.
abbrev pub IsKeyed : Map String Session → Type 0
IsKeyed [] = Unit
IsKeyed ((k, s) ∷ m) = (k ≡ s.id) × (lookup k m ≡ none) × IsKeyed m

pub insert-IsKeyed : (s : Session) (m : Map String Session) → IsKeyed m → IsKeyed (insert s.id s m)
unfolding insert lookup
insert-IsKeyed s [] h = (refl, refl, tt)
insert-IsKeyed s ((k, r) ∷ m) (same, once, rest) =
    ground (arith, eq_iff k s.id, eq_iff s.id k, insert-IsKeyed s m rest, lookup-insert s.id k s m)

pub delete-IsKeyed : (id : String) (m : Map String Session) → IsKeyed m → IsKeyed (delete id m)
unfolding delete
delete-IsKeyed id [] h = tt
delete-IsKeyed id ((k, r) ∷ m) (same, once, rest) =
    ground (arith, eq_iff k id, delete-IsKeyed id m rest, lookup-delete id k m)

listed_below :
    (k : String) (r : Session) (m : Map String Session) (ss : List Session)
    → lookup k m ≡ none
    → All (λ s. lookup s.id m ≡ some s) ss
    → All (λ s. lookup s.id ((k, r) ∷ m) ≡ some s) ss
unfolding lookup
listed_below k r m [] once all = tt
listed_below k r m (s ∷ ss) once (here, rest) =
    (ground (arith, eq_iff k s.id), listed_below k r m ss once rest)

pub values-listed :
    (m : Map String Session) → IsKeyed m → All (λ s. lookup s.id m ≡ some s) (values m)
unfolding values lookup
values-listed [] h = tt
values-listed ((k, s) ∷ m) (same, once, rest) =
    (ground (arith, eq_iff k s.id), listed_below k s m (values m) once (values-listed m rest))

pub ok-some_iff : (o : Option ℤ) (u : ℤ) → (Result.ok o ≡ ok (some u)) ↔ (o ≡ some u)
ok-some_iff o u = ((λ h. ok-injective _ _ h), (λ h. ap ok h))

-- The store in memory satisfies the interface in every state whose sessions stand under their ids.
unfoldable pub memory_session_store-laws : StorageLaws memory_session_store
unfolding memory_session_store memory_create memory_delete memory_get_user_id
memory_session_store-laws = record {
  look = λ m k. lookup k m;
  IsGood = IsKeyed;
  create_good = insert-IsKeyed;
  delete_good = delete-IsKeyed;
  look_create = λ s m trimmed done k. lookup-insert s.id k s m;
  look_delete = λ id m done k. lookup-delete id k m;
  look_delete_failed = λ id m e failed k. cc;
  listed = λ m ss good e.
      subst (All (λ s. lookup s.id m ≡ some s)) (ok-injective _ _ e) (values-listed m good);
  found = λ now id m u. ok-some_iff (live now (lookup id m)) u;
}
