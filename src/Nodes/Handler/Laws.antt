-- ===== src/Nodes/Handler/Laws.antt =====
-- Which requests reach the service: those that are valid, and no other.
use pihole_cluster_admin.Prelude.{
  some-ne-none, ℕ, ℤ, pos, ◌≤◌, ◌≡◌, ◌≢◌, ◌↔◌, ◌⊎◌, inl, inr, refl, String, Bool, true, false, ◌&&◌,
  Option, none, some, string_eq, eq_iff, arith, All, both_iff, last_iff,
}
use pihole_cluster_admin.Httpx.{json_error}
use pihole_cluster_admin.Httpx.Laws.{unless_failed_lem}
use pihole_cluster_admin.Fields.{
  is_blank, is_no_port, IsFilled, IsPort, is_blank_iff, is_no_port_iff, is_positive_iff,
}
use pihole_cluster_admin.Nodes.Store.{AddPiholeParams, UpdatePiholeParams}
use pihole_cluster_admin.Nodes.Handler.{
  PiholeService, is_no_scheme, is_given, is_missing, add_guards, update_guards, node_reply,
  handle_add, handle_update,
}

abbrev pub IsScheme : String → Type 0
IsScheme s = (s ≡ "http") ⊎ (s ≡ "https")

-- A field that is given satisfies the predicate.
abbrev pub WhenGiven : {A : Type 0} → (A → Type 0) → Option A → Type 0
WhenGiven P none = Unit
WhenGiven P (some a) = P a

is_no_scheme_iff : (s : String) → (is_no_scheme s ≡ false) ↔ IsScheme s
is_no_scheme_iff s = ground (arith, eq_iff s "http", eq_iff s "https")

is_given_iff :
    {A : Type 0} (test : A → Bool) (P : A → Type 0) (o : Option A)
    → ((a : A) → (test a ≡ false) ↔ P a)
    → (is_given test o ≡ false) ↔ WhenGiven P o
is_given_iff test P none h = ((λ e. tt), (λ e. refl))
is_given_iff test P (some a) h = h a

-- The fields that a new node needs
abbrev pub IsValidNode : AddPiholeParams → Type 0
IsValidNode body =
    IsScheme body.scheme
    × (IsFilled body.host × (IsPort body.port × (IsFilled body.name × IsFilled body.password)))

add_guards_iff :
    (body : AddPiholeParams) → All (λ g. g.0 ≡ false) (add_guards body) ↔ IsValidNode body
unfolding add_guards
add_guards_iff body = both_iff (is_no_scheme_iff body.scheme) (
    both_iff (is_blank_iff body.host) (
      both_iff (is_no_port_iff body.port)
        (both_iff (is_blank_iff body.name) (last_iff (is_blank_iff body.password)))))

either_missing :
    {A : Type 0} (b : Bool) (o : Option A) (P : Type 0)
    → (b ≡ false) ↔ P
    → ((b && is_missing o) ≡ false) ↔ (P ⊎ (o ≢ none))
either_missing true none P (to, from) =
    ((λ e. absurd cc), (λ h. elim h [ inl p ↦ from p | inr x ↦ absurd (x refl) ]))
either_missing true (some a) P h = ((λ e. inr some-ne-none), (λ x. refl))
either_missing false o P (to, from) = ((λ e. inl (to refl)), (λ x. refl))

missing_iff : {A : Type 0} (o : Option A) → (is_missing o ≡ false) ↔ (o ≢ none)
missing_iff none = ((λ e. absurd cc), (λ x. absurd (x refl)))
missing_iff (some a) = ((λ e. some-ne-none), (λ x. refl))

-- Some field is given.
abbrev pub HasField : UpdatePiholeParams → Type 0
HasField body =
    (((((body.scheme ≢ none) ⊎ (body.host ≢ none)) ⊎ (body.port ≢ none)) ⊎ (body.name ≢ none))
      ⊎ (body.description ≢ none))
    ⊎ (body.password ≢ none)

abbrev pub IsValidUpdate : ℤ → UpdatePiholeParams → Type 0
IsValidUpdate id body =
    ((n : ℕ) × (id ≡ pos n) × (1 ≤ n))
    × (HasField body
        × (WhenGiven IsScheme body.scheme
            × (WhenGiven IsFilled body.host
                × (WhenGiven IsPort body.port
                    × (WhenGiven IsFilled body.name × WhenGiven IsFilled body.password)))))

update_guards_iff :
    (id : ℤ) (body : UpdatePiholeParams)
    → All (λ g. g.0 ≡ false) (update_guards id body) ↔ IsValidUpdate id body
unfolding update_guards
update_guards_iff id body = both_iff (is_positive_iff id) (
    both_iff
      (either_missing _ body.password _ (
        either_missing _ body.description _ (
          either_missing _ body.name _ (
            either_missing _ body.port _
              (either_missing _ body.host _ (missing_iff body.scheme))))))
      (both_iff (is_given_iff is_no_scheme IsScheme body.scheme is_no_scheme_iff) (
        both_iff (is_given_iff is_blank IsFilled body.host is_blank_iff) (
          both_iff (is_given_iff is_no_port IsPort body.port is_no_port_iff) (
            both_iff (is_given_iff is_blank IsFilled body.name is_blank_iff)
              (last_iff (is_given_iff is_blank IsFilled body.password is_blank_iff)))))))

module _ {S : Type 0} (service : PiholeService S) where
  -- A decoded body of `add` reaches the service, whose answer is then the reply, exactly when its
  -- scheme is http or https, its port is from 1 to 65535, and its host, its name and its password
  -- are not blank. Every other one gets the status 400, and the service is not called.
  pub handle_add_lem :
      (body : AddPiholeParams) (s : S)
      → (IsValidNode body
          × (handle_add service (some body) s ≡ node_reply service 201 (service.add body s)))
        ⊎ (¬ (IsValidNode body)
            × ((m : String) × (handle_add service (some body) s ≡ (json_error m 400, s))))
  unfolding handle_add
  handle_add_lem body s =
      unless_failed_lem (add_guards body) _ s (IsValidNode body) (add_guards_iff body)

  -- A decoded body of `update` with a number as the id reaches the service, whose answer is then
  -- the reply, exactly when the id is positive, a field is given, and the given fields are valid
  -- as in `add`. Every other one gets the status 400, and the service is not called.
  pub handle_update_lem :
      (id : ℤ) (body : UpdatePiholeParams) (s : S)
      → (IsValidUpdate id body
          × (handle_update service (some body) (some id) s
              ≡ node_reply service 200 (service.update id body s)))
        ⊎ (¬ (IsValidUpdate id body)
            × ((m : String) × (handle_update service (some body) (some id) s
                  ≡ (json_error m 400, s))))
  unfolding handle_update
  handle_update_lem id body s =
      unless_failed_lem (update_guards id body) _ s (IsValidUpdate id body)
        (update_guards_iff id body)
