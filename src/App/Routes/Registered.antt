-- ===== src/App/Routes/Registered.antt =====
-- Lists of routes, and what chi does with them.
use pihole_cluster_admin.Prelude.{
  ◌≡◌, refl, ◌⊎◌, inl, inr, String, Bool, true, false, ◌&&◌, some, List, [], ◌∷◌, ◌==◌, string_eq,
  Bool-cases, arith,
}
use pihole_cluster_admin.App.Routes.{
  Method, get, post, patch, delete, Segment, literal, param, Route, Router,
}

abbrev pub Listed : Route → List Route → Type 0
Listed r [] = ⊥
Listed r (s ∷ rs) = (r ≡ s) ⊎ Listed r rs

-- A parameter takes any part of a path.
abbrev pub matches : List Segment → List String → Bool
matches [] [] = true
matches [] (part ∷ path) = false
matches (segment ∷ pattern) [] = false
matches (literal text ∷ pattern) (part ∷ path) = text == part && matches pattern path
matches (param name ∷ pattern) (part ∷ path) = matches pattern path

-- What chi documents: it finds a route of the method whose pattern matches the path, if there is one.
pub record RouterLaws (router : Router) : Type 0 where
  pub found :
      (m : Method) (path : List String) (rs : List Route) (r : Route)
      → router.find m path rs ≡ some r
      → Listed r rs × ((r.method ≡ m) × (matches r.pattern path ≡ true))
  pub complete :
      (path : List String) (rs : List Route) (r : Route)
      → Listed r rs
      → matches r.pattern path ≡ true
      → (s : Route) × (router.find r.method path rs ≡ some s)

abbrev pub every : (Route → Bool) → List Route → Bool
every test [] = true
every test (r ∷ rs) = test r && every test rs

pub every-Listed :
    (test : Route → Bool) (rs : List Route) (r : Route)
    → every test rs ≡ true
    → Listed r rs
    → test r ≡ true
every-Listed test [] r all listed = absurd listed
every-Listed test (s ∷ rs) r all (inl e) = rw e (ground arith)
every-Listed test (s ∷ rs) r all (inr later) =
    every-Listed test rs r (ground (arith, Bool-cases (test s))) later

abbrev pub same_method : Method → Method → Bool
same_method get get = true
same_method post post = true
same_method patch patch = true
same_method delete delete = true
same_method _ _ = false

pub same_method_refl : (m : Method) → same_method m m ≡ true
same_method_refl get = refl
same_method_refl post = refl
same_method_refl patch = refl
same_method_refl delete = refl
