-- ===== src/App/Routes/Apart.antt =====
-- No route of the API hides another.
use pihole_cluster_admin.Prelude.{
  ◌≡◌, refl, sym, ◌∙◌, ap, subst, inl, inr, String, Bool, true, false, ◌&&◌, not, some, List, [],
  ◌∷◌, ◌==◌, string_eq, eq_iff, Bool-cases, arith,
}
use pihole_cluster_admin.App.Routes.{Segment, literal, param, Route, api_routes, Router}
use pihole_cluster_admin.App.Routes.Registered.{
  same_method, same_method_refl, Listed, matches, RouterLaws, every, every-Listed,
}

-- Two patterns that some path may match both
abbrev overlaps : List Segment → List Segment → Bool
overlaps [] [] = true
overlaps [] (t ∷ q) = false
overlaps (s ∷ p) [] = false
overlaps (literal a ∷ p) (literal b ∷ q) = a == b && overlaps p q
overlaps (literal a ∷ p) (param b ∷ q) = overlaps p q
overlaps (param a ∷ p) (t ∷ q) = overlaps p q

overlaps-matches :
    (p q : List Segment) (path : List String)
    → matches p path ≡ true
    → matches q path ≡ true
    → overlaps p q ≡ true
overlaps-matches [] [] path h k = refl
overlaps-matches [] (t ∷ q) [] h k = cc
overlaps-matches [] (t ∷ q) (part ∷ path) h k = cc
overlaps-matches (s ∷ p) [] [] h k = cc
overlaps-matches (s ∷ p) [] (part ∷ path) h k = cc
overlaps-matches (literal a ∷ p) (t ∷ q) [] h k = cc
overlaps-matches (param a ∷ p) (t ∷ q) [] h k = cc
overlaps-matches (literal a ∷ p) (literal b ∷ q) (part ∷ path) h k =
    ground (arith, eq_iff a part, eq_iff b part, eq_iff a b, overlaps-matches p q path)
overlaps-matches (literal a ∷ p) (param b ∷ q) (part ∷ path) h k =
    overlaps-matches p q path (ground (arith, Bool-cases (a == part))) k
overlaps-matches (param a ∷ p) (literal b ∷ q) (part ∷ path) h k =
    overlaps-matches p q path h (ground (arith, Bool-cases (b == part)))
overlaps-matches (param a ∷ p) (param b ∷ q) (part ∷ path) h k = overlaps-matches p q path h k

abbrev clashes : Route → Route → Bool
clashes r s = same_method r.method s.method && overlaps r.pattern s.pattern

abbrev is_apart : Route → List Route → Bool
is_apart r rs = every (λ s. not (clashes r s)) rs

abbrev are_apart : List Route → Bool
are_apart [] = true
are_apart (r ∷ rs) = is_apart r rs && are_apart rs

api_routes-apart : are_apart api_routes ≡ true
unfolding api_routes
api_routes-apart = refl

-- Routes of one method that match one path
abbrev MatchBoth : Route → Route → Type 0
MatchBoth r s =
    (r.method ≡ s.method)
    × ((path : List String) × (matches r.pattern path ≡ true) × (matches s.pattern path ≡ true))

MatchBoth-clashes : (r s : Route) → MatchBoth r s → clashes r s ≡ true
MatchBoth-clashes r s (same, (path, h, k)) =
    let one : same_method r.method s.method ≡ true =
      subst (λ m. same_method r.method m ≡ true) same (same_method_refl r.method) in
    rw one (overlaps-matches r.pattern s.pattern path h k)

apart_first :
    (r s : Route) (rs : List Route) → is_apart r rs ≡ true → Listed s rs → MatchBoth r s → ⊥
apart_first r s rs apart listed both =
    let free = every-Listed (λ t. not (clashes r t)) rs s apart listed in
    let clash = MatchBoth-clashes r s both in cc

MatchBoth-sym : (r s : Route) → MatchBoth r s → MatchBoth s r
MatchBoth-sym r s (same, (path, h, k)) = (sym same, (path, k, h))

only_one :
    (rs : List Route) (r s : Route)
    → are_apart rs ≡ true
    → Listed r rs
    → Listed s rs
    → MatchBoth r s
    → r ≡ s
only_one [] r s apart at_r at_s both = absurd at_r
only_one (t ∷ rs) r s apart (inl e) (inl f) both = e ∙ sym f
only_one (t ∷ rs) r s apart (inl e) (inr at_s) both = absurd (
    apart_first t s rs (ground (arith, Bool-cases (is_apart t rs))) at_s
      (subst (λ x. MatchBoth x s) e both))
only_one (t ∷ rs) r s apart (inr at_r) (inl f) both = absurd (
    apart_first t r rs (ground (arith, Bool-cases (is_apart t rs))) at_r
      (MatchBoth-sym r t (subst (λ x. MatchBoth r x) f both)))
only_one (t ∷ rs) r s apart (inr at_r) (inr at_s) both =
    only_one rs r s (ground (arith, Bool-cases (is_apart t rs))) at_r at_s both

-- If chi finds a registered route that matches whenever there is one, then it finds, for each route
-- of the API and each path that matches its pattern, that very route: no route hides another.
pub find-api_routes :
    (router : Router) (r : Route) (path : List String)
    → RouterLaws router
    → Listed r api_routes
    → matches r.pattern path ≡ true
    → router.find r.method path api_routes ≡ some r
find-api_routes router r path laws listed matched =
    let (s, found) = laws.complete path api_routes r listed matched in
    let (at_s, s_matches) = laws.found r.method path api_routes s found in
    found
    ∙ ap some (
        only_one api_routes s r api_routes-apart at_s listed
          (s_matches.0, (path, s_matches.1, matched)))
