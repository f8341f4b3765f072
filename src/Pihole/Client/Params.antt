-- ===== src/Pihole/Client/Params.antt =====
-- The parameters of a search of the query log, as Pi-hole's API names them.
use mathlib.Core.Option
use mathlib.Core.List.{◌++◌ as append}
use pihole_cluster_admin.Prelude.{String, Option, none, some, List, [], ◌∷◌, ◌≡◌, refl, ap}
use pihole_cluster_admin.Pihole.Types.{FetchQueryLogClientRequest}
use pihole_cluster_admin.Pihole.Client.{Param, number, word, flag}
use pihole_cluster_admin.Pihole.Client.Calls.{param, build_query_params}

-- The parameters that have a value, in their order.
unfoldable pub present : List (String × Option Param) → List (String × Param)
present [] = []
present ((key, none) ∷ rest) = present rest
present ((key, some value) ∷ rest) = (key, value) ∷ present rest

-- The parameters of Pi-hole's API for a search of the query log, by name. Each is left out if the
-- request does not set it.
abbrev pub log_params : FetchQueryLogClientRequest → List (String × Option Param)
log_params req =
    ("cursor", Option.map number req.cursor)
    ∷ ("length", Option.map number req.length)
    ∷ ("start", Option.map number req.start)
    ∷ ("from", Option.map number req.filters.from)
    ∷ ("until", Option.map number req.filters.until)
    ∷ ("domain", Option.map word req.filters.domain)
    ∷ ("client_ip", Option.map word req.filters.client_ip)
    ∷ ("client_name", Option.map word req.filters.client_name)
    ∷ ("upstream", Option.map word req.filters.upstream)
    ∷ ("type", Option.map word req.filters.type_name)
    ∷ ("status", Option.map word req.filters.status)
    ∷ ("reply", Option.map word req.filters.reply)
    ∷ ("dnssec", Option.map word req.filters.dnssec)
    ∷ ("disk", Option.map flag req.filters.disk)
    ∷ []

with_param :
    {A : Type 0} (key : String) (write : A → Param) (o : Option A) {params : List (String × Param)}
    (rest : List (String × Option Param))
    → params ≡ present rest
    → append (param key write o) params ≡ present ((key, Option.map write o) ∷ rest)
unfolding present
with_param key write none rest same = same
with_param key write (some a) rest same = ap (λ ps. (key, write a) ∷ ps) same

last_param :
    {A : Type 0} (key : String) (write : A → Param) (o : Option A)
    → param key write o ≡ present ((key, Option.map write o) ∷ [])
unfolding present
last_param key write none = refl
last_param key write (some a) = refl

-- The query string of a search has the parameters that its request sets, under their names.
pub build_query_params-present :
    (req : FetchQueryLogClientRequest) → build_query_params req ≡ present (log_params req)
unfolding build_query_params
build_query_params-present req = with_param _ _ _ _ (
    with_param _ _ _ _ (
      with_param _ _ _ _ (
        with_param _ _ _ _ (
          with_param _ _ _ _ (
            with_param _ _ _ _ (
              with_param _ _ _ _ (
                with_param _ _ _ _ (
                  with_param _ _ _ _ (
                    with_param _ _ _ _ (
                      with_param _ _ _ _
                        (with_param _ _ _ _ (with_param _ _ _ _ (last_param _ _ _)))))))))))))
