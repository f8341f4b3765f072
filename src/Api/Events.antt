-- ===== src/Api/Events.antt =====
-- parseTopics of backend/internal/handler/eventshandler/handler.go; Stream has the rest of the file.
pub mod Stream
mod Tests
use Prim.Native.String.{◌++◌}
use pihole_cluster_admin.Prelude.{
  String, Bool, true, false, List, [], ◌∷◌, ◌==◌, string_eq, if◌then◌else◌,
}
use pihole_cluster_admin.Text.{trim_space, split}
use pihole_cluster_admin.Fields.{is_blank}

-- The loop of `parseTopics`
unfoldable pub topics_of : List String → List String
unfolding trim_space
topics_of [] = []
topics_of (p ∷ parts) =
    let rest = topics_of parts in if is_blank p then rest else trim_space p ∷ rest

unfoldable pub parse_topics : String → List String
unfolding topics_of trim_space split
parse_topics val =
    if is_blank val then "health_summary" ∷ "node_health" ∷ [] else topics_of (split "," val)
