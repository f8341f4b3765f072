-- ===== src/Api/Events/Tests.antt =====
-- Lists of topics: the default, one with blanks, and one without a topic.
use pihole_cluster_admin.Prelude.{◌≡◌, refl, [], ◌∷◌}
use pihole_cluster_admin.Text.{trim_space, split}
use pihole_cluster_admin.Api.Events.{topics_of, parse_topics}

default_topics : parse_topics " " ≡ "health_summary" ∷ "node_health" ∷ []
unfolding parse_topics trim_space
default_topics = refl

two_topics : parse_topics "node_health,, other" ≡ "node_health" ∷ "other" ∷ []
unfolding parse_topics topics_of trim_space split
two_topics = refl

no_topics : parse_topics "," ≡ []
unfolding parse_topics topics_of trim_space split
no_topics = refl
