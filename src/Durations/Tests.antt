-- ===== src/Durations/Tests.antt =====
-- Durations that fit into an int64, and one that does not.
use pihole_cluster_admin.Prelude.{pos, negsuc, ◌≡◌, refl}
use pihole_cluster_admin.Domain.{second, hour}
use pihole_cluster_admin.Durations.{duration, int64, after_hours}

one_day : after_hours 5 (pos 24) ≡ 86400000000005
unfolding after_hours duration int64
one_day = refl

-- 3,000,000 hours are more than 2 ^ 63 nanoseconds.
long_hours : duration (pos 3000000) hour ≡ negsuc 7646744073709551615
unfolding duration int64
long_hours = refl

no_period : duration (pos 36028797018963968) second ≡ pos 0
unfolding duration int64
no_period = refl
