-- ===== src/Routing/Cached.antt =====
-- app/services/routing.py: how long a route may be cached.
use number_masking_service.Prelude.{ℕ, ◌-◌, ◌*◌, ◌≡◌, ◌≤◌, some, arith}
use number_masking_service.Settings.{second}
use number_masking_service.Lookup.{Candidate}
use number_masking_service.Routing.{route_ttl}

-- A cached route lives in the cache no longer than its session: its time to live ends by the
-- expiry, and is at most five minutes.
pub route_ttl_bounds :
    (x : Candidate) (now e : ℕ)
    → x.expires_at ≡ some e
    → (route_ttl x now ≤ 300) × (route_ttl x now * second ≤ e - now)
unfolding route_ttl
route_ttl_bounds x now e h = ground arith
