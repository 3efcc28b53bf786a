-- ===== src/Health.antt =====
-- `serveHealth` of cmd/proxy/main.go: the counts that monitoring gets without authentication.
pub mod Counts
use multi_ssh.Base.{
  ℕ, ◌-◌, ◌+◌, ◌≡◌, refl, Bool, true, false, not, ◌&&◌, List, [], ◌∷◌, Text, ◌==◌, text_eq,
  if◌then◌else◌, length, contains,
}
use multi_ssh.Protocol.{protocol_version}
use multi_ssh.Registry.{Registry, Target, listing}
use multi_ssh.Sightings.{Sightings, known, stale_since}
use multi_ssh.Distributor.{Distributor, builds, serving}

-- The reply, less its constant parts: the status, the flag's duration and the proxy's own build.
pub record Health : Type 0 where
  pub connected : ℕ
  pub known_targets : ℕ
  pub stale : ℕ
  pub outdated : ℕ
  pub revoked : ℕ
  pub protocol : ℕ

-- The loop over the listing.
unfoldable pub count_outdated : List Text → ℕ → List Target → ℕ
count_outdated current n [] = n
count_outdated current n (t ∷ ts) =
    count_outdated current
      (if not (t.build == []) && not (contains current t.build) then n + 1 else n) ts

-- `revoked` is what `revocations.count` says; `stale_before` is the time less the flag's duration.
unfoldable pub serve_health : Registry → Sightings → ℕ → Distributor → ℕ → Health
unfolding count_outdated
serve_health reg seen revoked dist stale_before =
    let list = listing reg in
    record {
      connected = length list;
      known_targets = length (known seen);
      stale = length (stale_since seen stale_before);
      outdated = if serving dist then count_outdated (builds dist) 0 list else 0;
      revoked = revoked;
      protocol = protocol_version;
    }
