-- ===== src/Handlers/Shown.antt =====
-- What a user's terminal gets of what agents report (cmd/proxy/main.go): the callback, the handlers
-- and the page together.
use mathlib.Core.Path.{subst}
use multi_ssh.Base.{
  ℕ, ◌≡◌, ◌⊎◌, inl, inr, refl, sym, ◌∙◌, true, false, List, [], ◌∷◌, some, Text, text_eq, lookup,
  contains, All, All-map, arith,
}
use multi_ssh.Names.{PublicKey, Sha256, is_canonical_name}
use multi_ssh.Protocol.{Wire}
use multi_ssh.Auth.{Checker}
use multi_ssh.Registry.{Registry, Target, Registration, listing}
use multi_ssh.Registry.Listing.{RowOf, listing_rows}
use multi_ssh.Sightings.{Sighting, known}
use multi_ssh.Handlers.{Proxy}
use multi_ssh.Handlers.Reach.{Reachable}
use multi_ssh.Handlers.Held.{PlainRegistry}
use multi_ssh.Handlers.Steps.{AllCome, reachable-IsPlainProxy}
use multi_ssh.Page.{Setting, page}
use multi_ssh.Page.Clean.{IsPlain, IsPlainTarget, ArePlain, page_lines-ArePlain}
use multi_ssh.Page.Targets.{names_of, contains-known}

row-IsPlainTarget : (r : Registry) (t : Target) → PlainRegistry r → RowOf r t → IsPlainTarget t
row-IsPlainTarget r t all (g, found, proto, fp, build, platform, host_fp, friendly) =
    let e = all t.canonical g found in
    record {
      friendly = friendly_plain g.conn friendly;
      canonical = e.key;
      platform = subst IsPlain (sym platform) e.platform;
      host_fp = subst IsPlain (sym host_fp) e.host_fp;
      fp = subst IsPlain (sym fp) e.fp;
    }
  where
    friendly_plain :
        (conn : ℕ)
        → (t.friendly ≡ [])
          ⊎ ((h : Registration) × (lookup t.friendly r ≡ some h)
              × (h.conn ≡ conn)
              × (is_canonical_name t.friendly ≡ false))
        → IsPlain t.friendly
    friendly_plain conn (inl e) = subst IsPlain (sym e) refl
    friendly_plain conn (inr (h, at, same, other)) = (all t.friendly h at).key

All-names :
    (P : Text → Type 0) (ks : List Sighting)
    → ((n : Text) → contains (names_of ks) n ≡ true → P n)
    → All (λ k. P k.name) ks
All-names P [] h = tt
All-names P (k ∷ ks) h = (h k.name (ground arith), All-names P ks (λ n c. h n (ground arith)))

-- Whatever agents report of themselves, in any interleaving of what their handlers do, each line
-- of the page that a user gets is of visible characters and spaces: if every agent came through the
-- callback, and fingerprints, the sightings file and the duration that the operator's flag gives are
-- of such characters, nothing that an agent
-- sends ends a line or reaches the user's terminal as a control character.
pub page-ArePlain :
    (c : Checker) (sha : Sha256) (wire : Wire) (s : Proxy) (reached : Reachable sha wire c s)
    (e : Setting)
    → ((key : PublicKey) → IsPlain (c.fingerprint key))
    → AllCome c sha wire s reached
    → IsPlain e.stale_after
    → ArePlain (page e s.registry s.sightings)
unfolding page
page-ArePlain c sha wire s reached e plain_fp all stale =
    let i = reachable-IsPlainProxy c plain_fp sha wire s reached all in
    page_lines-ArePlain e (listing s.registry) (known s.sightings) stale
      (All-map (listing s.registry) (λ t row. row-IsPlainTarget s.registry t i.entries row)
        (listing_rows s.registry i.names))
      (All-names IsPlain (known s.sightings)
        (λ n c. i.times n (sym (contains-known n s.sightings) ∙ c)))
