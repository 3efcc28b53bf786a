-- ===== src/Page.antt =====
-- What a user who logs in to the proxy sees (cmd/proxy/main.go): `handleUser`, `serveListing` and
-- `buildState`. The page is a list of lines; each is written with `\r\n` behind it.
pub mod Clean
pub mod Targets
pub mod Requests
use multi_ssh.Base.{
  ℕ, ◌+◌, ◌-◌, ◌≡◌, refl, Bool, true, false, not, ◌&&◌, ◌||◌, List, [], ◌∷◌, ◌++◌, map, Option,
  none, some, Text, ◌==◌, text_eq, ltb, leb, if◌then◌else◌, length, any, filter, contains,
  ℕ_discrete,
}
use multi_ssh.Base.Decimal.{itoa}
use multi_ssh.Base.Strings.{codes, byte_len}
use multi_ssh.Protocol.{describe_protocol}
use multi_ssh.Registry.{Registry, Target, listing}
use multi_ssh.Sightings.{Sighting, Sightings, known, ago, Ago, just_now, minutes, hours, days}

-- Is a target running a binary that the proxy serves? `current` are the builds on offer.
unfoldable pub build_state : Text → List Text → Bool → Text
build_state build current know =
    if not know || build == []
    then []
    else if contains current build
    then codes "current"
    else codes "OUTDATED"

unfoldable pub spaces : ℕ → Text
spaces ℕ.zero = []
spaces (ℕ.suc n) = 32 ∷ spaces n

-- `%-*s`: to a width in characters.
unfoldable pub pad : ℕ → Text → Text
unfolding spaces
pad w s = s ++ spaces (w - length s)

abbrev max : ℕ → ℕ → ℕ
max a b = if ltb a b then b else a

-- The widths come from the data, in bytes.
unfoldable pub widest : ℕ → List Text → ℕ
widest w [] = w
widest w (s ∷ ss) = widest (max w (byte_len s)) ss

-- What `ago` prints.
unfoldable pub ago_text : Ago → Text
ago_text just_now = codes "just now"
ago_text (minutes n) = itoa n ++ codes "m ago"
ago_text (hours n) = itoa n ++ codes "h ago"
ago_text (days n) = itoa n ++ codes "d ago"

-- What the page is made of, besides the targets and the sightings.
pub record Setting : Type 0 where
  -- the builds on offer, and whether any are
  pub current : List Text
  pub know : Bool
  -- the time of the page, and the instant before which a sighting is stale
  pub now : ℕ
  pub stale_before : ℕ
  -- the flag's duration, as printed
  pub stale_after : Text

pub record Widths : Type 0 where
  pub name_w : ℕ
  pub canon_w : ℕ
  pub plat_w : ℕ

widths : List Target → Widths
unfolding widest
widths list = record {
  name_w = widest (byte_len (codes "name")) (map (λ t. t.friendly) list);
  canon_w = widest (byte_len (codes "address")) (map (λ t. t.canonical) list);
  plat_w = widest 0 (map (λ t. t.platform) list);
}

-- The known targets that are not connected.
unfoldable pub missing : List Target → List Sighting → List Sighting
missing list ks = filter (λ k. not (contains (map (λ t. t.canonical) list) k.name)) ks

key_line : Text → List Text
key_line host_fp = if host_fp == [] then [] else (codes "       host key  " ++ host_fp) ∷ []

target_line : Setting → Widths → Target → Text
target_line e w t =
    codes "   "
    ++ (pad w.name_w t.friendly
        ++ (codes "  "
            ++ (pad w.canon_w t.canonical
                ++ (codes "  "
                    ++ (pad w.plat_w t.platform
                        ++ (codes "  "
                            ++ (describe_protocol t.proto
                                ++ (codes " " ++ build_state t.build e.current e.know))))))))

target_lines : Setting → Widths → Target → List Text
unfolding target_line key_line
target_lines e w t =
    target_line e w t ∷ (key_line t.host_fp ++ (codes "       identity  " ++ t.fp) ∷ [])

all_target_lines : Setting → Widths → List Target → List Text
unfolding target_lines
all_target_lines e w [] = []
all_target_lines e w (t ∷ ts) = target_lines e w t ++ all_target_lines e w ts

abbrev pub is_stale : Setting → Sighting → Bool
is_stale e k = ltb k.when e.stale_before

missing_line : Setting → Widths → Sighting → Text
missing_line e w k =
    codes "   "
    ++ ((if is_stale e k then codes "!" else codes " ")
        ++ (codes " "
            ++ (pad w.canon_w k.name ++ (codes "  last seen " ++ ago_text (ago e.now k.when)))))

abbrev stale_lines : Setting → Bool → List Text
stale_lines e false = []
stale_lines e true = [] ∷ (codes "   ! not seen in over " ++ e.stale_after) ∷ []

missing_lines : Setting → Widths → List Sighting → List Text
unfolding missing_line
missing_lines e w [] = []
missing_lines e w (k ∷ ks) =
    []
    ∷ (codes " NOT CONNECTED (" ++ (itoa (length (k ∷ ks)) ++ codes ")"))
    ∷ []
    ∷ (map (missing_line e w) (k ∷ ks) ++ stale_lines e (any (is_stale e) (k ∷ ks)))

online_lines : Setting → Widths → List Target → List Text
unfolding all_target_lines
online_lines e w [] = [] ∷ codes " no targets are connected right now." ∷ []
online_lines e w (t ∷ ts) =
    []
    ∷ (codes " ONLINE (" ++ (itoa (length (t ∷ ts)) ++ codes ")"))
    ∷ []
    ∷ all_target_lines e w (t ∷ ts)

-- The first target of the page serves as the example.
connect_lines : List Target → List Text
connect_lines [] = []
connect_lines (t ∷ ts) =
    []
    ∷ codes " CONNECT"
    ∷ []
    ∷ (codes "   ssh -J <thisproxy> user@"
        ++ (if t.friendly == [] then t.canonical else t.friendly))
    ∷ []
    ∷ codes "   The username is ignored. On first connect ssh shows the target's"
    ∷ codes "   host key fingerprint and offers a (yes/no/[fingerprint]) prompt --"
    ∷ codes "   paste the host key above into it and ssh checks it for you."
    ∷ []
    ∷ codes "   'identity' is a different key: the handle for -revoke."
    ∷ []

unfoldable pub page_lines : Setting → List Target → List Sighting → List Text
unfolding widths online_lines missing_lines connect_lines
page_lines e list ks =
    let w = widths list in
    []
    ∷ codes " multiSSH proxy"
    ∷ (online_lines e w list
        ++ (missing_lines e w (missing list ks) ++ (connect_lines list ++ [] ∷ [])))

-- The page for a shell, from what the proxy holds.
unfoldable pub page : Setting → Registry → Sightings → List Text
page e r s = page_lines e (listing r) (known s)

-- The requests on a session channel of a user; `serveListing` returns after a shell.
pub data Request : Type 0 where
  pty_req shell : Request
  -- exec, subsystem and all others
  refused : Text → Request

-- The replies, for those that want one, and whether the page was shown.
unfoldable pub serve_listing : List Request → List Bool × Bool
serve_listing [] = ([], false)
serve_listing (pty_req ∷ reqs) =
    let (replies, shown) = serve_listing reqs in (true ∷ replies, shown)
serve_listing (shell ∷ reqs) = (true ∷ [], true)
serve_listing (refused kind ∷ reqs) =
    let (replies, shown) = serve_listing reqs in (false ∷ replies, shown)

-- What `handleUser` makes of a channel that a user opens.
pub data Opened : Type 0 where
  to_listing to_jump not_supported : Opened

unfoldable pub open_channel : Text → Opened
open_channel kind =
    if kind == codes "session"
    then to_listing
    else if kind == codes "direct-tcpip"
    then to_jump
    else not_supported
