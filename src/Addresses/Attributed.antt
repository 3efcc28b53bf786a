-- ===== src/Addresses/Attributed.antt =====
-- Which address a request is counted under, for `realClientHost` of cmd/proxy/main.go.
use mathlib.Core.Bool.{false≢true}
use multi_ssh.Base.{
  ◌≡◌, refl, sym, ap, ◌∙◌, true, false, not, ◌&&◌, List, [], ◌∷◌, ◌++◌, reverse, Text, ◌==◌,
  text_eq, eqb, if◌then◌else◌, Bool-cases, inl, inr, arith,
}
use multi_ssh.Base.Strings.{lacks, trim_space, trim_space_solid, trim_left, starts_solid, is_space}
use multi_ssh.Addresses.{Ips, comma, plain, split, last, or_peer, ip_in_any, real_client_host}
use multi_ssh.Addresses.Hosts.{join_host_port, IsPort, host_only-join}

-- The header as a reverse proxy hands it on: it appends the address it saw to what the client sent.
unfoldable pub append_hop : Text → Text → Text
append_hop [] seen = seen
append_hop (c ∷ sent) seen = (c ∷ sent) ++ comma ∷ 32 ∷ seen

-- An address as text: it begins and ends with no white space and has no comma.
abbrev pub IsAddress : Text → Type 0
IsAddress a = (lacks comma a ≡ true) × (starts_solid a ≡ true) × (starts_solid (reverse a) ≡ true)

split_none : (s : Text) → lacks comma s ≡ true → split comma s ≡ s ∷ []
unfolding split
split_none [] h = refl
split_none (c ∷ s) h = ground (arith, split_none s)

split-cons : (s : Text) → (p : Text) × (ps : List Text) × (split comma s ≡ p ∷ ps)
unfolding split
split-cons [] = ([], [], refl)
split-cons (c ∷ s) =
    let (p, ps, e) = split-cons s in
    elim (Bool-cases (eqb c comma)) [
      | inl yes' ↦ ([], split comma s, rw yes' refl)
      | inr no' ↦ (c ∷ p, ps, rw (no', e) refl)
    ]

split-append : (s t : Text) → split comma (s ++ comma ∷ t) ≡ split comma s ++ split comma t
unfolding split
split-append [] t = refl
split-append (c ∷ s) t =
    let (p, ps, e) = split-cons s in
    elim (Bool-cases (eqb c comma)) [
      | inl yes' ↦ rw (yes', split-append s t) refl
      | inr no' ↦ rw (no', split-append s t, e) refl
    ]

last-append : (xs : List Text) (y : Text) → last (xs ++ y ∷ []) ≡ y
last-append [] y = refl
last-append (x ∷ []) y = refl
last-append (x ∷ z ∷ xs) y = last-append (z ∷ xs) y

-- Whatever the client sent, the last hop is the address that the reverse proxy saw.
last_hop : (sent a : Text) → IsAddress a → trim_space (last (split comma (append_hop sent a))) ≡ a
unfolding append_hop trim_space trim_left is_space
last_hop [] a (h, b, e) = rw (split_none a h) (trim_space_solid a b e)
last_hop (c ∷ sent) a (h, b, e) =
    rw
      (
        split-append (c ∷ sent) (32 ∷ a),
        split_none (32 ∷ a) h,
        last-append (split comma (c ∷ sent)) (32 ∷ a),
      )
      (trim_space_solid a b e)

append_hop-some : (sent a : Text) → IsAddress a → (append_hop sent a == []) ≡ false
unfolding append_hop text_eq
append_hop-some [] [] (h, b, e) = absurd (false≢true b)
append_hop-some [] (x ∷ a) h = refl
append_hop-some (c ∷ sent) a h = refl

IsAddress-some : (a : Text) → IsAddress a → (a == []) ≡ false
unfolding text_eq
IsAddress-some [] (h, b, e) = absurd (false≢true b)
IsAddress-some (x ∷ a) h = refl

-- What is behind the last comma of a text, all of it where it has none.
unfoldable pub after_last : Text → Text
after_last [] = []
after_last (c ∷ s) = let rest = after_last s in if lacks comma (c ∷ s) then c ∷ s else rest

split_two :
    (s : Text)
    → lacks comma s ≡ false
    → (p q : Text) × (ps : List Text) × (split comma s ≡ p ∷ q ∷ ps)
unfolding split
split_two [] h = absurd (ground arith)
split_two (c ∷ s) h = elim (Bool-cases (eqb c comma)) [
  | inl yes' ↦ let (p, ps, e) = split-cons s in ([], p, ps, rw (yes', e) refl)
  | inr no' ↦ let (p, q, ps, e) = split_two s (rw no' at h) in (c ∷ p, q, ps, rw (no', e) refl)
]

after_last_plain : (s : Text) → lacks comma s ≡ true → after_last s ≡ s
unfolding after_last
after_last_plain [] h = refl
after_last_plain (c ∷ s) h = rw h refl

last-cons_cons : (x : Text) (xs ys : List Text) (q : Text) → xs ≡ q ∷ ys → last (x ∷ xs) ≡ last xs
last-cons_cons x [] ys q e = absurd (ground arith)
last-cons_cons x (y ∷ xs) ys q e = refl

last-split : (s : Text) → last (split comma s) ≡ after_last s
unfolding split after_last
last-split [] = refl
last-split (c ∷ s) = elim (Bool-cases (eqb c comma)) [
  | inl yes' ↦
      let (p, ps, e) = split-cons s in
      rw yes' (last-cons_cons [] (split comma s) ps p e ∙ last-split s)
  | inr no' ↦ elim (Bool-cases (lacks comma s)) [
    | inl none' ↦ rw (no', none', split_none s none') refl
    | inr some' ↦
        let (p, q, ps, e) = split_two s some' in
        let ih : last (q ∷ ps) ≡ after_last s = ap last (sym e) ∙ last-split s in
        rw (no', some', e) ih
  ]
]

trim_nil : trim_space [] ≡ []
unfolding trim_space trim_left
trim_nil = refl

sent_some : (xff : Text) → (trim_space (after_last xff) == []) ≡ false → (xff == []) ≡ false
unfolding text_eq after_last
sent_some [] h = absurd (let e = rw trim_nil at h in ground arith)
sent_some (c ∷ s) h = refl

-- A request whose peer is given as an address and a port, and is not trusted, is counted under that
-- address, whatever header it sends; one of a trusted peer under what is behind the last comma of
-- the header, without the white space around it, and under the peer's address where nothing is left
-- of that. So it is counted under the address that a trusted reverse proxy saw and appended, whatever
-- came before.
pub real_client_host_lem :
    {Ip Net : Type 0} (ips : Ips Ip Net) (trusted : List Net) (host port xff sent seen : Text)
    → plain host ≡ true
    → IsPort port
    → IsAddress seen
    → (real_client_host ips (join_host_port host port) xff trusted ≡ (
        if ip_in_any ips host trusted && not (trim_space (after_last xff) == [])
        then trim_space (after_last xff)
        else host))
      × (real_client_host ips (join_host_port host port) (append_hop sent seen) trusted
          ≡ (if ip_in_any ips host trusted then seen else host))
unfolding real_client_host
real_client_host_lem ips trusted host port xff sent seen h p a = (
  rw (host_only-join host port h p, last-split xff) (by_header xff),
  rw
      (
        host_only-join host port h p,
        append_hop-some sent seen a,
        last_hop sent seen a,
        IsAddress-some seen a,
      )
      (elim (Bool-cases (ip_in_any ips host trusted)) [
        | inl yes' ↦ rw yes' refl
        | inr no' ↦ rw no' refl
      ]),
)
  where
    by_header :
        (xff : Text)
        → (if not (ip_in_any ips host trusted)
            then host
            else if xff == []
            then host
            else or_peer host (trim_space (after_last xff)))
          ≡ (if ip_in_any ips host trusted && not (trim_space (after_last xff) == [])
              then trim_space (after_last xff)
              else host)
    by_header xff = elim (Bool-cases (ip_in_any ips host trusted)) [
      | inr no' ↦ rw no' refl
      | inl yes' ↦ elim (Bool-cases (trim_space (after_last xff) == [])) [
        | inl blank ↦
            rw (yes', blank)
              (elim (Bool-cases (xff == [])) [ inl e ↦ rw e refl | inr e ↦ rw e refl ])
        | inr solid ↦ rw (yes', solid, sent_some xff solid) refl
      ]
    ]
