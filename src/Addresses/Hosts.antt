-- ===== src/Addresses/Hosts.antt =====
-- The host of an address as `net` writes it, for `sourceHost` and `hostOnly` of
-- cmd/proxy/main.go.
use multi_ssh.Base.{
  ◌≡◌, inl, inr, refl, ap, true, false, [], ◌∷◌, ◌++◌, some, Text, eqb, if◌then◌else◌, Bool-cases,
  and_true, arith,
}
use multi_ssh.Base.Strings.{cut, cut_at, lacks}
use multi_ssh.Addresses.{
  colon, opening, closing, plain, bracketed, unbracketed, split_host_port, host_of, host_only,
}

-- `net.JoinHostPort`, as which the address of a peer is written.
unfoldable pub join_host_port : Text → Text → Text
join_host_port host port =
    if lacks colon host then host ++ colon ∷ port else opening ∷ (host ++ closing ∷ colon ∷ port)

abbrev pub IsPort : Text → Type 0
IsPort p = (lacks colon p ≡ true) × (plain p ≡ true)

split_plain :
    (h p : Text)
    → plain h ≡ true
    → lacks colon h ≡ true
    → IsPort p
    → split_host_port (h ++ colon ∷ p) ≡ some (h, p)
unfolding split_host_port unbracketed bracketed cut
split_plain [] p hp hc (pc, pp) = rw (pc, pp) refl
split_plain (c ∷ h) p hp hc (pc, pp) =
    let no_bracket : eqb c opening ≡ false = ground arith in
    rw (no_bracket, cut_at colon (c ∷ h) p hc, pc, pp, hp) refl

split_bracketed :
    (h p : Text)
    → plain h ≡ true
    → IsPort p
    → split_host_port (opening ∷ (h ++ closing ∷ colon ∷ p)) ≡ some (h, p)
unfolding split_host_port bracketed
split_bracketed h p hp (pc, pp) =
    let (no_open, no_close) = and_true (lacks opening h) (lacks closing h) hp in
    rw (cut_at closing h (colon ∷ p) no_close, pc, pp, no_open) refl

-- The host comes back from an address whatever its port is, for names, IPv4 and IPv6 alike.
pub host_only-join : (h p : Text) → plain h ≡ true → IsPort p → host_only (join_host_port h p) ≡ h
unfolding host_only join_host_port
host_only-join h p hp pp = elim (Bool-cases (lacks colon h)) [
  | inl bare ↦ rw bare (ap (host_of (h ++ colon ∷ p)) (split_plain h p hp bare pp))
  | inr six ↦
      rw six (ap (host_of (opening ∷ (h ++ closing ∷ colon ∷ p))) (split_bracketed h p hp pp))
]
