-- ===== src/Page/Clean.antt =====
-- Which characters reach the terminal of a user who asks for the page (cmd/proxy/main.go).
use multi_ssh.Base.{
  ℕ, zero, suc, ◌-◌, ◌≡◌, inl, inr, refl, Bool, true, false, not, ◌&&◌, List, [], ◌∷◌, ◌++◌, map,
  Text, text_eq, ltb, leb, if◌then◌else◌, length, any, all, all-append, All, filter, contains,
  Bool-cases, arith,
}
use multi_ssh.Base.Decimal.{itoa, all-itoa}
use multi_ssh.Base.Strings.{codes}
use multi_ssh.Protocol.{describe_protocol}
use multi_ssh.Registry.{Target}
use multi_ssh.Sightings.{Sighting, Ago, just_now, minutes, hours, days, ago}
use multi_ssh.Page.{
  build_state, spaces, pad, ago_text, Setting, Widths, widths, missing, key_line, target_line,
  target_lines, all_target_lines, is_stale, missing_line, stale_lines, missing_lines, online_lines,
  connect_lines, page_lines,
}

-- A visible character or a space: nothing that moves the cursor or ends a line.
abbrev pub printable : ℕ → Bool
printable c = leb 32 c && ltb c 127

abbrev pub IsPlain : Text → Type 0
IsPlain s = all printable s ≡ true

abbrev pub ArePlain : List Text → Type 0
ArePlain ls = all (all printable) ls ≡ true

-- What the page shows of a target is plain.
pub record IsPlainTarget (t : Target) : Type 0 where
  pub friendly : IsPlain t.friendly
  pub canonical : IsPlain t.canonical
  pub platform : IsPlain t.platform
  pub host_fp : IsPlain t.host_fp
  pub fp : IsPlain t.fp

IsPlain-append : (s t : Text) → IsPlain s → IsPlain t → IsPlain (s ++ t)
IsPlain-append s t h k = rw (all-append printable s t, h) k

ArePlain-append : (s t : List Text) → ArePlain s → ArePlain t → ArePlain (s ++ t)
ArePlain-append s t h k = rw (all-append (all printable) s t, h) k

itoa-IsPlain : (n : ℕ) → IsPlain (itoa n)
itoa-IsPlain n = all-itoa printable n (λ d h. ground arith)

spaces-IsPlain : (n : ℕ) → IsPlain (spaces n)
unfolding spaces
spaces-IsPlain zero = refl
spaces-IsPlain (suc n) = spaces-IsPlain n

pad-IsPlain : (w : ℕ) (s : Text) → IsPlain s → IsPlain (pad w s)
unfolding pad
pad-IsPlain w s h = IsPlain-append s (spaces (w - length s)) h (spaces-IsPlain (w - length s))

describe_protocol-IsPlain : (v : ℕ) → IsPlain (describe_protocol v)
unfolding describe_protocol
describe_protocol-IsPlain v = ground (arith, itoa-IsPlain v)

build_state-IsPlain :
    (b : Text) (current : List Text) (know : Bool) → IsPlain (build_state b current know)
unfolding build_state
build_state-IsPlain b current know = ground arith

ago_text-IsPlain : (a : Ago) → IsPlain (ago_text a)
unfolding ago_text
ago_text-IsPlain just_now = refl
ago_text-IsPlain (minutes n) = IsPlain-append (itoa n) (codes "m ago") (itoa-IsPlain n) refl
ago_text-IsPlain (hours n) = IsPlain-append (itoa n) (codes "h ago") (itoa-IsPlain n) refl
ago_text-IsPlain (days n) = IsPlain-append (itoa n) (codes "d ago") (itoa-IsPlain n) refl

module _ (e : Setting) (w : Widths) where
  target_line-IsPlain : (t : Target) → IsPlainTarget t → IsPlain (target_line e w t)
  unfolding target_line
  target_line-IsPlain t h =
      IsPlain-append (pad w.name_w t.friendly) _ (pad-IsPlain w.name_w t.friendly h.friendly) (
        IsPlain-append (pad w.canon_w t.canonical) _ (pad-IsPlain w.canon_w t.canonical h.canonical)
          (IsPlain-append (pad w.plat_w t.platform) _ (pad-IsPlain w.plat_w t.platform h.platform) (
            IsPlain-append (describe_protocol t.proto) _ (describe_protocol-IsPlain t.proto)
              (build_state-IsPlain t.build e.current e.know))))

  target_lines-ArePlain : (t : Target) → IsPlainTarget t → ArePlain (target_lines e w t)
  unfolding target_lines key_line
  target_lines-ArePlain t h = rw (target_line-IsPlain t h) (
      ground (
        arith,
        all-append (all printable) (key_line t.host_fp) ((codes "       identity  " ++ t.fp) ∷ []),
        h.host_fp,
        h.fp,
      ))

  all_target_lines-ArePlain :
      (ts : List Target) → All IsPlainTarget ts → ArePlain (all_target_lines e w ts)
  unfolding all_target_lines
  all_target_lines-ArePlain [] h = refl
  all_target_lines-ArePlain (t ∷ ts) (h, hs) =
      ArePlain-append (target_lines e w t) (all_target_lines e w ts) (target_lines-ArePlain t h)
        (all_target_lines-ArePlain ts hs)

  online_lines-ArePlain : (ts : List Target) → All IsPlainTarget ts → ArePlain (online_lines e w ts)
  unfolding online_lines
  online_lines-ArePlain [] h = refl
  online_lines-ArePlain (t ∷ ts) h =
      rw (IsPlain-append (itoa (length (t ∷ ts))) (codes ")") (itoa-IsPlain (length (t ∷ ts))) refl)
        (all_target_lines-ArePlain (t ∷ ts) h)

  missing_line-IsPlain : (k : Sighting) → IsPlain k.name → IsPlain (missing_line e w k)
  unfolding missing_line
  missing_line-IsPlain k h =
      IsPlain-append (if is_stale e k then codes "!" else codes " ") _ (ground arith) (
        IsPlain-append (pad w.canon_w k.name) _ (pad-IsPlain w.canon_w k.name h)
          (ago_text-IsPlain (ago e.now k.when)))

  map_missing-ArePlain :
      (ks : List Sighting) → All (λ k. IsPlain k.name) ks → ArePlain (map (missing_line e w) ks)
  map_missing-ArePlain [] h = refl
  map_missing-ArePlain (k ∷ ks) (h, hs) = rw (missing_line-IsPlain k h) (map_missing-ArePlain ks hs)

  missing_lines-ArePlain :
      (ks : List Sighting)
      → IsPlain e.stale_after
      → All (λ k. IsPlain k.name) ks
      → ArePlain (missing_lines e w ks)
  unfolding missing_lines
  missing_lines-ArePlain [] a h = refl
  missing_lines-ArePlain (k ∷ ks) a h =
      rw (IsPlain-append (itoa (length (k ∷ ks))) (codes ")") (itoa-IsPlain (length (k ∷ ks))) refl)
        (ArePlain-append (map (missing_line e w) (k ∷ ks)) _ (map_missing-ArePlain (k ∷ ks) h)
          (stale_lines-ArePlain (any (is_stale e) (k ∷ ks))))
    where
      stale_lines-ArePlain : (b : Bool) → ArePlain (stale_lines e b)
      stale_lines-ArePlain false = refl
      stale_lines-ArePlain true = rw a refl

connect_lines-ArePlain : (ts : List Target) → All IsPlainTarget ts → ArePlain (connect_lines ts)
unfolding connect_lines
connect_lines-ArePlain [] h = refl
connect_lines-ArePlain (t ∷ ts) (h, hs) = ground (arith, h.friendly, h.canonical)

All-filter :
    (p : Sighting → Bool) (ks : List Sighting)
    → All (λ k. IsPlain k.name) ks
    → All (λ k. IsPlain k.name) (filter p ks)
All-filter p [] h = tt
All-filter p (k ∷ ks) (h, hs) = elim (Bool-cases (p k)) [
  | inl e ↦ rw e (h, All-filter p ks hs)
  | inr e ↦ rw e (All-filter p ks hs)
]

-- If what the targets and the sightings show is plain, so is every line of the page: whatever an agent
-- reports of itself, nothing in it ends a line or moves the cursor of the user's terminal.
pub page_lines-ArePlain :
    (e : Setting) (list : List Target) (ks : List Sighting)
    → IsPlain e.stale_after
    → All IsPlainTarget list
    → All (λ k. IsPlain k.name) ks
    → ArePlain (page_lines e list ks)
unfolding page_lines
page_lines-ArePlain e list ks a h hs =
    let w = widths list in
    ArePlain-append (online_lines e w list) _ (online_lines-ArePlain e w list h) (
      ArePlain-append (missing_lines e w (missing list ks)) _
        (missing_lines-ArePlain e w (missing list ks) a (missing-All ks hs))
        (ArePlain-append (connect_lines list) ([] ∷ []) (connect_lines-ArePlain list h) refl))
  where
    missing-All :
        (ks : List Sighting)
        → All (λ k. IsPlain k.name) ks
        → All (λ k. IsPlain k.name) (missing list ks)
    missing-All ks hs =
        unfold missing in
        (All-filter (λ k. not (contains (map (λ t. t.canonical) list) k.name)) ks hs)
