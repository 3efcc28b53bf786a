-- ===== src/Handlers/Plain.antt =====
-- Which characters the proxy of cmd/proxy/main.go holds: what agents report of themselves passes the
-- callback, and only that is registered.
use multi_ssh.Base.{
  ℕ, ◌≡◌, ◌⊎◌, inl, inr, refl, sym, ap, ◌∙◌, Bool, true, ◌&&◌, [], ◌∷◌, Text, text_eq, nat_eq, eqb,
  leb, all, all-append, length, and_true, arith,
}
use multi_ssh.Base.Strings.{cut, cut_parts}
use multi_ssh.Names.{
  PublicKey, dot, hash_len, label_start, label_char, b32_char, valid_friendly_name,
  valid_canonical_name,
}
use multi_ssh.Protocol.{hex_char, platform_char}
use multi_ssh.Protocol.Versions.{IsField}
use multi_ssh.Auth.{
  ConnMetadata, Certificate, certificate, Checker, Extensions, accepted, agent_callback,
}
use multi_ssh.Auth.Agent.{agent_callback_clean, accepted-fp}
use multi_ssh.Revocations.{Revocations}
use multi_ssh.Page.Clean.{printable, IsPlain}

all-IsPlain :
    (p : ℕ → Bool)
    → ((c : ℕ) → p c ≡ true → printable c ≡ true)
    → (s : Text) → all p s ≡ true
    → IsPlain s
all-IsPlain p f [] h = refl
all-IsPlain p f (c ∷ s) h =
    let (a, b) = and_true (p c) (all p s) h in rw (f c a) (all-IsPlain p f s b)

friendly-IsPlain : (s : Text) → valid_friendly_name s ≡ true → IsPlain s
unfolding valid_friendly_name
friendly-IsPlain [] h = refl
friendly-IsPlain (c ∷ s) h =
    let (front, short) = and_true (label_start c && all label_char s) (leb (length s) 62) h in
    let (first, rest) = and_true (label_start c) (all label_char s) front in
    let c_plain : printable c ≡ true = ground arith in
    rw c_plain (all-IsPlain label_char (λ c p. ground arith) s rest)

canonical-IsPlain : (s : Text) → valid_canonical_name s ≡ true → IsPlain s
unfolding valid_canonical_name
canonical-IsPlain s h =
    let base = (cut dot s).0 in
    let hash = (cut dot s).1 in
    let (shaped, long) =
      and_true ((cut dot s).2 && valid_friendly_name base && all b32_char hash)
        (eqb (length hash) hash_len) h in
    let (named, coded) =
      and_true ((cut dot s).2 && valid_friendly_name base) (all b32_char hash) shaped in
    let (dotted, friendly) = and_true (cut dot s).2 (valid_friendly_name base) named in
    ap (all printable) (sym (cut_parts dot s dotted))
    ∙ all-append printable base (dot ∷ hash)
    ∙ rw (friendly-IsPlain base friendly, all-IsPlain b32_char (λ c p. ground arith) hash coded)
        refl

field-IsPlain :
    (p : ℕ → Bool)
    → ((c : ℕ) → p c ≡ true → printable c ≡ true)
    → (s : Text) → IsField p s
    → IsPlain s
field-IsPlain p f s (inl e) = rw e refl
field-IsPlain p f s (inr h) =
    let (front, short) = and_true (all p s && leb 1 (length s)) (leb (length s) 32) h in
    all-IsPlain p f s (and_true (all p s) (leb 1 (length s)) front).0

-- What is handed on of an agent.
pub record IsPlainExt (ext : Extensions) : Type 0 where
  pub canonical : IsPlain ext.canonical
  pub friendly : IsPlain ext.friendly
  pub fp : IsPlain ext.fp
  pub build : IsPlain ext.build
  pub platform : IsPlain ext.platform

-- An agent that the callback accepts.
abbrev pub Comes : Checker → Extensions → Type 0
Comes c ext =
    (r : Revocations) × (min_proto : ℕ) × (m : ConnMetadata) × (cert : Certificate)
    × (agent_callback c r min_proto m (certificate cert) ≡ accepted ext)

pub Comes-IsPlainExt :
    (c : Checker) (ext : Extensions)
    → ((key : PublicKey) → IsPlain (c.fingerprint key))
    → Comes c ext
    → IsPlainExt ext
Comes-IsPlainExt c ext plain_fp (r, min_proto, m, cert, h) =
    let (name, friendly, build, platform) = agent_callback_clean c r min_proto m cert ext h in
    record {
      canonical = canonical-IsPlain ext.canonical name;
      friendly = label_plain friendly;
      fp = ap (all printable) (accepted-fp c r min_proto m cert ext h) ∙ plain_fp cert.key;
      build = field-IsPlain hex_char (λ c p. ground arith) ext.build build;
      platform = field-IsPlain platform_char (λ c p. ground arith) ext.platform platform;
    }
  where
    label_plain :
        {P : Type 0}
        → (ext.friendly ≡ []) ⊎ ((valid_friendly_name ext.friendly ≡ true) × P)
        → IsPlain ext.friendly
    label_plain (inl e) = rw e refl
    label_plain (inr (v, p)) = friendly-IsPlain ext.friendly v
