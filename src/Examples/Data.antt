-- ===== src/Examples/Data.antt =====
-- Concrete data for the examples: simple instances of the libraries, and a few names and keys.
use multi_ssh.Base.{
  ℕ, zero, suc, ◌%◌, ◌≡◌, ◌≢◌, refl, [], ◌∷◌, ◌++◌, Option, none, some, Text, text_eq, length,
  contains, arith,
}
use multi_ssh.Base.Strings.{codes}
use multi_ssh.Names.{Bytes, PublicKey, Sha256}
use multi_ssh.Protocol.{TunnelRequest, Wire}
use multi_ssh.Auth.{ConnMetadata, user_cert, Certificate, Checker, Extensions}
use multi_ssh.Enroll.{Library}
use multi_ssh.Revocations.{Revocations}

abbrev zeros_31 : Bytes
zeros_31 =
    0 ∷ 0 ∷ 0 ∷ 0 ∷ 0 ∷ 0 ∷ 0 ∷ 0 ∷ 0 ∷ 0 ∷ 0 ∷ 0 ∷ 0 ∷ 0 ∷ 0 ∷ 0 ∷ 0 ∷ 0 ∷ 0 ∷ 0 ∷ 0 ∷ 0 ∷ 0 ∷ 0
    ∷ 0 ∷ 0 ∷ 0 ∷ 0 ∷ 0 ∷ 0 ∷ 0 ∷ []

-- A digest that shows the length of the message only.
abbrev pub toy_sha : Sha256
toy_sha = record { sum = λ m. length m % 256 ∷ zeros_31; sum_length = λ m. refl }

abbrev toy_tunnel : Bytes → Option TunnelRequest
toy_tunnel [] = none
toy_tunnel (v ∷ e) = some (record { version = v; extra = e })

abbrev pub report_bytes : Bytes → Bytes → Bytes
report_bytes [] extra = 0 ∷ extra
report_bytes (k ∷ ks) extra = 1 ∷ k ∷ report_bytes ks extra

abbrev pub push_key : ℕ → Option (Bytes × Bytes) → Option (Bytes × Bytes)
push_key k none = none
push_key k (some (ks, extra)) = some (k ∷ ks, extra)

abbrev pub read_report : Bytes → Option (Bytes × Bytes)
read_report [] = none
read_report (zero ∷ extra) = some ([], extra)
read_report (suc zero ∷ k ∷ s) = push_key k (read_report s)
read_report s = none

pub read-report_bytes :
    (key extra : Bytes) → read_report (report_bytes key extra) ≡ some (key, extra)
read-report_bytes [] extra = refl
read-report_bytes (k ∷ ks) extra = rw (read-report_bytes ks extra) refl

pub report_bytes_ne_nil : (key extra : Bytes) → report_bytes key extra ≢ []
report_bytes_ne_nil [] extra h = ground arith
report_bytes_ne_nil (k ∷ ks) extra h = ground arith

pub cons_ne_nil : (t : TunnelRequest) → t.version ∷ t.extra ≢ []
cons_ne_nil t h = ground arith

abbrev pub toy_wire : Wire
toy_wire = record {
  marshal_tunnel = λ t. t.version ∷ t.extra;
  unmarshal_tunnel = toy_tunnel;
  unmarshal-marshal_tunnel = λ t h. refl;
  marshal_tunnel_ne_nil = cons_ne_nil;
  marshal_report = report_bytes;
  unmarshal_report = read_report;
  unmarshal-marshal_report = read-report_bytes;
  marshal_report_ne_nil = report_bytes_ne_nil;
  parse_public_key = λ k. some k;
}

-- A certificate is authentic for its principals; a fingerprint is the key itself.
abbrev pub toy_checker : Checker
toy_checker = record {
  authenticate = λ user cert. contains cert.valid_principals user;
  fingerprint = λ key. key;
}

abbrev pub toy_library : Library
toy_library = record {
  decode64 = λ s. some s;
  encode64 = λ s. s;
  decode-encode64 = λ s. refl;
  id_key = λ candidate salt. candidate ++ salt;
  parse_key = λ s. some s;
  fingerprint = λ key. key;
  sign = λ d. some d.key;
  lower_rune = λ c. c;
}

abbrev pub laptop : Text
laptop = codes "laptop"

abbrev pub laptop_key : PublicKey
laptop_key = 7 ∷ 8 ∷ []

-- The canonical name for `laptop_key`.
abbrev pub laptop_name : Text
laptop_name = codes "laptop.eqaaaaaaaaaa"

abbrev pub laptop_cert : Certificate
laptop_cert = record {
  cert_type = user_cert;
  key = codes "identity";
  valid_principals = laptop_name ∷ laptop ∷ [];
  signed = [];
}

abbrev pub laptop_meta : ConnMetadata
laptop_meta = record {
  client_version = codes "SSH-2.0-multissh_agent_1_0abc_linux";
  user = laptop_name;
}

abbrev pub laptop_ext : Extensions
laptop_ext = record {
  canonical = laptop_name;
  fp = codes "identity";
  proto = codes "1";
  build = codes "0abc";
  platform = [];
  friendly = laptop;
}

abbrev pub one_revoked : Revocations
one_revoked = record { m = (codes "stolen", codes "lost") ∷ []; stamp = some (1, 2) }
