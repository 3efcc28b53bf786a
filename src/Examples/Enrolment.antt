-- ===== src/Examples/Enrolment.antt =====
-- Enrolment by cmd/proxy/enroll.go, by example.
use multi_ssh.Auth.{user_cert, certificate, Extensions, accepted, agent_callback}
use multi_ssh.Base.{
  ◌≡◌, ◌≤◌, inr, refl, true, false, List, [], ◌∷◌, none, some, text_eq, any, arith, ℕ_discrete,
  insert, lookup,
}
use multi_ssh.Base.Decimal.{atoi}
use multi_ssh.Base.Strings.{byte_len, codes, trim_space, cut, cut_prefix}
use multi_ssh.Enroll.{
  Password, expired, matches, salted, new_password, find_password, Typed, named, manage_passwords,
  ok, Enroller, Visit, EnrolRequest, EnrolResponse, sign_cert, issue, handle, draft,
}
use multi_ssh.Enroll.Accepted.{enrolled_accepted}
use multi_ssh.Enroll.Granted.{MayEnrol, handle_grants}
use multi_ssh.Enroll.Passwords.{is_some, created_works}
use multi_ssh.Examples.Data.{
  toy_sha, toy_checker, toy_library, laptop, laptop_key, laptop_name, laptop_meta, one_revoked,
}
use multi_ssh.Limiter.{allow, sweep_locked, new_limiter, drop_stale, admit}
use multi_ssh.Names.{PublicKey, valid_friendly_name, canonical_name, name_message, b32_encode}
use multi_ssh.Protocol.{parse_agent_version}
use multi_ssh.Revocations.{revoked}

abbrev one_password : List Password
one_password = salted toy_library [] 10 (codes "first") (codes "hunter22") 90 ∷ []

abbrev typed : Typed
typed = record {
  secret = some (codes "hunter22");
  again = some (some (codes "hunter22"));
  salt = some [];
}

abbrev enroller : Enroller
enroller = record {
  ca = codes "ca";
  passwords = one_password;
  proxies = codes "proxy" ∷ [];
  limit = new_limiter 60 5;
  validity = 0;
  revoked = one_revoked;
}

abbrev visit : Visit
visit = record {
  is_post = true;
  who = codes "10.0.0.1";
  body = some (record {
    password = codes "hunter22";
    name = laptop;
    ident_key = codes "identity";
    host_key = laptop_key;
    version = [];
    platform = [];
  });
  slot_free = true;
  users_file = some (codes "users");
  serial = 1;
}

abbrev response : EnrolResponse
response = record {
  certificate = record {
    cert_type = user_cert;
    key = codes "identity";
    valid_principals = laptop_name ∷ laptop ∷ [];
    signed = codes "identity";
  };
  ca = codes "ca";
  authorized = codes "users";
  proxies = codes "proxy" ∷ [];
  canonical = laptop_name;
  friendly = laptop;
}

created_works_example :
    (8 ≤ byte_len (codes "hunter22"))
    × (any (named (codes "first")) [] ≡ false)
    × (is_some (find_password toy_library 100 (codes "hunter22") one_password none) ≡ true)
unfolding manage_passwords byte_len new_password text_eq ℕ_discrete
created_works_example =
    created_works toy_library [] one_password ((codes "first")) ((codes "hunter22")) 90 10 100 typed
      true refl refl (inr (ground arith))

visit_granted : (handle toy_sha toy_library enroller 50 visit).1 ≡ ok response
unfolding handle issue allow sweep_locked new_limiter drop_stale admit insert lookup find_password
    matches expired new_password revoked valid_friendly_name canonical_name name_message b32_encode
    sign_cert draft trim_space text_eq ℕ_discrete
visit_granted = refl

handle_grants_example :
    (visit.is_post ≡ true)
    × ((allow enroller.limit 50 visit.who).1 ≡ true)
    × (visit.slot_free ≡ true)
    × ((req : EnrolRequest) × (visit.body ≡ some req)
        × ((ident host : PublicKey) × MayEnrol toy_sha toy_library enroller 50 visit req ident host
              response))
handle_grants_example = handle_grants toy_sha toy_library enroller 50 visit response visit_granted

laptop_recent : 1 ≤ parse_agent_version laptop_meta.client_version
unfolding parse_agent_version cut cut_prefix atoi
laptop_recent = ground arith

enrolled_accepted_example :
    (response.certificate.cert_type ≡ user_cert)
    × (ext : Extensions) × (agent_callback toy_checker one_revoked 1 laptop_meta
          (certificate response.certificate)
        ≡ accepted ext)
    × (ext.canonical ≡ response.canonical)
    × (ext.friendly ≡ response.friendly)
unfolding revoked lookup text_eq ℕ_discrete
enrolled_accepted_example =
    enrolled_accepted toy_sha toy_library enroller 50 visit response toy_checker one_revoked 1
      laptop_meta visit_granted refl laptop_recent refl refl
