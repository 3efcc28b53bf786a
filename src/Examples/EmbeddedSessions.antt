-- ===== src/Examples/EmbeddedSessions.antt =====
-- The embedded server of cmd/agent/main.go, by example.
use multi_ssh.Base.{◌≡◌, refl, true, [], ◌∷◌, List, Option, some, Text, text_eq, ℕ_discrete}
use multi_ssh.Base.Scanner.{scan}
use multi_ssh.Base.Strings.{codes, trim_space, byte_len}
use multi_ssh.Names.{PublicKey}
use multi_ssh.Keys.{load_authorized_keys}
use multi_ssh.Keys.Authorized.{stands_in}
use multi_ssh.Examples.Files.{toy_formats}
use multi_ssh.Embedded.{
  Tunnel, Event, offers, fires, goes_on, serving, handshaking, fresh_tunnel, serve_embedded, step,
  run,
}
use multi_ssh.Embedded.Sessions.{session_lem, silent_closed, good_session_closed, ClosedLate}

abbrev keys_file : Option Text
keys_file = some (codes "# users\nalice\n")

abbrev alice : PublicKey
alice = codes "alice"

abbrev fresh : Tunnel
fresh = fresh_tunnel (alice ∷ [])

opens : serve_embedded toy_formats keys_file ≡ some fresh
unfolding serve_embedded load_authorized_keys byte_len text_eq
opens = refl

abbrev login : List Event
login = offers (codes "mallory") ∷ offers alice ∷ goes_on ∷ []

logged_in : (run login fresh).progress ≡ serving alice
unfolding run text_eq ℕ_discrete
logged_in = refl

session_lem_example :
    (stands_in toy_formats keys_file alice ≡ true)
    × (step fires (run login fresh) ≡ run login fresh)
    × ((run login fresh).closed ≡ (run login fresh).timed_out)
session_lem_example = session_lem toy_formats keys_file login fresh alice opens logged_in

abbrev silence : List Event
silence = offers (codes "mallory") ∷ []

silent : (run silence fresh).progress ≡ handshaking
unfolding run text_eq ℕ_discrete
silent = refl

silent_closed_example : (step fires (run silence fresh)).closed ≡ true
silent_closed_example = silent_closed toy_formats keys_file silence fresh opens silent

alice_stands : stands_in toy_formats keys_file alice ≡ true
unfolding scan trim_space text_eq ℕ_discrete byte_len
alice_stands = refl

good_session_closed_example : ClosedLate alice fresh
good_session_closed_example =
    good_session_closed toy_formats keys_file fresh alice opens alice_stands
