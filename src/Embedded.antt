-- ===== src/Embedded.antt =====
-- `serveEmbedded` of cmd/agent/main.go: the SSH server that an agent runs over one tunnel. The
-- handshake, its timer and what follows are steps that interleave; the library's handshake is a
-- parameter by the event that it ends with.
pub mod Sessions
use multi_ssh.Base.{
  ℕ, ◌≡◌, refl, Bool, true, false, List, [], ◌∷◌, Option, none, some, Text, ◌==◌, text_eq, contains,
  if◌then◌else◌,
}
use multi_ssh.Base.Strings.{codes}
use multi_ssh.Names.{PublicKey}
use multi_ssh.Keys.{Formats, load_authorized_keys}

-- How far the function is: in `NewServerConn`, behind it with the key that logged in or with its
-- error, in the loop over the channels, at its end.
pub data Progress : Type 0 where
  handshaking ended : Progress
  returned : Option PublicKey → Progress
  serving : PublicKey → Progress

pub record Tunnel : Type 0 where
  pub allowed : List PublicKey
  pub progress : Progress
  pub hs_done : Bool
  pub timed_out : Bool
  -- `ch` has been closed from this side
  pub closed : Bool

pub data Event : Type 0 where
  -- a client offers a key that it can sign with
  offers : PublicKey → Event
  -- the handshake fails, the timer runs its function, the function goes on behind the handshake,
  -- the connection of a session ends
  breaks fires goes_on hangs_up : Event

abbrev pub fresh_tunnel : List PublicKey → Tunnel
fresh_tunnel set = record {
  allowed = set;
  progress = handshaking;
  hs_done = false;
  timed_out = false;
  closed = false;
}

abbrev pub start : Option (List PublicKey) → Option Tunnel
start none = none
start (some set) = some (fresh_tunnel set)

-- The keys are read for each tunnel; without them the tunnel is closed at once, which is none.
unfoldable pub serve_embedded : {Signer : Type 0} → Formats Signer → Option Text → Option Tunnel
serve_embedded f file = start (load_authorized_keys f file)

-- `PublicKeyCallback`
abbrev pub public_key_callback : Tunnel → PublicKey → Bool
public_key_callback t key = contains t.allowed key

abbrev pub set_progress : Tunnel → Progress → Tunnel
set_progress t p = record {
  allowed = t.allowed;
  progress = p;
  hs_done = t.hs_done;
  timed_out = t.timed_out;
  closed = t.closed;
}

-- The function that the timer runs, under the lock.
unfoldable pub time_out : Tunnel → Tunnel
time_out t = if t.hs_done then t else record {
  allowed = t.allowed;
  progress = t.progress;
  hs_done = true;
  timed_out = true;
  closed = true;
}

-- Behind the handshake: under the lock `hs_done` is set; then an error closes the channel.
unfoldable pub after_handshake : Tunnel → Option PublicKey → Tunnel
after_handshake t none = record {
  allowed = t.allowed;
  progress = ended;
  hs_done = true;
  timed_out = t.timed_out;
  closed = true;
}
after_handshake t (some key) = record {
  allowed = t.allowed;
  progress = serving key;
  hs_done = true;
  timed_out = t.timed_out;
  closed = t.closed;
}

-- The deferred `conn.Close()`.
abbrev pub hung_up : Tunnel → Tunnel
hung_up t = record {
  allowed = t.allowed;
  progress = ended;
  hs_done = t.hs_done;
  timed_out = t.timed_out;
  closed = true;
}

-- An event that does not fit how far the function is changes nothing.
unfoldable pub at_progress : Event → Progress → Tunnel → Tunnel
unfolding time_out after_handshake
at_progress fires p t = time_out t
at_progress (offers key) handshaking t =
    if public_key_callback t key then set_progress t (returned (some key)) else t
at_progress breaks handshaking t = set_progress t (returned none)
at_progress goes_on (returned r) t = after_handshake t r
at_progress hangs_up (serving key) t = hung_up t
at_progress e p t = t

unfoldable pub step : Event → Tunnel → Tunnel
unfolding at_progress
step e t = at_progress e t.progress t

unfoldable pub run : List Event → Tunnel → Tunnel
unfolding step
run [] t = t
run (e ∷ es) t = run es (step e t)

-- Which channels of a session are served; the others are rejected.
unfoldable pub serves_channel : Text → Bool
serves_channel kind = kind == codes "session"
