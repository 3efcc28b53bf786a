-- ===== src/Shell.antt =====
-- `serveSession` of cmd/agent/main.go: one session channel of the agent's embedded server. Requests
-- come one at a time. Whether the shell starts, and whether the file server does, are answers of the
-- system, given with each request.
pub mod Single
use multi_ssh.Base.{
  ℕ, ◌+◌, ◌%◌, ◌^◌, ◌≡◌, refl, Bool, true, false, List, [], ◌∷◌, ◌++◌, Option, none, some, Text,
  ◌==◌, text_eq, if◌then◌else◌, ℕ_discrete,
}
use multi_ssh.Base.Strings.{codes}

-- A shell that runs: its command, its terminal, and the size the terminal has now.
pub record Process : Type 0 where
  pub command : Text
  pub term : Text
  pub cols : ℕ
  pub rows : ℕ

pub record Channel : Type 0 where
  pub shell : Option Process
  pub win_cols : ℕ
  pub win_rows : ℕ
  pub term : Text
  pub started : Bool
  -- the file server runs on this channel
  pub sftp : Bool
  -- the shells that `Terminate` has been called on
  pub hung_up : List Process
  -- the loop has returned
  pub ended : Bool

-- A request; `none` is a payload that does not unmarshal. Sizes on the wire are 32 bits wide.
pub data Request : Type 0 where
  pty_req : Option (Text × ℕ × ℕ) → Request
  window_change : Option (ℕ × ℕ) → Request
  shell : Request
  exec : Option Text → Request
  subsystem : Option Text → Request
  other : Text → Request

unfoldable pub new_channel : Channel
new_channel = record {
  shell = none;
  win_cols = 80;
  win_rows = 24;
  term = codes "xterm";
  started = false;
  sftp = false;
  hung_up = [];
  ended = false;
}

abbrev pub uint16 : ℕ → ℕ
uint16 n = n % 2 ^ 16

-- The shell in the variable, if there is one.
abbrev pub shells : Option Process → List Process
shells none = []
shells (some p) = p ∷ []

-- The deferred function at the head: it calls `Terminate` on the shell in the variable, if there is
-- one, and closes the channel.
unfoldable pub finish : Channel → Channel
finish ch = record ch { hung_up = ch.hung_up ++ shells ch.shell; ended = true }

resize : ℕ → ℕ → Option Process → Option Process
resize cols rows none = none
resize cols rows (some p) = some (record p { cols = cols; rows = rows })

-- `start`: a channel is started at most once, whether or not the shell comes up.
unfoldable pub start : Channel → Text → Bool → Channel × Bool
start ch command up =
    if ch.started
    then (ch, false)
    else if up
    then (
      record ch {
        started = true;
        shell =
            some (record {
              command = command;
              term = ch.term;
              cols = ch.win_cols;
              rows = ch.win_rows;
            });
      },
      true,
    )
    else (record ch { started = true }, false)

-- `startSFTP`
unfoldable pub start_sftp : Channel → Bool → Channel × Bool
start_sftp ch up =
    if ch.started
    then (ch, false)
    else if up
    then (record ch { started = true; sftp = true }, true)
    else (record ch { started = true }, false)

set_pty : Channel → Option (Text × ℕ × ℕ) → Channel
set_pty ch none = ch
set_pty ch (some (term, cols, rows)) = record ch {
  term = term;
  win_cols = uint16 cols;
  win_rows = uint16 rows;
}

set_window : Channel → Option (ℕ × ℕ) → Channel
unfolding resize
set_window ch none = ch
set_window ch (some (cols, rows)) = record ch {
  win_cols = uint16 cols;
  win_rows = uint16 rows;
  shell = resize (uint16 cols) (uint16 rows) ch.shell;
}

-- A file server that cannot start ends the session.
after_sftp : Channel × Bool → Channel × Option Bool
unfolding finish
after_sftp (ch, true) = (ch, some true)
after_sftp (ch, false) = (finish ch, some false)

abbrev answer : Channel × Bool → Channel × Option Bool
answer (ch, ok) = (ch, some ok)

start_exec : Channel → Option Text → Bool → Channel × Option Bool
start_exec ch none up = (ch, some false)
start_exec ch (some command) up = answer (start ch command up)

start_subsystem : Channel → Option Text → Bool → Channel × Option Bool
unfolding after_sftp
start_subsystem ch none up = (ch, some false)
start_subsystem ch (some name) up =
    if name == codes "sftp" then after_sftp (start_sftp ch up) else (ch, some false)

-- The body of the loop: the channel afterwards, and what a client that wants a reply is told.
unfoldable pub handle : Channel → Request → Bool → Channel × Option Bool
unfolding set_pty set_window start_exec start_subsystem
handle ch (pty_req p) up = (set_pty ch p, some true)
handle ch (window_change w) up = (set_window ch w, none)
handle ch shell up = answer (start ch [] up)
handle ch (exec e) up = start_exec ch e up
handle ch (subsystem s) up = start_subsystem ch s up
handle ch (other kind) up = (ch, some false)

-- The loop over the requests, each with the answer of the system; the end of the requests, like a
-- return, runs the deferred function. The replies come in order.
unfoldable pub serve : Channel → List (Request × Bool) → Channel × List (Option Bool)
serve ch [] = (finish ch, [])
serve ch ((req, up) ∷ reqs) =
    let (next, reply) = handle ch req up in
    let (last, replies) = serve next reqs in
    if next.ended then (next, reply ∷ []) else (last, reply ∷ replies)

second_shell_refused :
    (serve new_channel ((shell, true) ∷ (shell, true) ∷ [])).1 ≡ some true ∷ some false ∷ []
unfolding serve handle start new_channel finish
second_shell_refused = refl
