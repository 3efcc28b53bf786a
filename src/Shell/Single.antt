-- ===== src/Shell/Single.antt =====
-- What runs on a session channel of cmd/agent/main.go over a history of requests.
use multi_ssh.Base.{
  ℕ, ◌+◌, ◌≤◌, ◌≡◌, refl, ◌∙◌, Bool, true, false, List, [], ◌∷◌, length, Option, none, some,
  text_eq, if◌then◌else◌, Bool-cases, arith, inl, inr,
}
use multi_ssh.Shell.{
  Process, new_channel, Channel, Request, pty_req, window_change, shell, exec, subsystem, other,
  shells, finish, resize, start, start_sftp, set_pty, set_window, after_sftp, start_exec,
  start_subsystem, handle, serve,
}

-- Does the request ask for something to run on the channel?
abbrev pub starts : Request → Bool
starts shell = true
starts (exec e) = true
starts (subsystem s) = true
starts req = false

abbrev pub one_if : Bool → ℕ
one_if true = 1
one_if false = 0

abbrev told_yes : Option Bool → Bool
told_yes (some true) = true
told_yes reply = false

-- How many of the requests to run something were granted.
unfoldable pub granted : List (Request × Bool) → List (Option Bool) → ℕ
granted ((req, up) ∷ reqs) (reply ∷ replies) =
    let rest = granted reqs replies in if starts req then one_if (told_yes reply) + rest else rest
granted reqs replies = 0

-- Nothing runs on a channel that is not started, and a shell and the file server never share one.
pub record IsSingle (ch : Channel) : Type 0 where
  pub idle : ch.started ≡ false → (ch.shell ≡ none) × (ch.sftp ≡ false)
  pub apart : ch.sftp ≡ true → ch.shell ≡ none

handle_grants :
    (ch : Channel) (req : Request) (up : Bool)
    → (if starts req then one_if (told_yes (handle ch req up).1) else 0) + one_if ch.started
      ≤ one_if (handle ch req up).0.started
unfolding handle start start_sftp set_pty set_window start_exec start_subsystem after_sftp finish
handle_grants ch (pty_req none) up = ground arith
handle_grants ch (pty_req (some p)) up = ground arith
handle_grants ch (window_change none) up = ground arith
handle_grants ch (window_change (some w)) up = ground arith
handle_grants ch shell up = ground arith
handle_grants ch (exec none) up = ground arith
handle_grants ch (exec (some e)) up = ground arith
handle_grants ch (subsystem none) up = ground arith
handle_grants ch (subsystem (some s)) up = ground arith
handle_grants ch (other kind) up = ground arith

handle-IsSingle :
    (ch : Channel) (req : Request) (up : Bool) → IsSingle ch → IsSingle (handle ch req up).0
unfolding handle start start_sftp set_pty set_window start_exec start_subsystem after_sftp finish
    resize
handle-IsSingle ch (pty_req none) up h = h
handle-IsSingle ch (pty_req (some p)) up h = record { idle = h.idle; apart = h.apart }
handle-IsSingle ch (window_change none) up h = h
handle-IsSingle ch (window_change (some w)) up h = record {
  idle = λ e. ground (arith, h.idle);
  apart = λ e. ground (arith, h.apart);
}
handle-IsSingle ch shell up h = record {
  idle = λ e. ground (arith, h.idle);
  apart = λ e. ground (arith, h.apart, h.idle);
}
handle-IsSingle ch (exec none) up h = h
handle-IsSingle ch (exec (some e)) up h = record {
  idle = λ e. ground (arith, h.idle);
  apart = λ e. ground (arith, h.apart, h.idle);
}
handle-IsSingle ch (subsystem none) up h = h
handle-IsSingle ch (subsystem (some s)) up h = record {
  idle = λ e. ground (arith, h.idle);
  apart = λ e. ground (arith, h.apart, h.idle);
}
handle-IsSingle ch (other kind) up h = h

granted_none : (reqs : List (Request × Bool)) → granted reqs [] ≡ 0
unfolding granted
granted_none [] = refl
granted_none (req ∷ reqs) = refl

-- However many requests a client sends, at most one of those that ask for a shell, a command or the
-- file server is granted, and none on a channel that was started before.
pub granted_bound :
    (ch : Channel) (reqs : List (Request × Bool))
    → granted reqs (serve ch reqs).1 + one_if ch.started ≤ 1
unfolding serve granted
granted_bound ch [] = ground arith
granted_bound ch ((req, up) ∷ reqs) =
    ground
      (arith, handle_grants ch req up, granted_bound (handle ch req up).0 reqs, granted_none reqs)

-- Does the request ask for a shell or a command?
abbrev pub runs_shell : Request → Bool
runs_shell shell = true
runs_shell (exec e) = true
runs_shell req = false

-- How many requests for a shell or a command were granted.
unfoldable pub shells_granted : List (Request × Bool) → List (Option Bool) → ℕ
shells_granted ((req, up) ∷ reqs) (reply ∷ replies) =
    let rest = shells_granted reqs replies in
    if runs_shell req then one_if (told_yes reply) + rest else rest
shells_granted reqs replies = 0

-- No shell is hung up before the loop is over, and the one in the variable is then.
record IsHeld (ch : Channel) : Type 0 where
  single : IsSingle ch
  live : ch.ended ≡ false → ch.hung_up ≡ []
  over : ch.ended ≡ true → ch.hung_up ≡ shells ch.shell

handle_live :
    (ch : Channel) (req : Request) (up : Bool)
    → ch.hung_up ≡ []
    → (handle ch req up).0.ended ≡ false
    → (handle ch req up).0.hung_up ≡ []
unfolding handle start start_sftp set_pty set_window start_exec start_subsystem after_sftp finish
    resize
handle_live ch (pty_req none) up h e = ground arith
handle_live ch (pty_req (some p)) up h e = ground arith
handle_live ch (window_change none) up h e = ground arith
handle_live ch (window_change (some w)) up h e = h
handle_live ch shell up h e = ground arith
handle_live ch (exec none) up h e = ground arith
handle_live ch (exec (some c)) up h e = ground arith
handle_live ch (subsystem none) up h e = ground arith
handle_live ch (subsystem (some s)) up h e = ground arith
handle_live ch (other kind) up h e = ground arith

handle_over :
    (ch : Channel) (req : Request) (up : Bool)
    → ch.ended ≡ false
    → ch.hung_up ≡ []
    → (handle ch req up).0.ended ≡ true
    → (handle ch req up).0.hung_up ≡ shells (handle ch req up).0.shell
unfolding handle start start_sftp set_pty set_window start_exec start_subsystem after_sftp finish
    resize
handle_over ch (pty_req none) up live h e = ground arith
handle_over ch (pty_req (some p)) up live h e = ground arith
handle_over ch (window_change none) up live h e = ground arith
handle_over ch (window_change (some w)) up live h e = ground arith
handle_over ch shell up live h e = ground arith
handle_over ch (exec none) up live h e = ground arith
handle_over ch (exec (some c)) up live h e = ground arith
handle_over ch (subsystem none) up live h e = ground arith
handle_over ch (subsystem (some s)) up live h e = ground arith
handle_over ch (other kind) up live h e = ground arith

shells-resize :
    (cols rows : ℕ) (o : Option Process) → length (shells (resize cols rows o)) ≡ length (shells o)
unfolding resize
shells-resize cols rows none = refl
shells-resize cols rows (some p) = refl

one_shell_more :
    (ch : Channel) (req : Request) (up : Bool)
    → IsSingle ch
    → length (shells (handle ch req up).0.shell)
      ≡ (if runs_shell req then one_if (told_yes (handle ch req up).1) else 0)
        + length (shells ch.shell)
unfolding handle start start_sftp set_pty set_window start_exec start_subsystem after_sftp finish
one_shell_more ch (pty_req none) up h = ground arith
one_shell_more ch (pty_req (some p)) up h = ground arith
one_shell_more ch (window_change none) up h = ground arith
one_shell_more ch (window_change (some w)) up h = shells-resize _ _ ch.shell ∙ omega arith
one_shell_more ch shell up h = ground (arith, h.idle)
one_shell_more ch (exec none) up h = ground arith
one_shell_more ch (exec (some c)) up h = ground (arith, h.idle)
one_shell_more ch (subsystem none) up h = ground arith
one_shell_more ch (subsystem (some s)) up h = ground arith
one_shell_more ch (other kind) up h = ground arith

handle-IsHeld :
    (ch : Channel) (req : Request) (up : Bool)
    → ch.ended ≡ false
    → IsHeld ch
    → IsHeld (handle ch req up).0
handle-IsHeld ch req up e h = record {
  single = handle-IsSingle ch req up h.single;
  live = handle_live ch req up (h.live e);
  over = handle_over ch req up e (h.live e);
}

shells_granted_none : (reqs : List (Request × Bool)) → shells_granted reqs [] ≡ 0
unfolding shells_granted
shells_granted_none [] = refl
shells_granted_none (req ∷ reqs) = refl

serve_counts :
    (ch : Channel) (reqs : List (Request × Bool))
    → ch.ended ≡ false
    → IsHeld ch
    → length (serve ch reqs).0.hung_up
      ≡ shells_granted reqs (serve ch reqs).1 + length (shells ch.shell)
unfolding serve finish shells_granted
serve_counts ch [] e h = rw (h.live e) (omega arith)
serve_counts ch ((req, up) ∷ reqs) e h =
    let next = handle-IsHeld ch req up e h in
    let more = one_shell_more ch req up h.single in
    elim (Bool-cases (handle ch req up).0.ended) [
      | inl over ↦ rw over (ground (arith, next.over over, shells_granted_none reqs))
      | inr on ↦ rw on (ground (arith, serve_counts (handle ch req up).0 reqs on next))
    ]

new_channel-IsHeld : IsHeld new_channel
unfolding new_channel
new_channel-IsHeld = record {
  single = record { idle = λ e. (refl, refl); apart = λ e. refl };
  live = λ e. refl;
  over = λ e. refl;
}

-- When the loop of a session is over, whatever ended it, `Terminate` has been called as many times as
-- a request for a shell or a command was granted: no shell that was started is forgotten.
pub serve_terminates :
    (reqs : List (Request × Bool))
    → length (serve new_channel reqs).0.hung_up ≡ shells_granted reqs (serve new_channel reqs).1
serve_terminates reqs =
    let e : new_channel.ended ≡ false = unfold new_channel in refl in
    let i : new_channel.shell ≡ none = unfold new_channel in refl in
    serve_counts new_channel reqs e new_channel-IsHeld ∙ rw i (omega arith)
