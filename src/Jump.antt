-- ===== src/Jump.antt =====
-- `openTunnel` and `serveJump` of cmd/proxy/main.go: a user's jump to a registered agent. The agent's
-- answer and the timeout race each other, so what happens is a sequence of the two in any order.
pub mod Tunnel
use multi_ssh.Base.{
  ℕ, ◌≡◌, refl, Bool, true, false, List, [], ◌∷◌, Option, none, some, Text, if◌then◌else◌,
}
use multi_ssh.Registry.{Registry, get}

pub data Event : Type 0 where
  -- `OpenChannel` returns: with a channel, or with an error
  answered : Bool → Event
  -- `tunnelOpenTimeout` is over
  timed_out : Event

pub data Waiting : Type 0 where
  waiting got refused gave_up : Waiting

-- Where the function stands, and whether the agent's channel is open.
pub record Opening : Type 0 where
  pub state : Waiting
  pub is_open : Bool

unfoldable pub new_opening : Opening
new_opening = record { state = waiting; is_open = false }

-- The first to come decides; a channel that comes after the timeout is closed.
step : Waiting → Event → Opening → Opening
step waiting (answered true) o = record { state = got; is_open = true }
step waiting (answered false) o = record { state = refused; is_open = false }
step waiting timed_out o = record { state = gave_up; is_open = false }
step gave_up (answered b) o = record { state = gave_up; is_open = false }
step gave_up timed_out o = o
step got e o = o
step refused e o = o

unfoldable pub open_tunnel : Opening → List Event → Opening
unfolding step
open_tunnel o [] = o
open_tunnel o (e ∷ es) = open_tunnel (step o.state e o) es

-- How a jump ends.
pub data Jump : Type 0 where
  bad_payload no_such_target unreachable still_waiting client_gone : Jump
  -- the client's channel is piped to the tunnel of this connection
  piped : ℕ → Jump

-- With the tunnel's outcome: how the jump ends, and whether the tunnel is left open.
join_tunnel : ℕ → Bool → Waiting → Bool → Jump × Bool
join_tunnel agent accepts waiting b = (still_waiting, b)
join_tunnel agent accepts refused b = (unreachable, b)
join_tunnel agent accepts gave_up b = (unreachable, b)
join_tunnel agent true got b = (piped agent, b)
join_tunnel agent false got b = (client_gone, false)

jump_to : List Event → Bool → Option ℕ → Jump × Bool
unfolding join_tunnel
jump_to es accepts none = (no_such_target, false)
jump_to es accepts (some agent) =
    (let o = open_tunnel new_opening es in join_tunnel agent accepts o.state o.is_open)

-- The target is looked up in the registry only; `accepts` says whether the client's channel is there
-- still. `none` is a payload that does not unmarshal.
unfoldable pub serve_jump : Registry → Option Text → List Event → Bool → Jump × Bool
unfolding jump_to
serve_jump reg none es accepts = (bad_payload, false)
serve_jump reg (some host) es accepts = jump_to es accepts (get reg host)
