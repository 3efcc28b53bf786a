-- ===== src/Jump/Tunnel.antt =====
-- Where a jump (cmd/proxy/main.go) goes, and which tunnels it leaves open.
use multi_ssh.Base.{
  ℕ, ◌≡◌, ◌≢◌, refl, Bool, true, false, List, [], ◌∷◌, Option, none, some, Text, if◌then◌else◌,
  arith,
}
use multi_ssh.Registry.{Registry, get}
use multi_ssh.Jump.{
  Event, answered, timed_out, Waiting, waiting, got, refused, gave_up, Opening, new_opening, step,
  open_tunnel, Jump, no_such_target, unreachable, still_waiting, client_gone, piped, join_tunnel,
  jump_to, serve_jump,
}

abbrev pub is_got : Waiting → Bool
is_got got = true
is_got s = false

abbrev pub is_piped : Jump → Bool
is_piped (piped agent) = true
is_piped j = false

step_open :
    (s : Waiting) (e : Event) (o : Opening)
    → s ≡ o.state
    → o.is_open ≡ is_got o.state
    → (step s e o).is_open ≡ is_got (step s e o).state
unfolding step
step_open waiting (answered true) o h i = refl
step_open waiting (answered false) o h i = refl
step_open waiting timed_out o h i = refl
step_open gave_up (answered b) o h i = refl
step_open gave_up timed_out o h i = i
step_open got e o h i = i
step_open refused e o h i = i

open_tunnel_open :
    (o : Opening) (es : List Event)
    → o.is_open ≡ is_got o.state
    → (open_tunnel o es).is_open ≡ is_got (open_tunnel o es).state
unfolding open_tunnel
open_tunnel_open o [] i = i
open_tunnel_open o (e ∷ es) i =
    open_tunnel_open (step o.state e o) es (step_open o.state e o refl i)

join_open :
    (agent : ℕ) (accepts : Bool) (s : Waiting) (b : Bool)
    → b ≡ is_got s
    → (join_tunnel agent accepts s b).1 ≡ is_piped (join_tunnel agent accepts s b).0
unfolding join_tunnel
join_open agent accepts waiting b i = i
join_open agent accepts refused b i = i
join_open agent accepts gave_up b i = i
join_open agent true got b i = i
join_open agent false got b i = refl

jump_open :
    (es : List Event) (accepts : Bool) (o : Option ℕ)
    → (jump_to es accepts o).1 ≡ is_piped (jump_to es accepts o).0
unfolding jump_to new_opening
jump_open es accepts none = refl
jump_open es accepts (some agent) =
    join_open agent accepts (open_tunnel new_opening es).state (open_tunnel new_opening es).is_open
      (open_tunnel_open new_opening es refl)

-- However the agent's answer and the timeout race, a tunnel is left open by a jump exactly if it is
-- piped to the client: one that is opened too late, or whose client has gone, is closed.
pub serve_jump_open :
    (reg : Registry) (host : Option Text) (es : List Event) (accepts : Bool)
    → (serve_jump reg host es accepts).1 ≡ is_piped (serve_jump reg host es accepts).0
unfolding serve_jump
serve_jump_open reg none es accepts = refl
serve_jump_open reg (some host) es accepts = jump_open es accepts (get reg host)

-- How a jump to this agent ends if the first of what happens decides.
abbrev pub by_first : Bool → ℕ → List Event → Jump
by_first accepts agent [] = still_waiting
by_first accepts agent (timed_out ∷ es) = unreachable
by_first accepts agent (answered false ∷ es) = unreachable
by_first accepts agent (answered true ∷ es) = if accepts then piped agent else client_gone

abbrev pub by_target : (ℕ → Jump) → Option ℕ → Jump
by_target f none = no_such_target
by_target f (some agent) = f agent

open_tunnel_stays :
    (o : Opening) (s : Waiting) (es : List Event)
    → o.state ≡ s
    → s ≢ waiting
    → (open_tunnel o es).state ≡ s
unfolding open_tunnel
open_tunnel_stays o s [] h n = h
open_tunnel_stays o s (e ∷ es) h n = open_tunnel_stays (step o.state e o) s es (stays s o e h n) n
  where
    stays :
        (s : Waiting) (o : Opening) (e : Event)
        → o.state ≡ s
        → s ≢ waiting
        → (step o.state e o).state ≡ s
    stays waiting o e h n = absurd (n refl)
    stays got o e h n = rw (h, step) refl
    stays refused o e h n = rw (h, step) refl
    stays gave_up o (answered b) h n = rw (h, step) refl
    stays gave_up o timed_out h n = rw (h, step) refl

joined :
    (agent : ℕ) (accepts : Bool) (s t : Waiting) (b : Bool)
    → s ≡ t
    → (join_tunnel agent accepts s b).0 ≡ (join_tunnel agent accepts t false).0
unfolding join_tunnel
joined agent accepts s waiting b h = rw h refl
joined agent accepts s refused b h = rw h refl
joined agent accepts s gave_up b h = rw h refl
joined agent true s got b h = rw h refl
joined agent false s got b h = rw h refl

jump_to_first :
    (es : List Event) (accepts : Bool) (o : Option ℕ)
    → (jump_to es accepts o).0 ≡ by_target (λ agent. by_first accepts agent es) o
unfolding jump_to open_tunnel new_opening step join_tunnel
jump_to_first es accepts none = refl
jump_to_first [] accepts (some agent) = refl
jump_to_first (timed_out ∷ es) accepts (some agent) = joined agent accepts _ gave_up _ (
    open_tunnel_stays (record { state = gave_up; is_open = false }) gave_up es refl
      (λ e. ground arith))
jump_to_first (answered false ∷ es) accepts (some agent) = joined agent accepts _ refused _ (
    open_tunnel_stays (record { state = refused; is_open = false }) refused es refl
      (λ e. ground arith))
jump_to_first (answered true ∷ es) true (some agent) =
    joined agent true _ got _
      (open_tunnel_stays (record { state = got; is_open = true }) got es refl (λ e. ground arith))
jump_to_first (answered true ∷ es) false (some agent) =
    joined agent false _ got _
      (open_tunnel_stays (record { state = got; is_open = true }) got es refl (λ e. ground arith))

-- How a jump to a name ends, in every order of events: there is no such target if the registry has
-- no connection under the name; otherwise the first of the agent's answer and the timeout decides,
-- and whatever comes later changes nothing. Only if the agent's tunnel comes first, and the client is
-- there still, is it piped, to the connection in the registry; a refusal or the timeout first is an
-- unreachable target.
pub serve_jump_lem :
    (reg : Registry) (host : Text) (es : List Event) (accepts : Bool)
    → (serve_jump reg (some host) es accepts).0
      ≡ by_target (λ agent. by_first accepts agent es) (get reg host)
unfolding serve_jump
serve_jump_lem reg host es accepts = jump_to_first es accepts (get reg host)
