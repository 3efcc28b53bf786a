-- ===== src/Door.antt =====
-- The slots of cmd/proxy/main.go and `takeConn`, which bounds the connections in flight on a
-- listener and turns away a source that keeps failing to authenticate. Connections come and go on
-- goroutines of their own, so a history is a sequence of the single accesses that they make.
pub mod Semaphore
pub mod Bounded
use multi_ssh.Base.{
  ℕ, ◌+◌, ◌*◌, ◌^◌, ◌≡◌, refl, Bool, true, false, List, [], ◌∷◌, Option, none, some, Text, text_eq,
  nat_eq, Dict, lookup, insert, delete, holds, ltb, leb, if◌then◌else◌,
}
use multi_ssh.Limiter.{Limiter, new_limiter, count, allow}
use Semaphore.{Slots, take, give}

abbrev pub auth_fail_window : ℕ
auth_fail_window = 5 * 60 * 10 ^ 9

abbrev pub auth_fail_burst : ℕ
auth_fail_burst = 10

-- How far a connection is that holds a slot, with the source it is counted under.
pub data Phase : Type 0 where
  -- the slot is taken, and the failures of the source are not yet looked at
  taken : Text → Phase
  -- in the handshake
  shaking : Text → Phase
  -- the handler runs
  handled : Phase
  -- the function has returned, and the deferred `give` is to come
  leaving : Phase

pub record Door : Type 0 where
  pub slots : Option Slots
  pub failures : Limiter
  -- the connections that hold a slot
  pub inside : Dict ℕ Phase

-- The single accesses that `takeConn` makes, each on its own, for the connection of a number.
pub data Event : Type 0 where
  -- `take`, for a connection that was accepted from this source
  arrives : Text → ℕ → Event
  -- `authFailures.count`, at this time
  judged : ℕ → ℕ → Event
  -- the handshake fails: `authFailures.allow`, at this time
  fails : ℕ → ℕ → Event
  -- the handshake succeeds, and the handler starts
  succeeds : ℕ → Event
  -- the handler returns
  returns : ℕ → Event
  -- the deferred `give`
  gives : ℕ → Event

enter : Door → Text → ℕ → Option (Option Slots) → Option Door
enter d peer id none = some d
enter d peer id (some s) = some (record d { slots = s; inside = insert id (taken peer) d.inside })

at_phase : Door → ℕ → Phase → Option Door
at_phase d id p = some (record d { inside = insert id p d.inside })

-- Too many recent failures of this source, or on to the handshake.
judge : Door → ℕ → ℕ → Option Phase → Option Door
unfolding at_phase
judge d now id (some (taken peer)) =
    at_phase d id
      (if leb auth_fail_burst (count d.failures now peer) then leaving else shaking peer)
judge d now id p = none

fail_from : Door → ℕ → ℕ → Option Phase → Option Door
unfolding at_phase
fail_from d now id (some (shaking peer)) =
    at_phase (record d { failures = (allow d.failures now peer).0 }) id leaving
fail_from d now id p = none

succeed : Door → ℕ → Option Phase → Option Door
unfolding at_phase
succeed d id (some (shaking peer)) = at_phase d id handled
succeed d id p = none

return_from : Door → ℕ → Option Phase → Option Door
unfolding at_phase
return_from d id (some handled) = at_phase d id leaving
return_from d id p = none

-- The slot given back; `none` is a receive that blocks.
with_slots : Door → Option (Option Slots) → Option Door
with_slots d none = none
with_slots d (some s) = some (record d { slots = s })

exit : Door → ℕ → Option Phase → Option Door
unfolding with_slots
exit d id (some leaving) = with_slots (record d { inside = delete id d.inside }) (give d.slots)
exit d id p = none

-- One access; `none` is one that cannot be made: by a connection that is not at that point, or
-- blocked.
unfoldable pub step : Door → Event → Option Door
unfolding enter judge fail_from succeed return_from exit
step d (arrives peer id) = if holds id d.inside then none else enter d peer id (take d.slots)
step d (judged now id) = judge d now id (lookup id d.inside)
step d (fails now id) = fail_from d now id (lookup id d.inside)
step d (succeeds id) = succeed d id (lookup id d.inside)
step d (returns id) = return_from d id (lookup id d.inside)
step d (gives id) = exit d id (lookup id d.inside)
