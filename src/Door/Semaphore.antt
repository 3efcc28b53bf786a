-- ===== src/Door/Semaphore.antt =====
-- The counting semaphore of cmd/proxy/main.go. No slots at all is the unlimited case.
use multi_ssh.Base.{ℕ, zero, suc, ◌+◌, ◌-◌, Option, none, some, Text, ltb, eqb, if◌then◌else◌}
use multi_ssh.Base.Int.{ℤ, pos, negsuc}

pub record Slots : Type 0 where
  pub cap : ℕ
  pub used : ℕ
  pub kind : Text

unfoldable pub new_slots : ℤ → Text → Option Slots
new_slots (pos zero) kind = none
new_slots (pos (suc n)) kind = some (record { cap = suc n; used = 0; kind = kind })
new_slots (negsuc n) kind = none

-- `none` is the refusal.
unfoldable pub take : Option Slots → Option (Option Slots)
take none = some none
take (some s) = if ltb s.used s.cap then some (some (record s { used = s.used + 1 })) else none

-- `none` is a receive from an empty channel, which blocks.
unfoldable pub give : Option Slots → Option (Option Slots)
give none = some none
give (some s) = if eqb s.used 0 then none else some (some (record s { used = s.used - 1 }))

unfoldable pub in_use : Option Slots → ℕ
in_use none = 0
in_use (some s) = s.used
