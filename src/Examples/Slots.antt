-- ===== src/Examples/Slots.antt =====
-- The hashes at once of cmd/proxy/enroll.go, by example.
use multi_ssh.Base.{◌++◌, [], ◌∷◌, refl, some, List, Text, arith}
use multi_ssh.Base.Int.{pos}
use multi_ssh.Base.Scanner.{newline}
use multi_ssh.Base.Strings.{codes, cut_prefix}
use multi_ssh.Enroll.Slots.{enrol_slots}
use multi_ssh.Enroll.Slots.Meminfo.{available_line, behind, IsOther, FitsHalf, enrol_slots_bounds}

abbrev before : List Text
before = codes "MemTotal: 500000 kB" ∷ []

before-IsOther : IsOther (codes "MemTotal: 500000 kB")
unfolding cut_prefix
before-IsOther = (refl, refl)

enrol_slots_bounds_example : FitsHalf 300000 (
    enrol_slots
      (pos 0)
      (some (behind before (available_line 3 300000 ++ newline ∷ codes "Buffers: 9 kB"))))
enrol_slots_bounds_example =
    enrol_slots_bounds (pos 0) before 3 300000 (codes "Buffers: 9 kB") refl (before-IsOther, tt)
      (omega arith)
