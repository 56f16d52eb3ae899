-- ===== src/AtomState.antt =====
-- base_atomos.go: the states of an atom, an element or a cosmos.
use go_atomos.Common.{Bool, true, false}

pub data AtomState : Type 0 where
  invalid spawning waiting busy stopping halt : AtomState

-- `isNotHalt`
abbrev pub is_not_halt : AtomState → Bool
is_not_halt invalid = false
is_not_halt halt = false
is_not_halt _ = true
