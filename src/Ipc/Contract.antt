-- ===== src/Ipc/Contract.antt =====
-- What a mailbox promises: a slot that is empty or holds a sender and a message.
use aion_so.Base.{ℕ, Option, none, some, List, ◌++◌, if◌then◌else◌, ltb, ◌==◌, length, drop}

abbrev pub Letter : Type 0
Letter = ℕ × List ℕ

-- A letter goes into an empty slot, if it says something and is at most `room` long.
abbrev pub post : ℕ → Option Letter → Letter → Option Letter
post room slot (sender, message) =
    if length message == 0
    then slot
    else if ltb room (length message)
    then slot
    else elim slot [ some old ↦ some old | none ↦ some (sender, message) ]

-- A reader with room for the letter empties the slot, and one without leaves it.
abbrev pub fetch : Option Letter → ℕ → Option Letter
fetch none room = none
fetch (some (sender, message)) room =
    if ltb room (length message) then some (sender, message) else none

abbrev pub read : Option Letter → List ℕ → List ℕ
read none into = into
read (some (sender, message)) into =
    if ltb (length into) (length message) then into else message ++ drop (length message) into
