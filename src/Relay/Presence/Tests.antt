-- ===== src/Relay/Presence/Tests.antt =====
-- The presence registry at concrete values.
use wzp.Common.{List, [], ◌∷◌, none, some}
use wzp.Relay.Presence.{PresenceRegistry, new_presence, register_local, update_peer}
use wzp.Relay.Presence.Backed.{
  Op, joins, leaves, hears, expires, apply_all, IsBacked, apply_all_new-IsBacked,
}

-- A user moves from one peer to another, and the first one falls silent.
abbrev moves : List Op
moves =
    joins "alice" none (some "room") 1
    ∷ hears 7 ("bob" ∷ "carol" ∷ []) 10
    ∷ hears 8 ("bob" ∷ []) 20
    ∷ leaves "alice"
    ∷ expires 15
    ∷ []

apply_all_new-IsBacked_example : IsBacked (apply_all new_presence moves)
apply_all_new-IsBacked_example = apply_all_new-IsBacked moves

abbrev registry : PresenceRegistry
registry = update_peer (register_local new_presence "alice" none none 1) 7 ("bob" ∷ "carol" ∷ []) 10
