-- ===== src/Fec/EncoderBlocks.antt =====
-- crates/wzp-fec/src/block_manager.rs, the encoder's side. A hash map is a function to options.
use wzp.Common.{ℕ, ◌<◌, ◌≡◌, ◌≢◌, ◌↔◌, refl, Option, none, some, arith, ◌==◌, if◌then◌else◌}
use wzp.Common.Words.{u16_mod, add16}

pub data EncoderBlockState : Type 0 where
  building pending sent acknowledged : EncoderBlockState

-- `EncoderBlockManager`
pub record EncoderBlockManager : Type 0 where
  pub current_id : ℕ
  pub blocks : ℕ → Option EncoderBlockState

abbrev pub insert :
    ℕ → EncoderBlockState → (ℕ → Option EncoderBlockState) → ℕ → Option EncoderBlockState
insert k v m j = if j == k then some v else m j

unfoldable pub new_manager : EncoderBlockManager
new_manager = record { current_id = 0; blocks = insert 0 building (λ j. none) }

-- The new identifier is the current one of the result.
unfoldable pub next_block_id : EncoderBlockManager → EncoderBlockManager
next_block_id m =
    let next : ℕ = add16 m.current_id 1 in
    record {
      current_id = next;
      blocks = insert next building (insert m.current_id pending m.blocks);
    }

unfoldable pub mark_sent : EncoderBlockManager → ℕ → EncoderBlockManager
mark_sent m id = record m { blocks = insert id sent m.blocks }

unfoldable pub mark_acknowledged : EncoderBlockManager → ℕ → EncoderBlockManager
mark_acknowledged m id = record m { blocks = insert id acknowledged m.blocks }

abbrev keep_unless_acknowledged : Option EncoderBlockState → Option EncoderBlockState
keep_unless_acknowledged (some acknowledged) = none
keep_unless_acknowledged o = o

-- `retain`
unfoldable pub prune_acknowledged : EncoderBlockManager → EncoderBlockManager
prune_acknowledged m = record m { blocks = λ j. keep_unless_acknowledged (m.blocks j) }

-- What a user of the manager does.
pub data Op : Type 0 where
  next prune : Op
  send ack : ℕ → Op

unfoldable pub apply : EncoderBlockManager → Op → EncoderBlockManager
unfolding next_block_id mark_sent mark_acknowledged prune_acknowledged
apply m next = next_block_id m
apply m prune = prune_acknowledged m
apply m (send id) = mark_sent m id
apply m (ack id) = mark_acknowledged m id

-- Only finished blocks are marked: never the one being built.
abbrev pub MarksFinished : EncoderBlockManager → Op → Type 0
MarksFinished m next = Unit
MarksFinished m prune = Unit
MarksFinished m (send id) = id ≢ m.current_id
MarksFinished m (ack id) = id ≢ m.current_id

-- Exactly one block is being built: the current one.
pub record OneBuilding (m : EncoderBlockManager) : Type 0 where
  pub current_short : m.current_id < u16_mod
  pub current_builds : m.blocks m.current_id ≡ some building
  pub only_current : (j : ℕ) → m.blocks j ≡ some building → j ≡ m.current_id

pub new_manager-OneBuilding : OneBuilding new_manager
unfolding new_manager
new_manager-OneBuilding = record {
  current_short = omega arith;
  current_builds = refl;
  only_current = λ j h. ground arith;
}

keep_building :
    (o : Option EncoderBlockState)
    → (keep_unless_acknowledged o ≡ some building) ↔ (o ≡ some building)
keep_building (some acknowledged) = (λ h. absurd (ground arith), λ h. absurd (ground arith))
keep_building none = (λ h. h, λ h. h)
keep_building (some building) = (λ h. h, λ h. h)
keep_building (some _) = (λ h. h, λ h. h)

-- Where exactly one block is being built, the current one, with a u16 identifier, every operation
-- leaves it so, as long as it does not mark the current block as sent or acknowledged.
pub apply-OneBuilding :
    (m : EncoderBlockManager) (o : Op) → MarksFinished m o → OneBuilding m → OneBuilding (apply m o)
unfolding apply
apply-OneBuilding m next f v = record {
  current_short = omega arith;
  current_builds = ground arith;
  only_current = λ j h. ground (arith, v.only_current j);
}
apply-OneBuilding m prune f v = record {
  current_short = v.current_short;
  current_builds = (keep_building (m.blocks m.current_id)).1 v.current_builds;
  only_current = λ j h. v.only_current j ((keep_building (m.blocks j)).0 h);
}
apply-OneBuilding m (send id) f v = record {
  current_short = v.current_short;
  current_builds = ground (arith, v.current_builds);
  only_current = λ j h. ground (arith, v.only_current j);
}
apply-OneBuilding m (ack id) f v = record {
  current_short = v.current_short;
  current_builds = ground (arith, v.current_builds);
  only_current = λ j h. ground (arith, v.only_current j);
}
