-- ===== src/Fec/DecoderBlocks.antt =====
-- crates/wzp-fec/src/block_manager.rs, the decoder's side. The hash map is a function to options,
-- the set a function to Booleans.
use wzp.Common.{
  ℕ, ◌<◌, ◌≤◌, ◌≡◌, ◌↔◌, Bool, true, false, ◌&&◌, Option, none, some, List, [], ◌∷◌, arith, ◌==◌,
  ltb, leb, if◌then◌else◌,
}
use wzp.Common.Words.{u16_mod, add16, sub16}

pub data DecoderBlockState : Type 0 where
  assembling complete expired : DecoderBlockState

-- `DecoderBlockManager`
pub record DecoderBlockManager : Type 0 where
  pub blocks : ℕ → Option DecoderBlockState
  pub completed : ℕ → Bool

unfoldable pub new_manager : DecoderBlockManager
new_manager = record { blocks = λ j. none; completed = λ j. false }

abbrev or_assembling : Option DecoderBlockState → Option DecoderBlockState
or_assembling none = some assembling
or_assembling (some s) = some s

unfoldable pub touch : DecoderBlockManager → ℕ → DecoderBlockManager
touch m id = record m { blocks = λ j. if j == id then or_assembling (m.blocks j) else m.blocks j }

unfoldable pub mark_complete : DecoderBlockManager → ℕ → DecoderBlockManager
mark_complete m id = record {
  blocks = λ j. if j == id then some complete else m.blocks j;
  completed = λ j. if j == id then true else m.completed j;
}

unfoldable pub mark_expired : DecoderBlockManager → ℕ → DecoderBlockManager
mark_expired m id = record {
  blocks = λ j. if j == id then some expired else m.blocks j;
  completed = λ j. if j == id then false else m.completed j;
}

abbrev pub is_block_complete : DecoderBlockManager → ℕ → Bool
is_block_complete m id = m.completed id

abbrev pub is_known : Option DecoderBlockState → Bool
is_known none = false
is_known (some s) = true

-- The filter of `expire_before`, over the keys of the map.
abbrev pub is_older : ℕ → ℕ → Bool
is_older block_id id = let distance : ℕ = sub16 block_id id in ltb 0 distance && leb distance 32768

unfoldable pub expire_before : DecoderBlockManager → ℕ → DecoderBlockManager
expire_before m block_id = record {
  blocks = λ j. if is_known (m.blocks j) && is_older block_id j then some expired else m.blocks j;
  completed = λ j. if is_known (m.blocks j) && is_older block_id j then false else m.completed j;
}

abbrev keep_unless_expired : Option DecoderBlockState → Option DecoderBlockState
keep_unless_expired (some expired) = none
keep_unless_expired o = o

unfoldable pub prune_expired : DecoderBlockManager → DecoderBlockManager
prune_expired m = record m { blocks = λ j. keep_unless_expired (m.blocks j) }

pub data Op : Type 0 where
  touches completes expires expires_before : ℕ → Op
  prunes : Op

unfoldable pub apply : DecoderBlockManager → Op → DecoderBlockManager
unfolding touch mark_complete mark_expired expire_before prune_expired
apply m (touches id) = touch m id
apply m (completes id) = mark_complete m id
apply m (expires id) = mark_expired m id
apply m (expires_before id) = expire_before m id
apply m prunes = prune_expired m

unfoldable pub run : DecoderBlockManager → List Op → DecoderBlockManager
run m [] = m
run m (o ∷ os) = run (apply m o) os

-- The set of completed blocks and the map of states say the same.
abbrev pub Agrees : DecoderBlockManager → Type 0
Agrees m = (j : ℕ) → (m.completed j ≡ true) ↔ (m.blocks j ≡ some complete)

apply-Agrees : (m : DecoderBlockManager) (o : Op) → Agrees m → Agrees (apply m o)
unfolding apply
apply-Agrees m (touches id) v j = ground (arith, v j)
apply-Agrees m (completes id) v j = ground (arith, v j)
apply-Agrees m (expires id) v j = ground (arith, v j)
apply-Agrees m (expires_before id) v j = ground (arith, v j)
apply-Agrees m prunes v j = ground (arith, v j)

run-Agrees : (m : DecoderBlockManager) (os : List Op) → Agrees m → Agrees (run m os)
unfolding run
run-Agrees m [] v = v
run-Agrees m (o ∷ os) v = run-Agrees (apply m o) os (apply-Agrees m o v)

-- After any sequence of operations on a new manager a block is in the set of completed blocks
-- exactly if its state is complete.
pub run_new-Agrees : (os : List Op) → Agrees (run new_manager os)
unfolding new_manager
run_new-Agrees os = run-Agrees _ os (λ j. ground arith)

-- For u16 identifiers, `expire_before` expires a known block from one to half the circle behind
-- the given one and takes it out of the completed ones; the given block and those less than half
-- the circle ahead it leaves as they are.
pub expire_before_half :
    (m : DecoderBlockManager) (block_id d e : ℕ) (s : DecoderBlockState)
    → block_id < u16_mod
    → 0 < d
    → d ≤ 32768
    → e < 32768
    → m.blocks (sub16 block_id d) ≡ some s
    → let n = expire_before m block_id in
      (n.blocks (sub16 block_id d) ≡ some expired)
      × (is_block_complete n (sub16 block_id d) ≡ false)
      × (n.blocks (add16 block_id e) ≡ m.blocks (add16 block_id e))
      × (is_block_complete n (add16 block_id e) ≡ is_block_complete m (add16 block_id e))
unfolding expire_before
expire_before_half m block_id d e s h p q r k =
    (ground arith, ground arith, ground arith, ground arith)
