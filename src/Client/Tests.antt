-- ===== src/Client/Tests.antt =====
-- The ring of samples at concrete values.
use wzp.Common.{◌-◌, ◌≡◌, [], ◌∷◌, arith, length}
use wzp.Client.AudioRing.{new_ring, available}
use wzp.Client.AudioRing.Refinement.{writes, reads, run, stream_run, oldest, run_lem}

run_lem_example :
    ((run new_ring (writes (1 ∷ 2 ∷ 3 ∷ []) ∷ reads 2 ∷ writes (4 ∷ []) ∷ reads 9 ∷ [])).0
      ≡ (stream_run
          (record { samples = []; at = 0 })
          (writes (1 ∷ 2 ∷ 3 ∷ []) ∷ reads 2 ∷ writes (4 ∷ []) ∷ reads 9 ∷ [])).0)
    × (available
          (run new_ring (writes (1 ∷ 2 ∷ 3 ∷ []) ∷ reads 2 ∷ writes (4 ∷ []) ∷ reads 9 ∷ [])).1
        ≡ (let t =
              (stream_run
                (record { samples = []; at = 0 })
                (writes (1 ∷ 2 ∷ 3 ∷ []) ∷ reads 2 ∷ writes (4 ∷ []) ∷ reads 9 ∷ [])).1 in
            length t.samples - oldest t))
run_lem_example =
    run_lem (writes (1 ∷ 2 ∷ 3 ∷ []) ∷ reads 2 ∷ writes (4 ∷ []) ∷ reads 9 ∷ []) (omega arith)
