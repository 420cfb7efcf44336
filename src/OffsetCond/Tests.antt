-- ===== src/OffsetCond/Tests.antt =====
-- Runs of the code of internal/sebtopic/offsetcond.go, and its theorems at concrete inputs.
use simple_commit_log.Base.{◌<◌, ◌≡◌, refl, List, [], ◌∷◌, arith}
use simple_commit_log.OffsetCond.{
  Call, waits, broadcasts, step, run, start, wait, broadcast, broadcast_loop,
}
use simple_commit_log.OffsetCond.Broadcasts.{has}
use simple_commit_log.OffsetCond.Runs.{IsSound, run-start-IsSound}
use simple_commit_log.OffsetCond.Release.{reached, wait_released}

abbrev calls : List Call
calls = waits 5 ∷ waits 2 ∷ broadcasts 3 ∷ []

-- The second caller is released, the first still waits.
calls-closed : (run (start 0) calls).closed ≡ 1 ∷ []
unfolding run step wait broadcast broadcast_loop start
calls-closed = refl

run-start-IsSound_example : IsSound (run (start 0) calls)
run-start-IsSound_example = run-start-IsSound 0 calls

abbrev later : List Call
later = broadcasts 3 ∷ waits 1 ∷ broadcasts 8 ∷ []

below : (run (start 0) (broadcasts 3 ∷ [])).cond.current_offset < 7
unfolding run step broadcast broadcast_loop start
below = omega arith

wait_released_example :
    has
      (run (start 0) (broadcasts 3 ∷ [])).next_ch
      (run (step (run (start 0) (broadcasts 3 ∷ [])) (waits 7)) later).closed
    ≡ reached 7 later
wait_released_example = wait_released 0 7 (broadcasts 3 ∷ []) later below
