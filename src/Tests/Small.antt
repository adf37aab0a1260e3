-- ===== src/Tests/Small.antt =====
-- Runs of the configuration tests and of the command line.
use aether_stream.Common.{arith, ◌≡◌, refl, true, [], ◌∷◌}
use aether_stream.Utils.{make, pause, wait, relaxes, yields, thread_name}
use aether_stream.Utils.Backoff.{hints, hints_agree}

hints_agree_example : hints pause 3 (make 2 true) ≡ hints wait 3 (make 2 true)
hints_agree_example = hints_agree 2 3 true (omega arith) (omega arith)

hints_test : hints pause 3 (make 2 true) ≡ relaxes ∷ relaxes ∷ yields ∷ []
unfolding pause
hints_test = refl

-- A name of five characters in a buffer of four.
thread_name_test : thread_name 4 (1 ∷ 2 ∷ 3 ∷ 4 ∷ 5 ∷ []) ≡ 1 ∷ 2 ∷ 3 ∷ 0 ∷ []
unfolding thread_name
thread_name_test = refl
