-- ===== src/Tests/Shared.antt =====
-- tmpdedup/: the theorem at one file, left by a failing `create`.
use scat.Prelude.{true, arith}
use scat.Prelude.Dict.{lookup, has}
use scat.Errors.{foreign}
use scat.Tmpdedup.{
  Create, fails, new_man, get, got, Steps, no_step, then_step, IsTrue, Steps-IsTrue,
}

-- The file is made, but not all is written.
abbrev half_written : Create
half_written = fails (foreign 0) true

abbrev one_attempt : Steps new_man (get new_man 5 half_written).0
one_attempt =
    then_step new_man new_man (get new_man 5 half_written).0 (no_step new_man)
      (got new_man 5 half_written)

Steps-IsTrue_example : IsTrue true 5 (get new_man 5 half_written).0
unfolding has lookup
Steps-IsTrue_example =
    Steps-IsTrue 5 one_attempt ((λ e. absurd (ground arith)), λ e. absurd (ground arith))
