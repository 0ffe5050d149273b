-- ===== src/Examples/Converting.antt =====
-- The two FIFOs of exercise3/question-2.c, from both ends.
use course_code.Base.{List, [], ◌∷◌}
use course_code.Posix.Call.{Reply, done}

-- "Hi" and a newline come, and "hi" comes back.
abbrev handing : List Reply
handing =
    done 3 (72 ∷ 105 ∷ 10 ∷ [])
    ∷ done 3 []
    ∷ done 90 []
    ∷ done 3 (104 ∷ 105 ∷ 10 ∷ [])
    ∷ done 3 []
    ∷ done 0 []
    ∷ done 0 []
    ∷ done 0 []
    ∷ done 0 []
    ∷ []

-- The child opens both FIFOs, puts them in place of its standard streams, and becomes the converter.
abbrev turning : List Reply
turning = done 5 [] ∷ done 6 [] ∷ done 0 [] ∷ done 0 [] ∷ done 1 [] ∷ done 0 [] ∷ done 0 [] ∷ []

abbrev lowering : List Reply
lowering = done 3 (72 ∷ 105 ∷ 10 ∷ []) ∷ done 3 [] ∷ []
