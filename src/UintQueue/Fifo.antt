-- ===== src/UintQueue/Fifo.antt =====
-- The contract of the queue: a list of at most `cap` elements, oldest first.
use substance_3d_connector.Base.{
  ℕ, List, [], ◌∷◌, ◌++◌, Option, none, some, length, ltb, if◌then◌else◌,
}
use substance_3d_connector.Retcode.{Retcode}

unfoldable pub push : ℕ → List ℕ → ℕ → Retcode × List ℕ
push cap l x = if ltb (length l) cap then (Retcode.success, l ++ (x ∷ [])) else (Retcode.error, l)

unfoldable pub pop : List ℕ → Retcode × Option ℕ × List ℕ
pop [] = (Retcode.error, none, [])
pop (x ∷ l) = (Retcode.success, some x, l)
