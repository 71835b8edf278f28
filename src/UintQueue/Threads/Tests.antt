-- ===== src/UintQueue/Threads/Tests.antt =====
-- Reachable states by evaluation: a schedule of entries and accesses, played from a new queue.
use substance_3d_connector.Base.{
  ℕ, ◌+◌, ◌<◌, ◌≡◌, refl, ◌&&◌, if◌then◌else◌, List, [], ◌∷◌, ◌++◌, arith, length, drop, Bool-cases,
  inl, inr, ℕ_discrete,
}
use substance_3d_connector.UintQueue.{Pc, push_start, pop_start, push_store}
use substance_3d_connector.UintQueue.Threads.Defs.{
  System, init, Reach, start, later, begin, move, after, entry, returned, update, advance,
}
use substance_3d_connector.UintQueue.Threads.Fifo.{threads_fifo}

data Act : Type 0 where
  enter : ℕ → Pc → Act
  go : ℕ → Act

turn : System → Act → System
turn s (enter i p) = if returned (s.pc i) && entry p then record s { pc = update s.pc i p } else s
turn s (go i) = if returned (s.pc i) then s else after s i

play : System → List Act → System
unfolding turn
play s [] = s
play s (a ∷ as') = play (turn s a) as'

turn-Reach : {n : ℕ} (s : System) (a : Act) → Reach n s → Reach n (turn s a)
unfolding turn
turn-Reach s (enter i p) r = elim (Bool-cases (returned (s.pc i))) [
  | inl out ↦ elim (Bool-cases (entry p)) [
    | inl ok ↦ rw (out, ok) (later r (begin i p out ok))
    | inr bad ↦ rw (out, bad) r
  ]
  | inr inside ↦ rw inside r
]
turn-Reach s (go i) r = elim (Bool-cases (returned (s.pc i))) [
  | inl out ↦ rw out r
  | inr inside ↦ rw inside (later r (move i inside))
]

play-Reach : {n : ℕ} (s : System) (l : List Act) → Reach n s → Reach n (play s l)
unfolding play
play-Reach s [] r = r
play-Reach s (a ∷ l) r = play-Reach (turn s a) l (turn-Reach s a r)

-- Two threads race for the first ticket; thread 1 wins it, and thread 0 gets the next.
abbrev race : List Act
race =
    enter 0 (push_start 7)
    ∷ enter 1 (push_start 8)
    ∷ go 0
    ∷ go 1
    ∷ go 0
    ∷ go 1
    ∷ go 1
    ∷ go 0
    ∷ go 0
    ∷ go 0
    ∷ go 0
    ∷ []

-- Both commit, and thread 2 pops.
abbrev whole : List Act
whole =
    race ++ (go 0 ∷ go 0 ∷ go 1 ∷ go 1 ∷ go 0 ∷ enter 2 pop_start ∷ go 2 ∷ go 2 ∷ go 2 ∷ go 2 ∷ [])

race_claims :
    ((play (init 4) race).pc 0 ≡ push_store 7 1) × ((play (init 4) race).pc 1 ≡ push_store 8 0)
unfolding play ℕ_discrete advance
race_claims = (refl, refl)

whole_pops : (play (init 4) whole).shared.popped ≡ 8 ∷ []
unfolding play ℕ_discrete advance
whole_pops = refl

threads_fifo_example :
    let s = (play (init 4) whole).shared in
    (s.popped ++ drop (length s.popped) s.pushed ≡ s.pushed)
    × (length s.pushed < length s.popped + 4)
unfolding play ℕ_discrete advance
threads_fifo_example =
    threads_fifo {size = 4} {s = play (init 4) whole} (omega arith)
      (play-Reach (init 4) whole start) (omega arith)
