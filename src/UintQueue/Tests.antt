-- ===== src/UintQueue/Tests.antt =====
-- Runs of the queue, and the theorems about it at concrete inputs.
use substance_3d_connector.Base.{
  ◌≡◌, ◌≢◌, refl, inr, true, false, [], ◌∷◌, none, some, arith, replicate,
}
use substance_3d_connector.Retcode.{Retcode}
use substance_3d_connector.UintQueue.{
  UintQueue, fresh, push_to, create, push, pop, run, live, freed, null, pop_start, pop_done,
}
use substance_3d_connector.UintQueue.Fifo
use substance_3d_connector.UintQueue.Inv.{IsQuiet, contents}
use substance_3d_connector.UintQueue.Calls.{push_refines, pop_refines, run-pop}
use substance_3d_connector.UintQueue.Create.{create-failure_dangles, pop_blind_at_wrap}

-- Four slots, the elements 8 and 9 round the end of the array.
abbrev wrapped : UintQueue
wrapped = record {
  write_index = 9;
  read_index = 7;
  max_index = 9;
  size = 4;
  array = 9 ∷ 0 ∷ 0 ∷ 8 ∷ [];
}

wrapped-IsQuiet : IsQuiet wrapped
wrapped-IsQuiet = record {
  committed = refl;
  ordered = omega arith;
  room = omega arith;
  storage = refl;
  small = omega arith;
}

slots_of_the_core : create true true 32 ≡ live (fresh 34)
unfolding create
slots_of_the_core = refl

push_then_pop : (pop (push wrapped 5).1).1 ≡ some 8
unfolding push pop
push_then_pop = refl

full_at_three : (push (push (push wrapped 5).1 6).1 7).0 ≡ Retcode.error
unfolding push
full_at_three = refl

push_refines_example :
    let (code, q') = push wrapped 5 in
    ((code, contents q') ≡ Fifo.push 3 (8 ∷ 9 ∷ []) 5) × IsQuiet q'
push_refines_example = push_refines wrapped-IsQuiet 5 (omega arith)

pop_refines_example :
    let (code, out, q') = pop wrapped in
    ((code, out, contents q') ≡ Fifo.pop (8 ∷ 9 ∷ [])) × IsQuiet q'
pop_refines_example = pop_refines wrapped-IsQuiet

run-pop_example : run 4 pop_start wrapped ≡ (pop_done Retcode.success (some 8), (pop wrapped).2)
unfolding pop
run-pop_example = run-pop wrapped-IsQuiet

create-failure_dangles_example : (create true false 32 ≡ freed) × (create true false 32 ≢ null)
create-failure_dangles_example = create-failure_dangles false 32 (inr refl)

-- 34 slots, ten elements before the wrap and eight after it.
abbrev straddling : UintQueue
straddling = record {
  write_index = 8;
  read_index = 4294967286;
  max_index = 8;
  size = 34;
  array = replicate 34 1;
}

pop_blind_at_wrap_example : pop straddling ≡ (Retcode.error, none, straddling)
pop_blind_at_wrap_example =
    pop_blind_at_wrap straddling 10 8 (omega arith) (omega arith) refl refl 126322567 (omega arith)

-- A push through a null pointer is invalid, and one into an empty queue puts its element there.
push_to_null : push_to none 7 ≡ (Retcode.invalid, none)
unfolding push_to
push_to_null = refl

push_to-fresh : push_to (some (fresh 4)) 7 ≡ (Retcode.success, some (push (fresh 4) 7).1)
unfolding push_to push
push_to-fresh = refl
