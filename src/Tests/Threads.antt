-- ===== src/Tests/Threads.antt =====
-- Two places, a thread that inserts and one that removes.
use Prim.{tt}
use system_software.Prelude.{◌≡◌, ◌≤◌, refl, List, [], ◌∷◌, ◌++◌, some, length}
use system_software.Prelude.Int.{pos}
use system_software.Threaded.Sbuf.{
  Waiting, Sbuf, insert_slots, insert_mutex, insert_write, insert_post, remove_items, advance, put,
  System, moves, Run, stay, then, mutex_init, Begins, cleared,
}
use system_software.Threaded.Sbuf.Balance.{holding, total}
use system_software.Threaded.Sbuf.Room.{IsRoom}
use system_software.Threaded.Sbuf.Queue.{Contents, Effect, advance_refines}
use system_software.Threaded.Sbuf.Runs.{written, taken, AllBegin, Run-fifo}

abbrev client : Waiting
client = record { connfd = pos 5; clientaddr = [] }

abbrev begin : System
begin = record { sbuf = mutex_init 2; threads = insert_slots client ∷ remove_items ∷ [] }

abbrev slot_taken : System
slot_taken = record {
  sbuf = record (mutex_init 2) { empty_slots = 1 };
  threads = insert_mutex client ∷ remove_items ∷ [];
}

abbrev writing : System
writing = record {
  sbuf = record (mutex_init 2) { empty_slots = 1; mutex = 0 };
  threads = insert_write client ∷ remove_items ∷ [];
}

abbrev wrote : Sbuf
wrote = record (mutex_init 2) {
  empty_slots = 1;
  mutex = 0;
  rear = 1;
  waiting_connfd = cleared ∷ client ∷ [];
}

abbrev filled_one : System
filled_one = record { sbuf = wrote; threads = insert_post client ∷ remove_items ∷ [] }

write_step : advance (insert_write client) writing.sbuf ≡ some (insert_post client, wrote)
unfolding advance put
write_step = refl

three_steps : Run begin filled_one
unfolding advance put
three_steps =
    then begin writing filled_one
      (then begin slot_taken writing
        (then begin begin slot_taken (stay begin)
          (moves begin 0 (insert_slots client) (insert_mutex client) slot_taken.sbuf refl refl))
        (moves slot_taken 0 (insert_mutex client) (insert_write client) writing.sbuf refl refl))
      (moves writing 0 (insert_write client) (insert_post client) wrote refl refl)

Run-fifo_example :
    (total holding filled_one.threads ≤ 1)
    × ((q : List Waiting) × Contents wrote q
        × (length q ≤ 2)
        × (written three_steps ≡ taken three_steps ++ q))
unfolding AllBegin Begins
Run-fifo_example =
    Run-fifo 2 (insert_slots client ∷ remove_items ∷ []) filled_one (tt, (tt, tt)) three_steps

writing-IsRoom : IsRoom writing
writing-IsRoom = record { exclusive = refl; level = refl; room = refl; size = refl }

advance_refines_example :
    IsRoom filled_one
    × ((r : List Waiting) × Contents wrote r
        × Effect (insert_write client) (insert_post client) [] r)
advance_refines_example =
    advance_refines writing [] 0 (insert_write client) (insert_post client) wrote writing-IsRoom
      (record { between = refl; held = tt }) refl write_step
