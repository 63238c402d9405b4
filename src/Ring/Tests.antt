-- ===== src/Ring/Tests.antt =====
-- The ring of Buffer.h at concrete bytes, and the theorems at rings that meet their hypotheses.
use rio_network.Base.{ℕ, ◌≡◌, refl, true, List, [], ◌∷◌, arith, pos}
use rio_network.Fifo
use rio_network.Ring.{Ring, get_data_length, put_data, can_put_data, store, check_split}
use rio_network.Ring.Contents.{IsValid, contents}
use rio_network.Ring.Run.{Call, put, peek, pop, can_put, room, run, run_fifo, run_refines}

-- Bytes 8 and 9 at the end of the memory, and 5 at its start.
abbrev bent : Ring
bent = record { buffer = 5 ∷ 0 ∷ 0 ∷ 8 ∷ 9 ∷ []; buf_size = 5; head_pos = 3; tail_pos = 1 }

abbrev flat : Ring
flat = record { buffer = 0 ∷ 0 ∷ 8 ∷ 9 ∷ 0 ∷ []; buf_size = 5; head_pos = 2; tail_pos = 4 }

bent-IsValid : IsValid bent
bent-IsValid = omega arith

flat-IsValid : IsValid flat
flat-IsValid = omega arith

contents-bent : contents bent ≡ 8 ∷ 9 ∷ 5 ∷ []
unfolding contents get_data_length
contents-bent = refl

put_data-flat :
    put_data flat (1 ∷ 2 ∷ []) (pos 2)
    ≡ (record flat { buffer = 2 ∷ 0 ∷ 8 ∷ 9 ∷ 1 ∷ []; tail_pos = 1 }, true)
unfolding put_data can_put_data get_data_length store check_split
put_data-flat = refl

abbrev memory : List ℕ
memory = 7 ∷ 7 ∷ 7 ∷ 7 ∷ 7 ∷ 7 ∷ 7 ∷ 7 ∷ 7 ∷ 7 ∷ []

abbrev script : List Call
script = put (1 ∷ 2 ∷ []) ∷ peek 3 ∷ pop 2 ∷ can_put 2 ∷ put (3 ∷ []) ∷ room ∷ []

run_refines_example : run flat script ≡ run_fifo 5 (contents flat) script
unfolding contents get_data_length Fifo.put Fifo.pop
run_refines_example = run_refines script flat-IsValid (omega arith, tt)
