-- ===== src/Vm/Tests.antt =====
-- runtime/pullrun-vm: a pool of one that both tasks fill, and a command with quotes.
use pullrun.Base.{◌*◌, ◌≤◌, ◌≡◌, refl, true, some, List, [], ◌∷◌, ◌++◌, length, arith}
use pullrun.Base.Words.{Bytes}
use pullrun.Vm.Quote.{blank, exec_args, sh_words, sh_words-exec_args}
use pullrun.Vm.Pool.{VmPool, initial_task, looping_task, begin_refill, refill_round, acquire}
use pullrun.Vm.Pool.Reach.{Reach, start, step, acquires, begins, boots, empty, Reach-length}
use pullrun.Vm.Pool.Order.{Rising, Reach-Rising}

abbrev asked : VmPool
asked = begin_refill looping_task (begin_refill initial_task (empty 1))

abbrev filled : VmPool
filled = refill_round looping_task true (refill_round initial_task true asked)

asked-Reach : Reach 1 asked
unfolding begin_refill
asked-Reach =
    step _ _ (step _ _ start (begins initial_task (empty 1) refl))
      (begins looping_task (begin_refill initial_task (empty 1)) refl)

filled-Reach : Reach 1 filled
unfolding begin_refill refill_round
filled-Reach =
    step _ _ (step _ _ asked-Reach (boots initial_task true asked (omega arith)))
      (boots looping_task true (refill_round initial_task true asked) (omega arith))

Reach-length_example : length filled.pool ≤ 2 * 1
Reach-length_example = Reach-length 1 filled filled-Reach

Reach-Rising_example :
    Rising 0 (acquire filled).1.next ((acquire filled).1.acquired ++ (acquire filled).1.pool)
Reach-Rising_example =
    Reach-Rising 1 (acquire filled).1
      (step filled (acquire filled).1 filled-Reach (acquires filled))

-- `echo` and `a'; b`
abbrev command : List Bytes
command = (b'e' ∷ b'c' ∷ b'h' ∷ b'o' ∷ []) ∷ (b'a' ∷ 39 ∷ b';' ∷ 32 ∷ b'b' ∷ []) ∷ []

sh_words-exec_args_example : sh_words blank [] (exec_args command) ≡ some command
sh_words-exec_args_example = sh_words-exec_args command
