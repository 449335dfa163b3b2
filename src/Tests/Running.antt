-- ===== src/Tests/Running.antt =====
-- The machine at concrete inputs.
use glyphlang.Prelude.{ℕ, ◌+◌, ◌≡◌, refl, List, [], ◌∷◌, some, ok, true, arith}
use glyphlang.Vm.Value.{Value, int, Fallible}
use glyphlang.Vm.Opcode.{opcode_of}
use glyphlang.Vm.Machine.{Vm}
use glyphlang.Vm.Step.{step, running, execute_bytecode, execute_instruction, execute_case, execute}
use glyphlang.Vm.Runs.{Runs, next, finished}
use glyphlang.Vm.Runs.Whole.{Preserved, Runs-Preserved, execute_bytecode-terminates}
use glyphlang.Tests.Samples.{sample_host, sample_vm}

-- A jump to itself, under a limit of three steps.
abbrev endless : List ℕ
endless =
    0x47 ∷ 0x4c ∷ 0x59 ∷ 0x50 ∷ 1 ∷ 0 ∷ 0 ∷ 0 ∷ 0 ∷ 0 ∷ 0 ∷ 0 ∷ 5 ∷ 0 ∷ 0 ∷ 0 ∷ 0x50 ∷ 16 ∷ 0 ∷ 0
    ∷ 0 ∷ []

abbrev limited : Vm
limited = record sample_vm { max_steps = 3 }

execute_bytecode-terminates_example :
    (r : Fallible (Value × Vm)) × (execute_bytecode sample_host (3 + 1) endless limited ≡ some r)
execute_bytecode-terminates_example =
    execute_bytecode-terminates sample_host endless limited (omega arith)

-- A machine that stands before OpHalt, and after it.
abbrev before_halt : Vm
before_halt = record sample_vm { code = 0xff ∷ []; stack = int 1 ∷ [] }

abbrev after_halt : Vm
after_halt = record before_halt { pc = 1; halted = true }

halt_step : step sample_host before_halt ≡ ok after_halt
unfolding running step execute_instruction execute_case execute opcode_of
halt_step = refl

halts : Runs sample_host before_halt (ok after_halt)
unfolding running
halts = next {w = after_halt} refl halt_step (finished after_halt)

Runs-Preserved_example : Preserved before_halt after_halt
Runs-Preserved_example = Runs-Preserved sample_host before_halt after_halt (omega arith) halts
