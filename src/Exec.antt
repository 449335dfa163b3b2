-- ===== src/Exec.antt =====
-- The meaning of statements, as a reference for the compiled code: on the tree alone, with the
-- variables of a block in one map, as the machine has them. A for or a switch statement has no
-- meaning here: the code keeps its iterator or its value in a variable of its own.
use glyphlang.Prelude.{ℕ, zero, suc, Bool, true, false, Option, some, none, ok, err, ◌>>=◌}
use Prim.Native.Nat.{max}
use glyphlang.Prelude.Maps.{Str, insert}
use glyphlang.Vm.Value.{Value, Host, Heap, Fields, Fallible}
use glyphlang.Vm.Control.{expect_bool}
use glyphlang.Eval.{eval, depth}
use glyphlang.Ast.{
  Expr, Statement, assign_statement, reassign_statement, return_statement, if_statement,
  while_statement, for_statement, switch_statement, expression_statement, validation_statement,
  break_statement, continue_statement, Block, no_statements, statement,
}

-- The variables and the heap.
pub record Env : Type 0 where
  pub locals : Fields
  pub heap : Heap

-- How a statement ends.
pub data Outcome : Type 0 where
  normal : Env → Outcome
  returned : Value → Env → Outcome
  broken : Env → Outcome
  continued : Env → Outcome

-- `none` where the fuel of a loop ran out.
abbrev pub Execution : Type 0
Execution = Option (Fallible Outcome)

-- An execution that goes on where the first part ends normally.
unfoldable pub and_then : Execution → (Env → Execution) → Execution
and_then none next = none
and_then (some (err e)) next = some (err e)
and_then (some (ok (normal env))) next = next env
and_then (some (ok (returned v env))) next = some (ok (returned v env))
and_then (some (ok (broken env))) next = some (ok (broken env))
and_then (some (ok (continued env))) next = some (ok (continued env))

-- The rest of a loop after its body.
unfoldable pub after_body : Execution → (Env → Execution) → Execution
after_body none next = none
after_body (some (err e)) next = some (err e)
after_body (some (ok (normal env))) next = next env
after_body (some (ok (returned v env))) next = some (ok (returned v env))
after_body (some (ok (broken env))) next = some (ok (normal env))
after_body (some (ok (continued env))) next = next env

-- An execution that begins with the evaluation of an expression.
unfoldable pub from : {A : Type 0} → Fallible A → (A → Execution) → Execution
from (ok a) next = next a
from (err e) next = some (err e)

-- A loop of at most `fuel` rounds. The rest is bound first, so that it is taken once.
unfoldable pub loop : ℕ → (Env → Fallible (Bool × Heap)) → (Env → Execution) → Env → Execution
unfolding after_body from
loop zero test body env = none
loop (suc fuel) test body env = from (test env) λ r.
    let env₁ : Env = record env { heap = r.1 } in
    elim r.0 [
      | true ↦ after_body (body env₁) (loop fuel test body)
      | false ↦ some (ok (normal env₁))
    ]

-- The environment after an assignment.
abbrev pub assigned : Str → Env → Value × Heap → Env
assigned name env r = record { locals = insert name r.0 env.locals; heap = r.1 }

module _ (host : Host) (globals : Fields) where
  unfoldable pub value_of : Expr → Env → Fallible (Value × Heap)
  value_of e env = eval host env.locals globals e env.heap

  unfoldable pub test_of : Expr → Env → Fallible (Bool × Heap)
  unfolding value_of
  test_of e env = do (v, h) ← value_of e env; b ← expect_bool v; ok (b, h)

  module _ (fuel : ℕ) where
    unfoldable mutual
      pub exec : Statement → Env → Execution
      exec (assign_statement name e) env =
          from (value_of e env) λ r. some (ok (normal (assigned name env r)))
      exec (reassign_statement name e) env =
          from (value_of e env) λ r. some (ok (normal (assigned name env r)))
      exec (return_statement e) env =
          from (value_of e env) λ r. some (ok (returned r.0 (record env { heap = r.1 })))
      exec (expression_statement e) env =
          from (value_of e env) λ r. some (ok (normal (record env { heap = r.1 })))
      exec validation_statement env = some (ok (normal env))
      exec break_statement env = some (ok (broken env))
      exec continue_statement env = some (ok (continued env))
      exec (if_statement condition then_block else_block) env = from (test_of condition env) λ r.
          elim r.0 [
            | true ↦ exec_block then_block (record env { heap = r.1 })
            | false ↦ exec_block else_block (record env { heap = r.1 })
          ]
      exec (while_statement condition body) env =
          loop fuel (test_of condition) (exec_block body) env
      exec (for_statement key name iterable body) env = none
      exec (switch_statement value cases default_block) env = none

      pub exec_block : Block → Env → Execution
      exec_block no_statements env = some (ok (normal env))
      exec_block (statement s rest) env = and_then (exec s env) (exec_block rest)

-- The stack that the code of a statement needs above what it finds.
unfoldable mutual
  pub room_for : Statement → ℕ
  room_for (assign_statement name e) = depth e
  room_for (reassign_statement name e) = depth e
  room_for (return_statement e) = depth e
  room_for (expression_statement e) = depth e
  room_for validation_statement = 0
  room_for break_statement = 0
  room_for continue_statement = 0
  room_for (if_statement condition then_block else_block) =
      max (depth condition) (max (room_for_block then_block) (room_for_block else_block))
  room_for (while_statement condition body) = max (depth condition) (room_for_block body)
  room_for (for_statement key name iterable body) = 0
  room_for (switch_statement value cases default_block) = 0

  pub room_for_block : Block → ℕ
  room_for_block no_statements = 0
  room_for_block (statement s rest) = max (room_for s) (room_for_block rest)
