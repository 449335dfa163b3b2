-- ===== src/Vm/Runs/Building.antt =====
-- The instructions that build arrays and objects, on a stack where the parts lie in order.
use glyphlang.Prelude.{
  ℕ, suc, ◌+◌, ◌<◌, ◌^◌, ◌≡◌, refl, ap, false, List, [], ◌∷◌, ◌++◌, append-nil, ok, arith, length,
}
use glyphlang.Prelude.Maps.{insert}
use glyphlang.Bytes.{put_u32}
use glyphlang.Vm.Value.{Value, str, Host, Heap, Fields, new_array, new_object}
use glyphlang.Vm.Opcode.{opcode_byte, op_build_array, op_build_object}
use glyphlang.Vm.Machine.{Vm, pop, max_stack_size}
use glyphlang.Vm.Collection.{
  pop_values, pop_fields, exec_build_array, exec_build_object, expect_str,
}
use glyphlang.Vm.Step.{execute}
use glyphlang.Vm.Runs.{Runs, Stands, state, operand_at}
use glyphlang.Vm.Runs.Instructions.{push_room, Runs-opcode}

-- The stack after the values have been pushed in order, and after keys and values have.
abbrev pub push_all : List Value → List Value → List Value
push_all [] s = s
push_all (v ∷ vs) s = push_all vs (v ∷ s)

abbrev pub push_fields : Fields → List Value → List Value
push_fields [] s = s
push_fields ((k, v) ∷ kvs) s = push_fields kvs (v ∷ str k ∷ s)

-- The fields inserted from the last to the first.
abbrev pub insert_all : Fields → Fields → Fields
insert_all [] obj = obj
insert_all ((k, v) ∷ kvs) obj = insert k v (insert_all kvs obj)

module _ (vm : Vm) (pc : ℕ) (h : Heap) where
  pop_values-push_all :
      (vs acc s : List Value) (k n : ℕ)
      → length vs + k ≡ n
      → pop_values n acc (state vm pc (push_all vs s) h)
        ≡ pop_values k (vs ++ acc) (state vm pc s h)
  unfolding pop_values pop
  pop_values-push_all [] acc s k n e =
      let e' : n ≡ k = omega arith in ap (λ (m : ℕ). pop_values m acc (state vm pc s h)) e'
  pop_values-push_all (v ∷ vs) acc s k n e =
      pop_values-push_all vs acc (v ∷ s) (suc k) n (omega arith)

  pop_fields-push_fields :
      (kvs obj : Fields) (s : List Value) (k n : ℕ)
      → length kvs + k ≡ n
      → pop_fields n obj (state vm pc (push_fields kvs s) h)
        ≡ pop_fields k (insert_all kvs obj) (state vm pc s h)
  unfolding pop_fields pop expect_str
  pop_fields-push_fields [] obj s k n e =
      let e' : n ≡ k = omega arith in ap (λ (m : ℕ). pop_fields m obj (state vm pc s h)) e'
  pop_fields-push_fields ((key, v) ∷ kvs) obj s k n e =
      pop_fields-push_fields kvs obj (v ∷ str key ∷ s) (suc k) n (omega arith)

module _ (host : Host) (vm : Vm) (live : vm.halted ≡ false) where
  pub Runs-build_array :
      (vs : List Value) (pc : ℕ) (s : List Value) (h : Heap)
      → length vs < 2 ^ 32
      → Stands vm.code pc (opcode_byte op_build_array ∷ put_u32 (length vs))
      → length s < max_stack_size
      → Runs host
          (state vm pc (push_all vs s) h)
          (ok (state vm (pc + 5) ((new_array vs h).0 ∷ s) (new_array vs h).1))
  unfolding execute exec_build_array pop_values
  Runs-build_array vs pc s h small (here, operand) room =
      let e : pc + 1 + 4 ≡ pc + 5 = omega arith in
      Runs-opcode host vm live op_build_array pc (push_all vs s) h refl here (
        rw
          (
            operand_at host vm (length vs) (pc + 1) (push_all vs s) h small operand,
            e,
            pop_values-push_all vm (pc + 5) h vs [] s 0 (length vs) (omega arith),
            append-nil,
          )
          (ap ok (push_room (new_array vs h).0 (state vm (pc + 5) s (new_array vs h).1) room)))

  pub Runs-build_object :
      (kvs : Fields) (pc : ℕ) (s : List Value) (h : Heap)
      → length kvs < 2 ^ 32
      → Stands vm.code pc (opcode_byte op_build_object ∷ put_u32 (length kvs))
      → length s < max_stack_size
      → Runs host (state vm pc (push_fields kvs s) h) (
          ok (
            state vm
              (pc + 5)
              ((new_object (insert_all kvs []) h).0 ∷ s)
              (new_object (insert_all kvs []) h).1))
  unfolding execute exec_build_object pop_fields
  Runs-build_object kvs pc s h small (here, operand) room =
      let e : pc + 1 + 4 ≡ pc + 5 = omega arith in
      let made = new_object (insert_all kvs []) h in
      Runs-opcode host vm live op_build_object pc (push_fields kvs s) h refl here (
        rw
          (
            operand_at host vm (length kvs) (pc + 1) (push_fields kvs s) h small operand,
            e,
            pop_fields-push_fields vm (pc + 5) h kvs [] s 0 (length kvs) (omega arith),
          )
          (ap ok (push_room made.0 (state vm (pc + 5) s made.1) room)))
