-- ===== src/Vm/Opcode.antt =====
-- pkg/vm/vm.go: the opcodes and their bytes.
use glyphlang.Prelude.{ℕ, ◌≡◌, refl, List, [], ◌∷◌, Option, some, none, ◌==◌, if◌then◌else◌}

pub data Opcode : Type 0 where
  op_push op_pop op_add op_sub op_mul op_div op_mod : Opcode
  op_eq op_ne op_lt op_gt op_ge op_le op_and op_or op_not op_neg : Opcode
  op_load_var op_store_var op_jump op_jump_if_false op_jump_if_true : Opcode
  op_get_iter op_iter_next op_iter_has_next op_get_index op_set_index : Opcode
  op_return op_call op_build_object op_get_field op_set_field op_def_func : Opcode
  op_build_array op_http_return : Opcode
  op_ws_send op_ws_broadcast op_ws_broadcast_room op_ws_join_room op_ws_leave_room : Opcode
  op_ws_close op_ws_get_rooms op_ws_get_clients op_ws_get_conn_count op_ws_get_uptime : Opcode
  op_async op_await op_try op_mitosis op_mutator op_telemetry op_halt : Opcode

unfoldable pub opcode_byte : Opcode → ℕ
opcode_byte op_push = 0x01
opcode_byte op_pop = 0x02
opcode_byte op_add = 0x10
opcode_byte op_sub = 0x11
opcode_byte op_mul = 0x12
opcode_byte op_div = 0x13
opcode_byte op_mod = 0x14
opcode_byte op_eq = 0x20
opcode_byte op_ne = 0x21
opcode_byte op_lt = 0x22
opcode_byte op_gt = 0x23
opcode_byte op_ge = 0x24
opcode_byte op_le = 0x25
opcode_byte op_and = 0x26
opcode_byte op_or = 0x27
opcode_byte op_not = 0x28
opcode_byte op_neg = 0x29
opcode_byte op_load_var = 0x40
opcode_byte op_store_var = 0x41
opcode_byte op_jump = 0x50
opcode_byte op_jump_if_false = 0x51
opcode_byte op_jump_if_true = 0x52
opcode_byte op_get_iter = 0x53
opcode_byte op_iter_next = 0x54
opcode_byte op_iter_has_next = 0x55
opcode_byte op_get_index = 0x56
opcode_byte op_set_index = 0x57
opcode_byte op_return = 0x61
opcode_byte op_call = 0x62
opcode_byte op_build_object = 0x70
opcode_byte op_get_field = 0x71
opcode_byte op_set_field = 0x72
opcode_byte op_def_func = 0x73
opcode_byte op_build_array = 0x80
opcode_byte op_http_return = 0x90
opcode_byte op_ws_send = 0xa0
opcode_byte op_ws_broadcast = 0xa1
opcode_byte op_ws_broadcast_room = 0xa2
opcode_byte op_ws_join_room = 0xa3
opcode_byte op_ws_leave_room = 0xa4
opcode_byte op_ws_close = 0xa5
opcode_byte op_ws_get_rooms = 0xa6
opcode_byte op_ws_get_clients = 0xa7
opcode_byte op_ws_get_conn_count = 0xa8
opcode_byte op_ws_get_uptime = 0xa9
opcode_byte op_async = 0xb0
opcode_byte op_await = 0xb1
opcode_byte op_try = 0xb2
opcode_byte op_mitosis = 0xc0
opcode_byte op_mutator = 0xc1
opcode_byte op_telemetry = 0xc2
opcode_byte op_halt = 0xff

-- The opcodes that the switch of executeInstruction has a case for, in its order.
abbrev executable : List Opcode
executable =
    op_push ∷ op_pop ∷ op_add ∷ op_sub ∷ op_mul ∷ op_div ∷ op_mod ∷ op_eq ∷ op_ne ∷ op_lt ∷ op_gt
    ∷ op_ge ∷ op_le ∷ op_and ∷ op_or ∷ op_not ∷ op_neg ∷ op_load_var ∷ op_store_var ∷ op_jump
    ∷ op_jump_if_false ∷ op_jump_if_true ∷ op_get_iter ∷ op_iter_next ∷ op_iter_has_next
    ∷ op_get_index ∷ op_set_index ∷ op_return ∷ op_call ∷ op_build_object ∷ op_get_field
    ∷ op_set_field ∷ op_def_func ∷ op_build_array ∷ op_http_return ∷ op_ws_send ∷ op_ws_broadcast
    ∷ op_ws_broadcast_room ∷ op_ws_join_room ∷ op_ws_leave_room ∷ op_ws_close ∷ op_ws_get_rooms
    ∷ op_ws_get_clients ∷ op_ws_get_conn_count ∷ op_ws_get_uptime ∷ op_async ∷ op_await ∷ op_try
    ∷ op_telemetry ∷ op_halt ∷ []

find_opcode : ℕ → List Opcode → Option Opcode
unfolding opcode_byte
find_opcode b [] = none
find_opcode b (op ∷ ops) = if b == opcode_byte op then some op else find_opcode b ops

-- The case of the switch that a byte selects; `none` is its default.
unfoldable pub opcode_of : ℕ → Option Opcode
unfolding find_opcode
opcode_of b = find_opcode b executable

-- The GPU opcodes, for which the switch has no case.
abbrev pub executable_opcode : Opcode → Option Opcode
executable_opcode op_mitosis = none
executable_opcode op_mutator = none
executable_opcode op = some op

-- The machine reads back the opcode that was written, but for the two GPU opcodes.
pub opcode_of-opcode_byte : (op : Opcode) → opcode_of (opcode_byte op) ≡ executable_opcode op
unfolding opcode_of opcode_byte
opcode_of-opcode_byte op_push = refl
opcode_of-opcode_byte _ = refl
