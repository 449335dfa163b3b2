-- ===== src/Vm/Collection.antt =====
-- pkg/vm/vm.go: arrays, objects and iterators.
use glyphlang.Prelude.{
  ℕ, zero, suc, ◌+◌, Bool, List, [], ◌∷◌, Option, some, none, ok, err, ◌>>=◌, ltb, ◌==◌,
  if◌then◌else◌, length, get_elem?, or_fail,
}
use glyphlang.Prelude.Maps.{Str, lookup, insert}
use glyphlang.Int64.{of_nat, is_neg}
use glyphlang.Vm.Value.{
  Value, null, int, bool, str, array, object, Error, Heap, Host, Fields, Fallible, array_at,
  object_at, new_array, new_object, write_array, write_object, type_error, index_out_of_bounds,
  field_not_found, invalid_iterator, iterator_exhausted, cannot_iterate,
}
use glyphlang.Vm.Machine.{Vm, Iterator, push, pop, read_operand}

unfoldable pub expect_int : Value → Error → Fallible ℕ
expect_int (int n) e = ok n
expect_int _ e = err e

unfoldable pub expect_str : Value → Fallible Str
expect_str (str s) = ok s
expect_str _ = err type_error

-- if i < 0 || i >= int64(len(xs)) { return error }; xs[i]
unfoldable pub element_at : List Value → ℕ → Fallible Value
element_at xs i =
    if is_neg i then err index_out_of_bounds else or_fail (get_elem? xs i) index_out_of_bounds

unfoldable pub index_value : Value → Value → Heap → Fallible Value
index_value (array r) (int i) h = element_at (array_at h r) i
index_value _ _ h = err type_error

unfoldable pub field_value : Value → Value → Heap → Fallible Value
field_value (object r) (str k) h = or_fail (lookup k (object_at h r)) field_not_found
field_value _ _ h = err type_error

-- execGetIndex
unfoldable pub exec_get_index : Vm → Fallible Vm
exec_get_index vm = do
  (index, vm₁) ← pop vm
  (arr, vm₂) ← pop vm₁
  v ← index_value arr index vm₂.heap
  ok (push v vm₂)

-- execGetField
unfoldable pub exec_get_field : Vm → Fallible Vm
exec_get_field vm = do
  (key, vm₁) ← pop vm
  (obj, vm₂) ← pop vm₁
  v ← field_value obj key vm₂.heap
  ok (push v vm₂)

unfoldable pub store_field : Value → Value → Value → Heap → Fallible Heap
store_field (object r) (str k) v h = ok (write_object r (insert k v (object_at h r)) h)
store_field _ _ v h = err type_error

-- execSetField
unfoldable pub exec_set_field : Vm → Fallible Vm
unfolding store_field
exec_set_field vm = do
  (val, vm₁) ← pop vm
  (key, vm₂) ← pop vm₁
  (obj, vm₃) ← pop vm₂
  h ← store_field obj key val vm₃.heap
  ok (push obj (record vm₃ { heap = h }))

unfoldable pub store_index : Value → Value → Value → Heap → Fallible Heap
store_index (array r) (int i) v h = do _ ← element_at (array_at h r) i; ok (write_array r i v h)
store_index (object r) (str k) v h = ok (write_object r (insert k v (object_at h r)) h)
store_index _ _ v h = err type_error

-- execSetIndex
unfoldable pub exec_set_index : Vm → Fallible Vm
unfolding store_index
exec_set_index vm = do
  (val, vm₁) ← pop vm
  (index, vm₂) ← pop vm₁
  (container, vm₃) ← pop vm₂
  h ← store_index container index val vm₃.heap
  ok (push container (record vm₃ { heap = h }))

-- The loop of execBuildArray and of execCall: pops `n` values; the first one popped comes last.
unfoldable pub pop_values : ℕ → List Value → Vm → Fallible (List Value × Vm)
pop_values zero acc vm = ok (acc, vm)
pop_values (suc n) acc vm = do (v, vm₁) ← pop vm; pop_values n (v ∷ acc) vm₁

-- execBuildArray
unfoldable pub exec_build_array : Vm → Fallible Vm
exec_build_array vm = do
  (count, vm₁) ← read_operand vm
  (vs, vm₂) ← pop_values count [] vm₁
  let made = new_array vs vm₂.heap
  ok (push made.0 (record vm₂ { heap = made.1 }))

-- The loop of execBuildObject. The pair popped last is stored last.
unfoldable pub pop_fields : ℕ → Fields → Vm → Fallible (Fields × Vm)
pop_fields zero obj vm = ok (obj, vm)
pop_fields (suc n) obj vm = do
  (val, vm₁) ← pop vm
  (key, vm₂) ← pop vm₁
  k ← expect_str key
  pop_fields n (insert k val obj) vm₂

-- execBuildObject
unfoldable pub exec_build_object : Vm → Fallible Vm
exec_build_object vm = do
  (count, vm₁) ← read_operand vm
  (fs, vm₂) ← pop_fields count [] vm₁
  let made = new_object fs vm₂.heap
  ok (push made.0 (record vm₂ { heap = made.1 }))

-- The iterators, a map from IDs.
unfoldable pub find_iterator : ℕ → List (ℕ × Iterator) → Option Iterator
find_iterator i [] = none
find_iterator i ((j, it) ∷ its) = if j == i then some it else find_iterator i its

unfoldable pub put_iterator : ℕ → Iterator → List (ℕ × Iterator) → List (ℕ × Iterator)
put_iterator i it [] = (i, it) ∷ []
put_iterator i it ((j, old) ∷ its) =
    if j == i then (i, it) ∷ its else (j, old) ∷ put_iterator i it its

unfoldable pub delete_iterator : ℕ → List (ℕ × Iterator) → List (ℕ × Iterator)
delete_iterator i [] = []
delete_iterator i ((j, it) ∷ its) =
    let rest = delete_iterator i its in if j == i then rest else (j, it) ∷ rest

unfoldable pub iterator_keys : Host → Value → Heap → List Str
iterator_keys host (object r) h = host.key_order (object_at h r)
iterator_keys host _ h = []

unfoldable pub new_iterator : Host → Value → Heap → Iterator
unfolding iterator_keys
new_iterator host coll h = record { collection = coll; index = 0; keys = iterator_keys host coll h }

-- execGetIter
unfoldable pub exec_get_iter : Host → Vm → Fallible Vm
unfolding new_iterator
exec_get_iter host vm = do
  (coll, vm₁) ← pop vm
  ok (
      push (int (of_nat vm₁.next_iter_id)) (record vm₁ {
        next_iter_id = vm₁.next_iter_id + 1;
        iterators = put_iterator vm₁.next_iter_id (new_iterator host coll vm₁.heap) vm₁.iterators;
      }))

unfoldable pub has_next : Value → Iterator → Heap → Fallible Bool
has_next (array r) it h = ok (ltb it.index (length (array_at h r)))
has_next (object r) it h = ok (ltb it.index (length it.keys))
has_next _ it h = err cannot_iterate

-- execIterHasNext: an exhausted iterator is deleted.
unfoldable pub exec_iter_has_next : Vm → Fallible Vm
unfolding has_next
exec_iter_has_next vm = do
  (id, vm₁) ← pop vm
  i ← expect_int id type_error
  it ← or_fail (find_iterator i vm₁.iterators) invalid_iterator
  more ← has_next it.collection it vm₁.heap
  let kept = if more then vm₁.iterators else delete_iterator i vm₁.iterators
  ok (push (bool more) (record vm₁ { iterators = kept }))

-- The key and the value that an iterator stands at. An object's key without a value reads as nil.
unfoldable pub item_at : Value → Iterator → Heap → Fallible (Value × Value)
item_at (array r) it h = do
  v ← or_fail (get_elem? (array_at h r) it.index) iterator_exhausted
  ok (int (of_nat it.index), v)
item_at (object r) it h = do
  k ← or_fail (get_elem? it.keys it.index) iterator_exhausted
  ok (str k, elim (lookup k (object_at h r)) [ some v ↦ v | none ↦ null ])
item_at _ it h = err cannot_iterate

-- execIterNext
unfoldable pub exec_iter_next : Vm → Fallible Vm
unfolding item_at
exec_iter_next vm = do
  (operand, vm₁) ← read_operand vm
  (id, vm₂) ← pop vm₁
  i ← expect_int id type_error
  it ← or_fail (find_iterator i vm₂.iterators) invalid_iterator
  (key, val) ← item_at it.collection it vm₂.heap
  let moved = record it { index = it.index + 1 }
  let vm₃ = record vm₂ { iterators = put_iterator i moved vm₂.iterators }
  ok (push val (if operand == 0 then vm₃ else push key vm₃))
