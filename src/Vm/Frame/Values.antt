-- ===== src/Vm/Frame/Values.antt =====
-- The instructions on values, arrays, objects and iterators keep the frame.
use glyphlang.Prelude.{
  ℕ, zero, suc, Bool, true, false, List, [], ◌∷◌, ok, ◌==◌, if◌then◌else◌, or_fail,
}
use glyphlang.Prelude.Post.{returns}
use glyphlang.Vm.Value.{Value, Host, Fallible, Heap, Fields, type_error, invalid_iterator}
use glyphlang.Vm.Machine.{Vm, push}
use glyphlang.Vm.Arith.{exec_binary, exec_unary}
use glyphlang.Vm.Collection.{
  exec_get_index, exec_get_field, exec_set_field, exec_set_index, exec_build_array,
  exec_build_object, exec_get_iter, exec_iter_has_next, exec_iter_next, pop_values, pop_fields,
  expect_int, find_iterator, has_next, item_at,
}
use glyphlang.Vm.Frame.Basic.{
  Frame, Frame-refl, Frame-trans, Keeps, KeepsWith, push-Frame, push-Keeps, pop-Keeps,
  read_operand-Keeps, after, after_with, after_value, after_value_with,
}

pub exec_binary-Keeps :
    (f : Value → Value → Heap → Fallible (Value × Heap)) (v : Vm) → Keeps v (exec_binary f v)
unfolding exec_binary
exec_binary-Keeps f v = after v (pop-Keeps v) λ b.
    after b.1 (pop-Keeps b.1)
      λ a. after_value (f a.0 b.0 a.1.heap) λ r. push-Keeps r.0 a.1 _ (Frame-refl a.1)

pub exec_unary-Keeps : (f : Value → Fallible Value) (v : Vm) → Keeps v (exec_unary f v)
unfolding exec_unary
exec_unary-Keeps f v =
    after v (pop-Keeps v) λ a. after_value (f a.0) λ r. push-Keeps r a.1 a.1 (Frame-refl a.1)

pub exec_get_index-Keeps : (v : Vm) → Keeps v (exec_get_index v)
unfolding exec_get_index
exec_get_index-Keeps v =
    after v (pop-Keeps v)
      λ i. after i.1 (pop-Keeps i.1) λ a. after_value _ λ r. push-Keeps r a.1 a.1 (Frame-refl a.1)

pub exec_get_field-Keeps : (v : Vm) → Keeps v (exec_get_field v)
unfolding exec_get_field
exec_get_field-Keeps v =
    after v (pop-Keeps v)
      λ i. after i.1 (pop-Keeps i.1) λ a. after_value _ λ r. push-Keeps r a.1 a.1 (Frame-refl a.1)

pub exec_set_field-Keeps : (v : Vm) → Keeps v (exec_set_field v)
unfolding exec_set_field
exec_set_field-Keeps v = after v (pop-Keeps v) λ x.
    after x.1 (pop-Keeps x.1)
      λ k. after k.1 (pop-Keeps k.1) λ o. after_value _ λ h. push-Keeps o.0 o.1 _ (Frame-refl o.1)

pub exec_set_index-Keeps : (v : Vm) → Keeps v (exec_set_index v)
unfolding exec_set_index
exec_set_index-Keeps v = after v (pop-Keeps v) λ x.
    after x.1 (pop-Keeps x.1)
      λ k. after k.1 (pop-Keeps k.1) λ o. after_value _ λ h. push-Keeps o.0 o.1 _ (Frame-refl o.1)

pub pop_values-Keeps : (n : ℕ) (acc : List Value) (v : Vm) → KeepsWith v (pop_values n acc v)
unfolding pop_values
pop_values-Keeps zero acc v = returns (Frame-refl v)
pop_values-Keeps (suc n) acc v = after_with v (pop-Keeps v) λ x. pop_values-Keeps n (x.0 ∷ acc) x.1

pop_fields-Keeps : (n : ℕ) (obj : Fields) (v : Vm) → KeepsWith v (pop_fields n obj v)
unfolding pop_fields
pop_fields-Keeps zero obj v = returns (Frame-refl v)
pop_fields-Keeps (suc n) obj v =
    after_with v (pop-Keeps v)
      λ x. after_with x.1 (pop-Keeps x.1) λ k. after_value_with _ λ name. pop_fields-Keeps n _ k.1

pub exec_build_array-Keeps : (v : Vm) → Keeps v (exec_build_array v)
unfolding exec_build_array
exec_build_array-Keeps v =
    after v (read_operand-Keeps v)
      λ n. after n.1 (pop_values-Keeps n.0 [] n.1) λ vs. push-Keeps _ vs.1 _ (Frame-refl vs.1)

pub exec_build_object-Keeps : (v : Vm) → Keeps v (exec_build_object v)
unfolding exec_build_object
exec_build_object-Keeps v =
    after v (read_operand-Keeps v)
      λ n. after n.1 (pop_fields-Keeps n.0 [] n.1) λ fs. push-Keeps _ fs.1 _ (Frame-refl fs.1)

pub exec_get_iter-Keeps : (host : Host) (v : Vm) → Keeps v (exec_get_iter host v)
unfolding exec_get_iter
exec_get_iter-Keeps host v = after v (pop-Keeps v) λ c. push-Keeps _ c.1 _ (Frame-refl c.1)

pub exec_iter_has_next-Keeps : (v : Vm) → Keeps v (exec_iter_has_next v)
unfolding exec_iter_has_next
exec_iter_has_next-Keeps v = after v (pop-Keeps v) λ i. after_value (expect_int i.0 type_error) λ n.
    after_value (or_fail (find_iterator n i.1.iterators) invalid_iterator) λ it.
      after_value (has_next it.collection it i.1.heap) λ more. push-Keeps _ i.1 _ (Frame-refl i.1)

push_key :
    (b : Bool) (key val : Value) (v w : Vm)
    → Frame v w
    → Keeps v (ok (push val (if b then w else push key w)))
push_key true key val v w h = push-Keeps val v w h
push_key false key val v w h =
    push-Keeps val v _ (Frame-trans v w (push key w) h (push-Frame key w))

pub exec_iter_next-Keeps : (v : Vm) → Keeps v (exec_iter_next v)
unfolding exec_iter_next
exec_iter_next-Keeps v = after v (read_operand-Keeps v) λ n. after n.1 (pop-Keeps n.1) λ i.
    after_value (expect_int i.0 type_error) λ id.
      after_value (or_fail (find_iterator id i.1.iterators) invalid_iterator) λ it.
        after_value (item_at it.collection it i.1.heap)
          λ item. push_key (n.0 == 0) item.0 item.1 i.1 _ (Frame-refl i.1)
