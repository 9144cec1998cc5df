-- ===== src/Dsl/Expression.antt =====
-- backend/app/meta/dsl/expression.py and the limits of limits.py: the arithmetic expressions of a
-- template's documents, and `compile_expression`, which checks one against the declared fields.
-- Field names are only compared, so they are numbers.
pub mod Compile
use si26_math_animation_john.Base.Int.{ℤ}
use si26_math_animation_john.Base.{
  ℕ, zero, suc, ◌+◌, ◌-◌, ◌*◌, ◌/◌, ◌%◌, ◌^◌, ◌≤◌, ◌<◌, min, max, String, ◌≡◌, refl, sym, ap, ◌∙◌,
  subst, ◌≢◌, ◌↔◌, ◌⊎◌, inl, inr, Bool, true, false, ◌&&◌, ◌||◌, not, Option, none, some, List, [],
  ◌∷◌, ◌++◌, map, arith, ltb, leb, ◌==◌, if◌then◌else◌, eq_option, eq_option→eq, eq_option_refl,
  eq→eq_option, Bool-cases, Option-cases, length, all, any, select, count, reject, update, All,
  length-append, count-append, count-le-length, length-select-le, length-reject-add-count,
  count-or-le, count-le-count, count-update, count-update-le, count-update-drop, length-update,
  All-update, any-false, All-any, All-weaken, codes, str_eq, eq_iff,
}

abbrev pub max_expression_depth : ℕ
max_expression_depth = 6

abbrev pub max_expression_operations : ℕ
max_expression_operations = 20

-- A float: a fraction, an infinity or a NaN. Compiling reads no more of it.
pub data Float : Type 0 where
  finite : ℤ → ℕ → Float
  infinite nan : Float

pub record FieldRef : Type 0 where
  pub field : ℕ
  pub index : Option ℕ
  pub item_field : Option ℕ

pub data Operator : Type 0 where
  add subtract multiply divide fraction : Operator

mutual
  pub data ExpressionNode : Type 0 where
    literal : Float → ExpressionNode
    field_ref : FieldRef → ExpressionNode
    operation : Operator → Operands → ExpressionNode

  pub data Operands : Type 0 where
    end : Operands
    operand : ExpressionNode → Operands → Operands

-- An array field and the scalars of its items.
pub record ArrayField : Type 0 where
  pub name : ℕ
  pub item_fields : List ℕ

pub record FieldContract : Type 0 where
  pub scalars : List ℕ
  pub arrays : List ArrayField

pub data Error : Type 0 where
  expression_too_deep non_finite_literal too_many_operations unknown_field unexpected_item_field :
      Error
  array_item_field_required array_index_required unknown_item_field : Error

abbrev pub is_finite : Float → Bool
is_finite (finite n d) = true
is_finite _ = false

abbrev pub has : List ℕ → ℕ → Bool
has names a = any (λ b. b == a) names

-- contract.arrays.get(name)
unfoldable pub array_of : ℕ → List ArrayField → Option (List ℕ)
array_of name [] = none
array_of name (a ∷ arrays) = if a.name == name then some a.item_fields else array_of name arrays

-- self.scalars | frozenset(self.arrays)
unfoldable pub declares : FieldContract → ℕ → Bool
declares c name = has c.scalars name || any (λ a. a.name == name) c.arrays

-- The end of `_validate_field_ref`, on the item fields of an array.
unfoldable pub check_item : Option ℕ → Option ℕ → List ℕ → Option Error
check_item index none legal = some array_item_field_required
check_item none (some item) legal = some array_index_required
check_item (some i) (some item) legal = if has legal item then none else some unknown_item_field

unfoldable pub check_shape : FieldRef → Option (List ℕ) → Option Error
unfolding check_item
check_shape r none = elim r.item_field [ none ↦ none | some item ↦ some unexpected_item_field ]
check_shape r (some legal) = check_item r.index r.item_field legal

-- `_validate_field_ref`: `none` where it raises nothing.
unfoldable pub validate_field_ref : FieldRef → FieldContract → Option Error
unfolding check_shape
validate_field_ref r c =
    if declares c r.field then check_shape r (array_of r.field c.arrays) else some unknown_field

-- What the walk has counted and collected so far, or what it raised. The set of referenced fields is a
-- list, the latest first.
pub data Walk : Type 0 where
  walked : ℕ → List ℕ → Walk
  raised : Error → Walk

unfoldable mutual
  pub walk : FieldContract → ExpressionNode → ℕ → ℕ → List ℕ → Walk
  walk c (literal v) depth op_count referenced =
      if ltb max_expression_depth depth
      then raised expression_too_deep
      else if is_finite v
      then walked op_count referenced
      else raised non_finite_literal
  walk c (field_ref r) depth op_count referenced =
      if ltb max_expression_depth depth
      then raised expression_too_deep
      else elim (validate_field_ref r c) [
        | none ↦ walked op_count (r.field ∷ referenced)
        | some e ↦ raised e
      ]
  walk c (operation o operands) depth op_count referenced =
      if ltb max_expression_depth depth
      then raised expression_too_deep
      else if ltb max_expression_operations (op_count + 1)
      then raised too_many_operations
      else walk_all c operands (depth + 1) (op_count + 1) referenced

  pub walk_all : FieldContract → Operands → ℕ → ℕ → List ℕ → Walk
  walk_all c end depth op_count referenced = walked op_count referenced
  walk_all c (operand x xs) depth op_count referenced = elim (walk c x depth op_count referenced) [
    | walked n refs ↦ walk_all c xs depth n refs
    | raised e ↦ raised e
  ]

unfoldable pub compile_expression : ExpressionNode → FieldContract → Walk
unfolding walk
compile_expression node c = walk c node 0 0 []
