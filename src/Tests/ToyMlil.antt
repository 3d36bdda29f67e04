-- ===== src/Tests/ToyMlil.antt =====
-- A small instance of the new function that src/BNAdapter.cpp builds: an expression is its value,
-- and every operation adds up its operands and its literals.
use co_bra_for_binary_ninja.Prelude.{
  ℕ, ◌+◌, ◌*◌, ◌-◌, ◌/◌, ◌^◌, ◌≡◌, refl, sym, ap, ◌∙◌, bit_and, bit_or, bit_xor, List, [], ◌∷◌,
  ◌++◌, map, codes,
}
use mathlib.Core.List.{map-append}
use co_bra_for_binary_ninja.Adapter.Mlil.{
  Mlil, Operation, ins, Operands, end, expr, exprs, plain, Exprs, nil, cons,
}
use co_bra_for_binary_ninja.Adapter.Outcome.{Outcome, returned, thrown}
use co_bra_for_binary_ninja.Adapter.BuildMlil.{Builder}
use co_bra_for_binary_ninja.Adapter.Preserves.{Meaning, operand_list, expr_list, returned-injective}

unfoldable pub sum : List ℕ → ℕ
sum [] = 0
sum (x ∷ xs) = x + sum xs

unfoldable pub literals : Operands → ℕ
literals end = 0
literals (expr e os) = literals os
literals (exprs es os) = literals os
literals (plain t os) = t + literals os

unfoldable mutual
  unfolding sum literals

  pub sum_value : Mlil → ℕ
  sum_value (ins i op s a os) = sum (operand_values os) + literals os

  pub operand_values : Operands → List ℕ
  operand_values end = []
  operand_values (expr e os) = sum_value e ∷ operand_values os
  operand_values (exprs es os) = list_values es ++ operand_values os
  operand_values (plain t os) = operand_values os

  pub list_values : Exprs → List ℕ
  list_values nil = []
  list_values (cons e es) = sum_value e ∷ list_values es

list_values-map : (es : Exprs) → list_values es ≡ map sum_value (expr_list es)
unfolding list_values expr_list
list_values-map nil = refl
list_values-map (cons e es) = ap (λ (l : List ℕ). sum_value e ∷ l) (list_values-map es)

operand_values-map : (os : Operands) → operand_values os ≡ map sum_value (operand_list os)
unfolding operand_values operand_list
operand_values-map end = refl
operand_values-map (expr e os) = ap (λ (l : List ℕ). sum_value e ∷ l) (operand_values-map os)
operand_values-map (exprs es os) =
    rw (list_values-map es, operand_values-map os)
      (sym (map-append sum_value (expr_list es) (operand_list os)))
operand_values-map (plain t os) = operand_values-map os

unfoldable pub sum_copy : Mlil → List ℕ → Outcome ℕ
unfolding sum literals
sum_copy (ins i op s a os) ids = returned (sum ids + literals os)

abbrev pub toy_builder : Builder
toy_builder = record {
  ExprId = ℕ;
  const = λ s c l. c;
  var = λ s v l. v;
  add = λ s x y l. x + y;
  mult = λ s x y l. x * y;
  and_expr = λ s x y l. bit_and x y;
  or_expr = λ s x y l. bit_or x y;
  xor_expr = λ s x y l. bit_xor x y;
  not_expr = λ s x l. 2 ^ (8 * s) - 1 - x;
  neg = λ s x l. 2 ^ (8 * s) - x;
  logical_shift_right = λ s x y l. x / 2 ^ y;
  copy = λ e ids l. sum_copy e ids;
  finalize = λ blocks. returned tt;
  out_of_range = codes "out of range";
}

-- The same, with a function that cannot be finalized.
abbrev pub failing_builder : Builder
failing_builder = record toy_builder { finalize = λ blocks. thrown (codes "no SSA form") }

map-same : (xs : List ℕ) → map (λ (x : ℕ). x) xs ≡ xs
map-same [] = refl
map-same (x ∷ xs) = ap (λ (l : List ℕ). x ∷ l) (map-same xs)

pub sum_copied :
    (i s a : ℕ) (op : Operation) (os : Operands) (ids : List ℕ) (id : ℕ)
    → sum_copy (ins i op s a os) ids ≡ returned id
    → map (λ (x : ℕ). x) ids ≡ map sum_value (operand_list os)
    → id ≡ sum_value (ins i op s a os)
unfolding sum_copy sum_value
sum_copied i s a op os ids id made same =
    sym (returned-injective made)
    ∙ ap (λ (l : List ℕ). sum l + literals os)
        (sym (map-same ids) ∙ same ∙ sym (operand_values-map os))

abbrev pub toy_meaning : Meaning toy_builder
toy_meaning = record {
  Value = ℕ;
  old_value = sum_value;
  new_value = λ x. x;
  copied = λ i s a op os ids l id made same. sum_copied i s a op os ids id made same;
}
