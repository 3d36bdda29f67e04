-- ===== src/Cobra.antt =====
-- What src/Engine.cpp and src/BNAdapter.cpp see of `cobra::Expr` (its kind, constant, variable
-- index and children, as they read them), and the meaning of such a tree over w-bit vectors. CoBRA
-- itself is not part of this repository.
use co_bra_for_binary_ninja.Prelude.{
  ℕ, suc, ◌+◌, ◌-◌, ◌*◌, ◌/◌, ◌%◌, ◌^◌, bit_and, bit_or, bit_xor, if◌then◌else◌, ltb,
}

-- `cobra::Expr::Kind`; `other` is any value that the switches send to `default`.
pub data Kind : Type 0 where
  constant variable add mul and or xor not neg shr : Kind
  other : ℕ → Kind

-- A node with its kind, `constant_val`, `var_index` and `children`. A child is a pointer, which
-- may be null.
mutual
  pub data Expr : Type 0 where
    node : Kind → ℕ → ℕ → Children → Expr

  pub data Children : Type 0 where
    nil : Children
    null : Children → Children
    cons : Expr → Children → Children

unfoldable pub count : Children → ℕ
count nil = 0
count (null cs) = suc (count cs)
count (cons e cs) = suc (count cs)

-- A value for each variable index.
abbrev pub Assignment : Type 0
Assignment = ℕ → ℕ

-- What a node computes over w-bit vectors from the values of its first two children.
unfoldable pub node_value : ℕ → Assignment → Kind → ℕ → ℕ → ℕ → ℕ → ℕ
node_value w env constant c v x y = c % 2 ^ w
node_value w env variable c v x y = env v % 2 ^ w
node_value w env add c v x y = (x + y) % 2 ^ w
node_value w env mul c v x y = x * y % 2 ^ w
node_value w env and c v x y = bit_and x y
node_value w env or c v x y = bit_or x y
node_value w env xor c v x y = bit_xor x y
node_value w env not c v x y = 2 ^ w - 1 - x
node_value w env neg c v x y = (2 ^ w - x) % 2 ^ w
node_value w env shr c v x y = if ltb c w then x / 2 ^ c else 0
node_value w env (other k) c v x y = 0

unfoldable mutual
  pub value : ℕ → Assignment → Expr → ℕ
  value w env (node k c v cs) =
      node_value w env k c v (first_value w env cs) (second_value w env cs)

  pub first_value : ℕ → Assignment → Children → ℕ
  first_value w env nil = 0
  first_value w env (null cs) = 0
  first_value w env (cons e cs) = value w env e

  pub second_value : ℕ → Assignment → Children → ℕ
  second_value w env nil = 0
  second_value w env (null cs) = first_value w env cs
  second_value w env (cons e cs) = first_value w env cs
