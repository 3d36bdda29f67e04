-- ===== src/Adapter/Mlil.antt =====
-- What src/BNAdapter.cpp sees of Binary Ninja's MLIL: an expression with its index, operation,
-- size, address and operands. Binary Ninja itself is not part of this repository.
use co_bra_for_binary_ninja.Prelude.{ℕ}

-- The operations that the code names; `other_operation` is any other.
pub data Operation : Type 0 where
  const var_ssa var set_var_ssa : Operation
  add sub mul neg and or xor not lsl lsr zx bool_to_int : Operation
  cmp_e cmp_ne cmp_ult cmp_ule cmp_uge cmp_ugt cmp_slt cmp_sle cmp_sge cmp_sgt : Operation
  other_operation : ℕ → Operation

-- An operand is an expression, a list of expressions, or of a type that the walks pass over.
mutual
  pub data Mlil : Type 0 where
    ins : ℕ → Operation → ℕ → ℕ → Operands → Mlil

  pub data Operands : Type 0 where
    end : Operands
    expr : Mlil → Operands → Operands
    exprs : Exprs → Operands → Operands
    plain : ℕ → Operands → Operands

  pub data Exprs : Type 0 where
    nil : Exprs
    cons : Mlil → Exprs → Exprs

abbrev pub expr_index : Mlil → ℕ
expr_index (ins i op s a os) = i

abbrev pub operation : Mlil → Operation
operation (ins i op s a os) = op

abbrev pub size : Mlil → ℕ
size (ins i op s a os) = s

abbrev pub address : Mlil → ℕ
address (ins i op s a os) = a
