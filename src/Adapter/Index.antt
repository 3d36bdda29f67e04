-- ===== src/Adapter/Index.antt =====
-- src/BNAdapter.cpp: `IndexReachableExpressionTree`.
use co_bra_for_binary_ninja.Prelude.{ℕ, ◌&&◌, if◌then◌else◌, ◌==◌, List, [], ◌∷◌}
use co_bra_for_binary_ninja.Adapter.Mlil.{
  Mlil, Operation, ins, Operands, end, expr, exprs, plain, Exprs, nil, cons, expr_index, operation,
  size,
}
use co_bra_for_binary_ninja.Adapter.Roots.{is_candidate_root}
use co_bra_for_binary_ninja.Adapter.Select.{contains}

-- `reachable` and `childOfSupportedRegion`, two `std::unordered_set<size_t>`.
pub record Indexed : Type 0 where
  pub reachable : List ℕ
  pub children : List ℕ

abbrev pub insert_index : ℕ → List ℕ → List ℕ
insert_index i is = if contains is i then is else i ∷ is

-- An operand of a supported operation, of its size, that is a supported operation itself.
unfoldable pub note_child : Operation → ℕ → Mlil → Indexed → Indexed
note_child op s child x =
    if (size child == s) && (is_candidate_root op && is_candidate_root (operation child))
    then record x { children = insert_index (expr_index child) x.children }
    else x

unfoldable mutual
  pub index_tree : Mlil → Indexed → Indexed
  index_tree (ins i op s a operands) x =
      index_operands op s operands (record x { reachable = insert_index i x.reachable })

  pub index_operands : Operation → ℕ → Operands → Indexed → Indexed
  index_operands op s end x = x
  index_operands op s (expr e operands) x =
      let noted = note_child op s e x in
      let deeper = index_tree e noted in
      index_operands op s operands
        (if contains noted.reachable (expr_index e) then noted else deeper)
  index_operands op s (exprs es operands) x = index_operands op s operands (index_exprs op s es x)
  index_operands op s (plain t operands) x = index_operands op s operands x

  pub index_exprs : Operation → ℕ → Exprs → Indexed → Indexed
  index_exprs op s nil x = x
  index_exprs op s (cons e es) x =
      let noted = note_child op s e x in
      let deeper = index_tree e noted in
      index_exprs op s es (if contains noted.reachable (expr_index e) then noted else deeper)

-- The top-level instructions of the blocks.
unfoldable pub index_block : List Mlil → Indexed → Indexed
index_block [] x = x
index_block (e ∷ es) x = index_block es (index_tree e x)

unfoldable pub index_blocks : List (List Mlil) → Indexed → Indexed
index_blocks [] x = x
index_blocks (b ∷ bs) x = index_blocks bs (index_block b x)
