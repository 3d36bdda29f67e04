-- ===== src/Engine/Shape.antt =====
-- src/Engine.cpp, `ValidateComparisonExpr`: what it lets through.
use co_bra_for_binary_ninja.Prelude.{ℕ, ◌<◌, ◌≡◌, ◌↔◌, refl, arith, lt→ltb}
use co_bra_for_binary_ninja.Cobra.{Kind, Expr, node, Children, nil, null, cons, count}
use co_bra_for_binary_ninja.Engine.Validate
use co_bra_for_binary_ninja.Engine.Validate.{
  Validation, valid, invalid, expected_children, validate_node, validate_comparison_expr,
  validate_children,
}

abbrev pub IsBinary : Kind → Type 0
IsBinary Kind.add = Unit
IsBinary Kind.mul = Unit
IsBinary Kind.and = Unit
IsBinary Kind.or = Unit
IsBinary Kind.xor = Unit
IsBinary _ = ⊥

abbrev pub IsUnary : Kind → Type 0
IsUnary Kind.not = Unit
IsUnary Kind.neg = Unit
IsUnary Kind.shr = Unit
IsUnary _ = ⊥

-- A tree over `n` variables in which every operator has its operands and no pointer is null.
pub data WellShaped (n : ℕ) : Expr → Type 0 where
  constant : (c v : ℕ) (cs : Children) → WellShaped n (node Kind.constant c v cs)
  variable : (c v : ℕ) (cs : Children) → v < n → WellShaped n (node Kind.variable c v cs)
  unary :
      (k : Kind) (c v : ℕ) {l : Expr}
      → IsUnary k
      → WellShaped n l
      → WellShaped n (node k c v (cons l nil))
  binary :
      (k : Kind) (c v : ℕ) {l r : Expr}
      → IsBinary k
      → WellShaped n l
      → WellShaped n r
      → WellShaped n (node k c v (cons l (cons r nil)))

module _ (n : ℕ) where
  abbrev AllShaped : Children → Type 0
  AllShaped nil = Unit
  AllShaped (null cs) = ⊥
  AllShaped (cons e cs) = WellShaped n e × AllShaped cs

  unary_node :
      (k : Kind) (c v : ℕ) (cs : Children)
      → IsUnary k
      → count cs ≡ 1
      → AllShaped cs
      → WellShaped n (node k c v cs)
  unfolding count
  unary_node k c v nil u h s = absurd (omega arith)
  unary_node k c v (null cs) u h s = absurd s
  unary_node k c v (cons e nil) u h s = unary k c v u s.0
  unary_node k c v (cons e (null cs)) u h s = absurd (omega arith)
  unary_node k c v (cons e (cons f cs)) u h s = absurd (omega arith)

  binary_node :
      (k : Kind) (c v : ℕ) (cs : Children)
      → IsBinary k
      → count cs ≡ 2
      → AllShaped cs
      → WellShaped n (node k c v cs)
  unfolding count
  binary_node k c v nil u h s = absurd (omega arith)
  binary_node k c v (null cs) u h s = absurd s
  binary_node k c v (cons e nil) u h s = absurd (omega arith)
  binary_node k c v (cons e (null cs)) u h s = absurd s.1
  binary_node k c v (cons e (cons f nil)) u h s = binary k c v u s.0 s.1.0
  binary_node k c v (cons e (cons f (null cs))) u h s = absurd (omega arith)
  binary_node k c v (cons e (cons f (cons g cs))) u h s = absurd (omega arith)

  -- A node whose check passes has the number of children that it needs, and they pass too.
  counted :
      (m size : ℕ) (loop : Validation)
      → validate_node (Validate.children m) size loop ≡ valid
      → (size ≡ m) × (loop ≡ valid)
  unfolding validate_node
  counted m size loop h = ground arith

  checked_node :
      (k : Kind) (c v : ℕ) (cs : Children)
      → (validate_children n cs ≡ valid → AllShaped cs)
      → validate_node (expected_children k v n) (count cs) (validate_children n cs) ≡ valid
      → WellShaped n (node k c v cs)
  unfolding expected_children
  checked_node Kind.constant c v cs ih h = constant c v cs
  checked_node Kind.variable c v cs ih h = variable c v cs (unfold validate_node in ground arith)
  checked_node Kind.add c v cs ih h =
      let (size, loop) = counted 2 (count cs) (validate_children n cs) h in
      binary_node Kind.add c v cs tt size (ih loop)
  checked_node Kind.mul c v cs ih h =
      let (size, loop) = counted 2 (count cs) (validate_children n cs) h in
      binary_node Kind.mul c v cs tt size (ih loop)
  checked_node Kind.and c v cs ih h =
      let (size, loop) = counted 2 (count cs) (validate_children n cs) h in
      binary_node Kind.and c v cs tt size (ih loop)
  checked_node Kind.or c v cs ih h =
      let (size, loop) = counted 2 (count cs) (validate_children n cs) h in
      binary_node Kind.or c v cs tt size (ih loop)
  checked_node Kind.xor c v cs ih h =
      let (size, loop) = counted 2 (count cs) (validate_children n cs) h in
      binary_node Kind.xor c v cs tt size (ih loop)
  checked_node Kind.not c v cs ih h =
      let (size, loop) = counted 1 (count cs) (validate_children n cs) h in
      unary_node Kind.not c v cs tt size (ih loop)
  checked_node Kind.neg c v cs ih h =
      let (size, loop) = counted 1 (count cs) (validate_children n cs) h in
      unary_node Kind.neg c v cs tt size (ih loop)
  checked_node Kind.shr c v cs ih h =
      let (size, loop) = counted 1 (count cs) (validate_children n cs) h in
      unary_node Kind.shr c v cs tt size (ih loop)
  checked_node (Kind.other k) c v cs ih h = unfold validate_node in cc

  first_and_rest : (a b : Validation) → Validate.and_then a b ≡ valid → (a ≡ valid) × (b ≡ valid)
  first_and_rest valid b h = (refl, h)
  first_and_rest (invalid r) b h = cc

mutual
  unfolding validate_comparison_expr

  shaped : (n : ℕ) (e : Expr) → validate_comparison_expr n e ≡ valid → WellShaped n e
  shaped n (node k c v cs) h = checked_node n k c v cs (children_shaped n cs) h

  children_shaped : (n : ℕ) (cs : Children) → validate_children n cs ≡ valid → AllShaped n cs
  children_shaped n nil h = tt
  children_shaped n (null cs) h = cc
  children_shaped n (cons e cs) h =
      let (first, rest) = first_and_rest n _ _ h in (shaped n e first, children_shaped n cs rest)

expected-unary : (k : Kind) (v n : ℕ) → IsUnary k → expected_children k v n ≡ Validate.children 1
unfolding expected_children
expected-unary Kind.not v n u = refl
expected-unary Kind.neg v n u = refl
expected-unary Kind.shr v n u = refl
expected-unary _ v n u = absurd u

expected-binary : (k : Kind) (v n : ℕ) → IsBinary k → expected_children k v n ≡ Validate.children 2
unfolding expected_children
expected-binary Kind.add v n u = refl
expected-binary Kind.mul v n u = refl
expected-binary Kind.and v n u = refl
expected-binary Kind.or v n u = refl
expected-binary Kind.xor v n u = refl
expected-binary _ v n u = absurd u

shaped_valid : (n : ℕ) {e : Expr} → WellShaped n e → validate_comparison_expr n e ≡ valid
unfolding validate_comparison_expr validate_node count
shaped_valid n (constant c v cs) = unfold expected_children in refl
shaped_valid n (variable c v cs h) = unfold expected_children in rw (lt→ltb v n h)
shaped_valid n (unary k c v u s) = rw (expected-unary k v n u, shaped_valid n s)
shaped_valid n (binary k c v u s t) =
    rw (expected-binary k v n u, shaped_valid n s, shaped_valid n t)

-- `ValidateComparisonExpr` accepts a tree exactly when every operator has its operands, no child
-- is null and every variable index is below the size of the shared variable list.
pub validate_comparison_expr_exact :
    (variables : ℕ) (e : Expr)
    → (validate_comparison_expr variables e ≡ valid) ↔ WellShaped variables e
validate_comparison_expr_exact variables e = (shaped variables e, shaped_valid variables)
