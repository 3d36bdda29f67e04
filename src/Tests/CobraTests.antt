-- ===== src/Tests/CobraTests.antt =====
-- A run of `SimplifyExpression` of src/Engine.cpp with the toy instance of CoBRA, and its theorem.
use co_bra_for_binary_ninja.Prelude.{ℕ, ◌≡◌, refl, true, [], ◌∷◌, some, List, Bytes, codes}
use co_bra_for_binary_ninja.Cobra.{Expr, value, node_value}
use co_bra_for_binary_ninja.Engine.Types.{SimplifyOptions, default_options, SimplifyStatus}
use co_bra_for_binary_ninja.Engine.Simplify.{
  z3_candidate, accept, verify, check_candidate, use_outcome, simplify_expression,
}
use co_bra_for_binary_ninja.Engine.SimplifySound.{by_name, simplified_sound}
use co_bra_for_binary_ninja.Engine.SimplifyPolicy.{IsPermitted, simplify_expression-IsPermitted}
use co_bra_for_binary_ninja.Tests.ToyCobra.{
  same_name, position, remap, negated, var, toy_library, toy-LibraryLaws,
}

-- ~~b over the variables a and b, at 8 bits
abbrev twice : Expr
twice = negated (negated (var 1))

abbrev names : List Bytes
names = codes "a" ∷ codes "b" ∷ []

abbrev options : SimplifyOptions
options = record default_options { bit_width = 8 }

run_simplified :
    (simplify_expression toy_library true twice names options).status ≡ SimplifyStatus.simplified
unfolding simplify_expression use_outcome check_candidate verify accept z3_candidate same_name
    position remap value node_value
run_simplified = refl

simplified_sound_example :
    (expr : Expr) × ((simplify_expression toy_library true twice names options).expression
      ≡ some expr)
    × ((sigma : Bytes → ℕ)
        → value 8 (by_name sigma names) twice
          ≡ value 8
              (by_name sigma (simplify_expression toy_library true twice names options).variables)
              expr)
simplified_sound_example =
    simplified_sound toy_library twice names options toy-LibraryLaws true run_simplified

simplify_expression-IsPermitted_example :
    IsPermitted toy_library twice names options true
      (simplify_expression toy_library true twice names options)
simplify_expression-IsPermitted_example =
    simplify_expression-IsPermitted toy_library twice names options true
