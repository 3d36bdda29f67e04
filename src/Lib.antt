-- ===== src/Lib.antt =====
-- A verification library for the CoBRA plugin for Binary Ninja (include/smba, src).
--
-- The plugin recovers bit-vector expressions from Binary Ninja's MLIL, simplifies them with CoBRA or
-- proves comparisons constant with Z3, and writes the results into a copy of the function. A workflow
-- activity runs this in the analysis; a command registers the activity; results are logged as JSON.
--
-- The parts, and the files that model them:
--
--   Engine/Types, Validate, Shape, Build, Prove, ProveSound, ProveResult
--       src/Engine.cpp: ValidateComparisonExpr, IsSupportedComparison, BuildPredicateExpr,
--       BuildComparison, FormatModel, QueryPredicate and ProveConstantComparison. Z3 is the pair of
--       interfaces Terms and Solvers of Engine/Z3, with laws that state its documented behaviour.
--       `none` stands for undefined behaviour or a null term handed to Z3.
--   Engine/Simplify, SimplifySound, SimplifyPolicy
--       src/Engine.cpp: SimplifyExpression. CoBRA and its Z3 verifier are the interface Library.
--   PluginJson/Escape, Utf8, Grammar, EscapeSound
--       src/PluginJson.cpp: AppendHexByte, IsContinuation, ValidUtf8Length and EscapeJsonString.
--       Grammar is an independent relation between JSON string contents and the text they denote.
--   PluginJson/Format, Json, Spelled, FormatSound
--       src/PluginJson.cpp: AppendQuoted, AppendBoolean, AppendUnsigned and the printers of the two
--       records, FormatPreviewMachineResult and FormatRegistrationMachineResult. Json is an
--       independent relation between JSON values and the bytes that spell them.
--   Adapter/Recovery/State, Leaves, Visit, and Frame, Names, Budget, Fuel, Spending on them
--       src/BNAdapter.cpp: RecoveryStats, RecoveredExpression, LeafName and the class
--       ExpressionRecovery, one function per method. The members and the result are the record
--       RecoveryState, which every step takes and returns. The SSA function is the interface Ssa,
--       and the functions that make CoBRA's nodes are the interface Factory.
--   Adapter/Index, Candidates, Collect, and Collected, CollectLoop, Authorized, Fresh, Preview on them
--       src/BNAdapter.cpp: IndexReachableExpressionTree, IsNormalMLIL, CollectCandidates and
--       PreviewFunction. A NormalFunction is what Binary Ninja shows of a function; Services holds
--       the engine with the libraries that it is built on.
--   Adapter/Roots, BuildMlil, Select, Copy, Transform, Entry, and BuildMeaning, Selected, Preserves,
--   CopyRuns, Commit, CopyInvariant, Whole, AppliedRoots, AppliedCount, Marked, Covering, Chosen,
--   Replaced on them
--       src/BNAdapter.cpp: IsCandidateRoot, ComparisonForOperation, IsRecoverableRoot, ComparisonText,
--       the order of CollectCandidates, BuildMLIL, MarkExpressionTree, MoveReports and
--       TransformFunction (from the collected candidates on in Transform, the whole in Entry) and
--       RunMBAActivity. A run of the copy is Copied: an exception keeps the candidates and the count
--       that the copy has changed until then, and the catch clause resets them. The new function is
--       the interface Builder; what old and new expressions mean is the interface Meaning, with one
--       law for CopyTo, and what the operations of MLIL compute is the interface Semantics.
--   Command, and Logged, Registration on it
--       src/Plugin.cpp: LogMachineResult, LogReport, RunPreviewCommand and the null check and the
--       logging of RegisterOrRefreshWorkflow, with the machine-readable lines that they log. In a
--       record of a registration the action is one of the three texts that PluginJson.h names.
--   Workflow/Host, Dispatch, Activity, Register, Compatibility, and ActivityLaws, RegisterLaws,
--   Ownership on them
--       src/BNAdapter.cpp: ActivityDispatchState, RefreshDispatch, DispatchMBAActivity and
--       AddActivityToWorkflow; src/Plugin.cpp: RegisterOrRefreshWorkflow with its two
--       records, and RegisterCompatibilityBaseWorkflow. The globals are explicit state; each critical
--       section is one step; Binary Ninja's workflows are the interface Host, on which no law is
--       assumed.
--   Decimal, Cobra
--       std::to_string on integers, and CoBRA's expression trees with their meaning over w-bit
--       vectors, as the interfaces above use it.
--   Tests
--       Small instances of every interface, runs of the models, and the theorems at those inputs.
--
-- Integers: widths are written out where the code can wrap (`% 2 ^ w`; a size_t that is
-- decremented). Counts of elements in containers are unbounded. The models of the code recur on
-- the structure of expressions and lists, with two exceptions. Decimal counts rounds, one more than
-- the number itself, which read_from-to_string of Decimal proves to be enough. Visit follows SSA
-- definitions, so it counts nested calls, two more than maxDepth: CountNode stops a deeper call
-- before it nests another, and greater fuel changes nothing.
--
-- Not modelled: log lines for people, plugin start-up, and the Python scripts. The copy leaves out
-- PrepareToCopyFunction, PrepareToCopyBlock and SetCurrentAddress, which carry layout and addresses
-- only. std::sort is an insertion sort: the sorted candidates have different roots, so the order of
-- the comparator leaves one result.
pub mod Prelude
pub mod PluginJson
pub mod Decimal
pub mod Cobra
pub mod Engine
pub mod Adapter
pub mod Workflow
pub mod Command
pub mod Tests
