-- ===== src/Lib.antt =====
-- FunctionalC: the C runtime of RxJS-style observables (core/src) and the planner that compiles
-- pipelines of operators to C loops (core/planner).
--
-- An observable keeps its items in a growable array of pointers (list.c), which a pipeline of
-- queries turns into other arrays, one `*_apply` function for each query (observable.c). `pop_all`
-- runs the pipeline and hands what comes out to the subscriber; where all queries allow it, it runs
-- a compiled form of the pipeline instead, which takes one item at a time through all stages and
-- makes no arrays. Timed sources push their items from the worker thread of a queue of tasks
-- (task.c). The planner takes a program of pipelines, decides which of them it can compile
-- (simplify.c), lowers those to a loop program of operations and state slots (lower.c), copies that
-- into its own representation and validates it (planner_ir.c), and simplifies the arithmetic of the
-- callers' functions that it inlines into the loop (graph_opt.c).
--
-- The files, and the code that each is about:
-- - Prelude.antt and its children: the names that the other files share, lists over the native
--   numbers, tests, signed integers, C strings.
-- - Runtime/PtrList.antt: core/src/list.c. A list is a record with the fields of `struct List`, its
--   array a list of slots as long as the allocation. Memory has the lemmas on slots, Contents the
--   effect of each function on the items, Refinement a run of calls against the plain sequence of
--   the items, Pool the pool of released lists.
-- - Runtime/Value.antt, Runtime/Query.antt: the `void *` values, the queries with their contexts,
--   and the `*_apply` functions of core/src/observable.c over the items of a list. Query/Buffers is
--   about `buffer` and `throttleTime`.
-- - Runtime/Pipeline.antt: `ensure_compiled_pipeline` and `pop_all_streaming_compiled` of
--   core/src/observable.c. Stages, Equivalence and Terminal compare the streaming loop with the
--   queries run one after the other; Streamable is about the test for streaming.
-- - Runtime/Observable.antt: observables and `pop_all`, `push_observable`, `subscribe` of
--   core/src/observable.c. Take and Leaks follow items that are pushed one at a time.
-- - Runtime/Task.antt: core/src/task.c. Queue is about the sorted queue, Worker about all
--   interleavings of clock, inserting threads (which read the clock before they take the mutex),
--   worker and stop, as a step relation, Accounts about where the inserted tasks are.
-- - Runtime/Sources.antt: the functions of core/src/observable.c that make observables (`of`,
--   `range`, `zip` of two, `interval`, `timer` with their task `addnext`) and `flush`, `flushOne`.
--   Emission is about ranges and zips, Timed and Interval about an interval on the worker with all
--   ends of its waits, Flush about `flushOne`.
-- - Planner/PipelineIr.antt: the data of core/planner/pipeline_ir.h, pipeline_plan.h,
--   function_registry.h and diagnostics.c.
-- - Planner/Simplify.antt: core/planner/simplify.c. Planner/Lower.antt: core/planner/lower.c and
--   loop_ir.h. Planner/PlannerIr.antt: core/planner/planner_ir.c. Planner/EndToEnd.antt: the three
--   passes composed as transpiler.c runs them.
-- - Planner/StringBuilder.antt: core/planner/string_builder.c, the buffer that the generated code
--   is written into. Growth is about its size, Written about one call, Appended about a run of
--   calls joined by `&&`. `realloc` is a parameter that may answer NULL.
-- - Planner/GraphOpt.antt: the expressions of core/planner/graph_opt.c and `rx_simplify_expr`.
--   Meaning gives an expression a value, Shape is about constants and variables.
-- - Planner/GraphOpt/Parse.antt: the parser of graph_opt.c for the expressions of the callers'
--   functions (`rx_parse_expr_cmp` and what it calls), the replacement of parameters by arguments,
--   and `rx_emit_expr`. A text is a list of character codes (Prelude/Text.antt). Decimal is about
--   the numbers in it, Leaves and RoundTrip about parsing what was emitted, Lengths and Total about
--   the end of the parser, Inline about the value of an expression with its arguments.
-- - Planner/GraphOpt/Extract.antt: the rest of graph_opt.c up to the loop: how
--   `try_parse_function_expression` finds a function in the source of the callers' functions
--   (`try_extract_graph_function`), its aliases and the expression it returns
--   (`rx_extract_return_expression`), and hands that to the parser. Trim is about the scans of
--   texts, Returned about a function's body, Call about a whole function.
-- - Planner/GraphOpt/LoopBody.antt: `rx_try_emit_graph_optimized_loop_body` of graph_opt.c for the
--   sources that start with a number, as a list of lines with their texts. Run is what the lines do
--   when the C program runs them (two declarations of one variable are no C), Passing is about the
--   lines of maps and filters, Reduced about the whole loop with a reduce behind them.
--
-- - Tools/Ast.antt, Tools/Registry.antt: the data of core/tools/dsl_ast.h, ir.h and the table of
--   core/tools/operator_registry.c.
-- - Tools/Lexer.antt: core/tools/dsl_lexer.c. A lexer holds the text from its position on. Progress
--   is about what is left behind a token, Feeds about texts made of tokens.
-- - Tools/Reader.antt and Tools/Parser.antt: core/tools/dsl_parser.c. Reader has the outcomes and
--   the reads of one token (`accept`, `expect`, `expect_ident`, `expect_value`); Parser/Functions,
--   Sources, Chains and Programs the grammar; Parser/Total that it ends; Parser/Printer and
--   ChainPrinter a program as tokens, and Parser/RoundTrip that it is read back.
-- - Tools/Lowering.antt: core/tools/lowering.c, with Typing and Complete about success, Uses, Blame
--   and Refusals about errors. Tools/Plan.antt: core/tools/planner.c. Tools/Compile.antt: the
--   stages in the order of `main` of core/tools/pipeline_codegen.c.
--
-- Numbers and loops. A number is a natural number, or an integer where the source has a sign; the
-- bounds under which no `int` overflows are theorems about the list's capacity, an interval's count
-- has no result beyond an `int`, the counts of `take` and `skip` are taken without a bound, and an
-- overflow of an `intptr_t` in a folded constant, undefined in C, is left out. Every loop over an
-- array is a recursion on its items. The loop of `normalized_capacity` runs on fuel, the capacity
-- asked for, which is enough because each round at least adds one. The expression parser runs on a
-- fuel of two more than the length of the text, for the brackets and for each loop; each of them
-- takes a character. The main loop of `ensure_compiled_pipeline` runs on the count of handlers that
-- the source computes first.
--
-- Not modelled: allocation that fails outside the string builder (the runtime does not check for it
-- either), the profiler's counters, what is printed, the lifetime of the blocks that pairs stand
-- in, and the callers' functions, which are parameters with no effect of their own. Of the
-- functions that make observables, `from` and a `zip` of more than two are left out; of the loop
-- that graph_opt.c emits, its head and the zip sources. The emission of C text without inlining
-- (astgen.c, c_model.c, c_render.c, compiled_segment.c) and the benchmarks are left out.
pub mod Prelude
pub mod Runtime
pub mod Planner
pub mod Tools
