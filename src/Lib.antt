-- ===== src/Lib.antt =====
-- The Ocelotl tensor compiler: its command line, its lexer, its parser, its semantic analyzer, its
-- intermediate representation, its code generator and its runtime.
--
-- The compiler turns a source text into LLVM IR in a line of stages, each of which gives the next
-- its result: src/frontend/Lexer.cpp (bytes to tokens), src/frontend/Parser.cpp (tokens to the
-- syntax trees of include/ocelotl/ast/AST.hpp), src/semantic/SemanticAnalyzer.cpp (trees to a
-- table of symbols with their types), src/ir/IRGenerator.cpp (trees and table to an intermediate
-- representation, which src/ir/IRVerifier.cpp checks) and src/codegen/llvm.
-- compileToLLVM of src/main.cpp calls them in this order.
--
-- Files and what they model:
--   Base and its children: the library names that the others share, tests on numbers, lists,
--     bytes, results, and std::unordered_map as a list of entries (Base/Maps).
--   Frontend/Token: include/ocelotl/frontend/Token.hpp and src/frontend/Token.cpp.
--   Frontend/Lexer: the class Lexer, one function to a method. Its children describe where a lexer
--     stands in its source (Position), what one token is (Scan), the stream of tokens (Tokens) and
--     the counters of a location (Bounds).
--   Frontend/Ast: the syntax trees.
--   Frontend/Parser and Frontend/Parser/Monad: the class Parser, one function to a method. Its
--     other children describe the tokens before a parser (Stream), the grammar of docs/language.md
--     (Grammar), which has its own table of operators and its own reading of decimal digits
--     (Literals compares it with std::stoull and std::stoll), and the methods as readers of that
--     grammar (SoundLoops, SoundExpressions, SoundTypes, SoundStatements, Total).
--   Semantic/Symbols: the class SymbolTable. Semantic/Analyzer: the class SemanticAnalyzer, one
--     function to a method. Semantic/Typing has the typing relation, Semantic/Scopes,
--     Semantic/Merges and Semantic/Statements what statements do to the table.
--   Ir/Module: include/ocelotl/ir/IR.hpp and src/ir/IR.cpp. Ir/Generator and
--     Ir/Generator/ControlFlow: the class IRGenerator, one function to a method. Ir/Verifier: the
--     class IRVerifier, one function to a loop or a lambda of verify. Ir/Blocks, Ir/Numbering,
--     Ir/Generation, Ir/Branches and Ir/Programs follow the numbering of blocks and values through
--     the generator, Ir/Counts and Ir/Validity what the verifier assures. Ir/Valid describes a
--     valid list of blocks by positions; its children follow the generator over such lists, from the
--     changes of a block (Steps, Rewiring) over expressions, the branches of a conditional and their
--     end block (Opening, Joining, Forks, Merging, Meeting) to statements and modules (Modules), and
--     the verifier's three loops over them (Collecting, Predecessors, Checking, Accepting).
--   Codegen/Storage: tensorStorageSize of src/codegen/llvm/LLVMCodeGenerator.cpp, and Codegen/Sizes
--     what it computes. Codegen/Llvm: what the code generator calls of LLVM. Codegen/Lowering: the
--     class LLVMCodeGenerator, one function to a loop or a visitor of generate; Codegen/Reached,
--     Codegen/Visits and Codegen/Lookups follow the maps that it fills and reads, Codegen/Composed
--     runs it behind the generator of the intermediate representation.
--     Codegen/Optimizer: the class LLVMOptimizer.
--   Driver/CommandLine: parseCommandLine of src/main.cpp, and Driver/Options what it accepts, with
--     the words' own table (Settings) and the loop over them (Loop).
--     Driver/Output: defaultOutputPath and emitTokens, and Driver/Pipeline: compileToLLVM.
--   Runtime: runtime/runtime.c. Runtime/Requests says how it answers, Runtime/Logs and
--     Runtime/Requested what the code generator requests of it.
--
-- How it corresponds to the code. A method that changes its object takes the object and returns it
-- changed; what it throws is an error value. A byte is a number, a std::string a list of bytes, a
-- std::size_t a natural number. The type double, std::stod, LLVM, the C library, the
-- replacement of a file's extension and the output of a number are parameters; a call of LLVM is a
-- value with the call's arguments, which the parameter performs on a state of its own. A loop over
-- the entries of a std::unordered_map visits them in an order that is a parameter (Iteration,
-- IdIteration), of which only is assumed that it keeps the entries. std::stoull and std::stoll are
-- modelled on the digits of a literal, with out_of_range at 2^64 and 2^63.
--
-- Fuel. The lexer's loops take the length of the source, of which each round takes a byte. The
-- parser takes the length of the source and two: a method called with more fuel than there are
-- tokens left has enough, since each nested call and each round of a loop is behind a token.
--
-- Not modelled: null pointers in trees (the parser makes none), the texts of diagnostics beyond
-- their message and place, the wrap-around of block and value ids (they count objects in memory),
-- the target code generator, which mostly calls LLVM, and the driver's files.
pub mod Base
pub mod Frontend
pub mod Semantic
pub mod Ir
pub mod Codegen
pub mod Driver
pub mod Runtime
