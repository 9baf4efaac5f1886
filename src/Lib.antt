-- ===== src/Lib.antt =====
-- The novus compiler and runtime.
--
-- novus compiles programs of a functional language to an executable of byte code (novasm) and runs
-- that on a virtual machine. The compiler reads text (include/input, src/input), makes tokens of it
-- (src/lex), parses them (src/parse), analyses the tree (src/frontend) into a program (src/prog),
-- optimises it (src/opt) and generates byte code (src/backend) through an assembler (src/novasm),
-- which writes the executable to a file. The virtual machine (src/vm) reads the file and runs it.
--
-- Input.CharEscape   src/input/char_escape.cpp: `escape` and `unescape`, of which `escape_str` is the
--                    overload for strings.
-- Lex.Token          include/lex/{token,token_kind,keyword,error}.hpp: the data of tokens.
-- Lex.Chars          src/lex/lexer.cpp, the character classes.
-- Lex.Source         LexerImpl of include/lex/lexer.hpp and src/lex/lexer.cpp: a position and the
--                    characters that are left. consumeChar and peekChar give 0 at the end.
-- Lex.Buffer         the same with the read buffer of the class Lexer, and the proof that it
--                    implements Lex.Source.
-- Lex.Number, Lex.Text, Lex.Word   the token functions of src/lex/lexer.cpp, one definition for
--                    each; a loop is a recursion on the input and carries its variables in a record.
-- Lex.Next           next and lexAll. `lex_from` takes fuel; the length of the input plus 1 is
--                    enough, since each token but the last takes a character.
-- Lex.Spans          the positions of the tokens.
-- Novasm.Executable  include/novasm/executable.hpp. A byte is a number below 256.
-- Novasm.Serialization   src/novasm/serialization.cpp: the iterators are lists of bytes, a writer
--                    appends to its list, a reader gives the value and the bytes that are left.
-- Novasm.OpCode      include/novasm/op_code.hpp.
-- Novasm.Assembler   src/novasm/assembler.cpp: an operation takes the assembler's state and gives a
--                    new one, or throws. Novasm.Assembler.Commands is a program as data and the
--                    image that it stands for, without dummy offsets.
-- Novasm.Disassembler   src/novasm/disassembler.cpp: disassembleInstructions. The length of the code is
--                    enough fuel for its loop, since each round takes a byte.
-- Parse.Tokens       getCat of src/lex/token_cat.cpp, src/parse/op_precedence.cpp and getKw: what the
--                    parser asks of a token.
-- Parse.Syntax       include/parse: the parse tree, with a constructor for each factory of a node and
--                    for each err… function of src/parse/error.cpp. A list of nodes is a data type of
--                    its own beside the nodes.
-- Parse.Input        Parser of include/parse/parser.hpp: the tokens that are left. A parser gives a
--                    value and the tokens that are left then, or reads an empty std::optional.
-- Parse.Types, Parse.Expr, Parse.Stmt   src/parse/parser.cpp: types, expressions and statements, with
--                    the validate functions of their parts, and parseAll. A function that calls
--                    nextExpr takes it as an argument, since it calls it one level deeper;
--                    `next_expr` is where the two meet. Each call of nextExpr and each round of a
--                    loop takes fuel: 8 for each token that is left and 9 more are enough, since
--                    each expression, type and round of a loop takes a token where one is left.
--                    Print writes a tree out as tokens, Reads has the proofs, with Parse.Runs.
-- Prog.Funcs         include/prog/sym/{func_decl,overload_options}.hpp and
--                    src/prog/sym/func_decl_table.cpp: the table of the declared functions. The
--                    insertion of std::unordered_multimap is an argument, of which the theorems ask
--                    only that what held of the entries and holds of the new one holds of all
--                    afterwards.
-- Prog.Overload      src/prog/internal/{implicit_conv,overload}.cpp: findImplicitConv, findOverload and
--                    the lookups that use it. A conversion's function must stand in the table under
--                    the name of the type, which is why the table's invariant matters here.
-- Vm.Value, Vm.Exec  src/vm/internal/{value,ref_ulong,stack}.hpp and the cases of `execute` in
--                    src/vm/internal/executor.cpp on ints and longs. A reference to a boxed long is
--                    its content, which nothing changes; whether an allocation succeeds is an
--                    argument. A shift whose count is not below the width, and the least number
--                    divided by -1, are undefined outcomes. Other signed arithmetic wraps around.
-- Vm.Frames          `call`, `callTail` and the case Ret of src/vm/internal/executor.cpp, with the stack
--                    as memory: what has been popped stays where it was. `trap`, which Ret calls
--                    first, is left out.
-- Vm.Gc              collect, populateMarkQueue, mark and sweep of
--                    src/vm/internal/garbage_collector.cpp. The heap is the allocator's list of
--                    references, each with its address and what it refers to. A round of marking
--                    takes one reference from the queue, and pushes its children once, so the sum
--                    that `weight` computes is enough fuel. What the executors allocate during the
--                    sweep is an argument of `collect`. Graph says which references a reference
--                    uses and what the stacks lead to, without the functions of the collector.
-- Opt.Intrinsics     precomputeIntrinsic of src/opt/internal/intrinsics.cpp on ints and longs, and the
--                    instruction that src/backend/internal/gen_expr.cpp emits for an intrinsic. The
--                    float and string cases call the C++ library and are left out. A shift count
--                    outside the width and the least number by -1 are undefined here too.
--
-- The names that components share stand in Base: Booleans, lists over the native numbers, strings as
-- lists of character codes, and the C++ operators on integers of w bits (Base.Words).
--
-- Positions and counters that C++ keeps in an int, such as m_inputPos of the lexer and m_highestIndex
-- of the function table, have no bound here, which matters only for more than 2 ^ 31 characters or
-- functions.
--
-- Not modelled: the executors' threads and the registry that pauses them, whose atomics need the C++
-- memory model; the texts of the parser's errors, the analysis, the expressions of a program
-- and the passes over them, the rest of the backend and of the executor, the allocators, when
-- the collector runs, and the apps; printing, generateLabel and getLabels of the assembler;
-- floats, but for the digits and raw bits of literals.
pub mod Base
pub mod Input
pub mod Lex
pub mod Novasm
pub mod Opt
pub mod Parse
pub mod Prog
pub mod Vm
