-- ===== src/Lib.antt =====
-- The core of sin, a bytecode interpreter with an item store: its values, stacks, opcodes, hash
-- tables, items and their file, tasks, library calls, network lines and disassembler, as they stand
-- in src/*.c of the repository.
--
-- How the program works. An item of the store holds a value or bytecode. `interpret` runs the
-- code of an item on the virtual machine `VM`: a stack of values, which the opcodes work on, and a
-- call stack, whose frames keep where a caller was and the registers of its part of the value
-- stack. Items have their children in hash tables, and the whole store is saved to one file. Tasks
-- run items by a timer, each on a virtual machine of its own; one of them, the input task, calls
-- `net.input` to move what the lines of the network received into items. A program reaches tasks,
-- lines and strings by the opcode of a library call, which looks its function up in a table.
--
-- What can go wrong. `Outcome` is the result of every call: `ok`; `raised`, a SIGUSR1, whose handler
-- leaves the interpreter by a long jump; and `undefined`, what C does not define, such as an index
-- outside an array. A theorem that says that a call returns excludes both.
--
-- - Value: src/value.c, the tagged union `VALUE_t`. A payload is a bit pattern or a string. The
--   truth of a value is in Value/Truth.
-- - Stack: src/stack.c. The array of 1024 cells is a function, and each access checks its index.
--   Stack/Contents relates it to the list of its values, `Holds`, Stack/Bounded to an abstract
--   bounded stack, Stack/Reset is about `reset_stack_to`. The loop of `reset_stack_to` has the
--   distance to its end as fuel, which is enough since each round lowers the top by one.
-- - Vm: src/vm.c. Vm/Frames is about a call and its return. An item and a place in its code are
--   numbers here: the call stack only keeps them.
-- - Word: the 64-bit arithmetic of src/interpret.c on bit patterns. An `int64_t` that overflows
--   wraps around here, as it does in two's complement; the theorems on numbers ask that the result
--   fits. Word/Signed and Word/Division relate the patterns to the integers.
-- - Interpret: the opcodes of src/interpret.c. Code is a list of bytes, and `nextop` an index in it.
--   Interpret/Code reads operands; Arith, Compare, Logic, Control and Locals are the opcodes, and
--   their children what is proved of them.
-- - Hash and HashTable: the hash of a key and the chained table of src/item.c. HashTable/Entries,
--   Placed and Writes carry the proofs, HashTable/Map states them against a partial map.
-- - Items: the items of src/item.c, in a store that numbers them; a freed or missing pointer is a
--   number without an item. Items/Names cuts a name into its layers, Items/Walk finds and inserts.
--   Items/Valid says what a well-formed store is, Items/Make, Paths, Save and Put are about the
--   steps of a walk, and Items/Insert and InsertCode about insert_item and insert_code_item.
--   Items/FullName is get_itemname and get_itemfilename, SetFound is about set_item, ErrorItem is
--   set_error_item.
-- - Items/File: write_item, read_item and the two functions on the whole store, on lists of bytes.
--   Writing takes the depth of the tree as fuel and reading the length of the file, since each item
--   takes a byte at least; Trees says which stores are such a tree, Reads, RoundTrip and Reload
--   relate what is read to what was written.
-- - Items/Delete: delete_item and destroy_item, on a fuel of the number of items and one, which is
--   enough where the children of an item are owned by it alone. Removal has that ownership and
--   the order of children; Owned, Walks, Kept and Ordered are about what insertion does to them.
-- - Interpret/Machine: the opcodes of src/interpret.c that use items. `op_fetchitem` takes the
--   interpreter that it calls as an argument. Machine/Assign and Fetch are about assignment and
--   calls; Machine/Assemble puts names together, on a fuel of the length of the code and one, since
--   each layer and each inner name takes a byte of the code at least.
--   Machine/AssignCode is op_assigncodeitem, which takes the compiler as an argument.
-- - Interpret/Host: what library calls share with the rest of the program: tasks, lines, the flags of
--   `config`, and a list of the calls that leave it, in their order.
-- - Interpret/Loop: the dispatch table and `interpret` of src/interpret.c, on fuel that calls and
--   opcodes take. Loop/Ends is about its end, and Loop/Pushes and Gets about the contract of a call.
--   A run out of fuel is `undefined`.
-- - Libcall: src/libcall.c, with Strings, Sys, Tasks and Net for the four libraries and Table for the
--   look-up. The scan of `net.input` has the number of lines as fuel, one round of all of them.
-- - Network: the lines of src/network.c. Bytes may be nulls, at which the
--   functions of C on strings stop; handles are numbers.
--   Network/Events has the callbacks of the event loop and of telnet, and what they reach.
-- - EventLoop: input_processor of src/network.c, which flushes the lines and runs the input task.
-- - Sdiss: the disassembler of src/sdiss.c, whose output is a list of printed opcodes. It takes the
--   length of the code as fuel.
-- - Error: the error codes and messages of src/error.h and src/error.c.
-- - Itoa: itoa of src/util.c, in base 10.
-- - Task: src/task.c. Task/Ids is about the ids, Task/Finalised about the end of the program. The
--   timer of libuv is left out.
-- - Tests: runs at concrete inputs. murmur3_32 is tried on published vectors.
--
-- Not modelled: the compiler, a bison grammar and a flex lexer with the driver src/scomp.c, of which
-- parse_source is a parameter; start-up, options, signals, logging and memory allocation in
-- src/sin.c, src/log.c and src/memory.c; the opening and closing of files; src/libtelnet.c, a
-- library of another project. Sharing and freeing of string
-- pointers is followed only where `reset_stack` frees cells, and the bytecode of an item that is
-- freed while it runs stays readable here. The size of a hash table is a 32-bit number in the
-- program and unbounded here. Upper and lower case are those of the ASCII letters. Log
-- messages are left out with what they need: a refused insertion or deletion takes the full name of
-- the item in 264 bytes, which a longer name overflows. What the telnet library hands back to be
-- sent within `net.write` is an event of its own.
pub mod Prelude
pub mod Outcome
pub mod Value
pub mod Stack
pub mod Vm
pub mod Word
pub mod Interpret
pub mod Hash
pub mod HashTable
pub mod Items
pub mod Network
pub mod Itoa
pub mod Task
pub mod Error
pub mod Libcall
pub mod Sdiss
pub mod EventLoop
mod Tests
