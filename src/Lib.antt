-- ===== src/Lib.antt =====
-- A verification library for Qrack, a quantum computer simulator in C++.
--
-- Stabilizer models QStabilizer (include/qstabilizer.hpp, src/qstabilizer.cpp), the simulator of
-- Clifford circuits: a tableau of 2n + 1 rows, the destabilizers, the stabilizers and a scratch
-- row, each a Pauli operator with a phase. The model is the object with a random global phase,
-- which is the default of the constructor: the phase offset, a float, is not part of the state.
--   Row, RowGates        one row: clifford, rowmult, rowset, and what each gate does to a row
--   Tableau, Gates       the object, SetPermutation, ParFor with its check, and the gates
--   Gaussian, Amplitude  gaussian, seed, getBasisAmp and GetAmplitude
--   Measure, Separable   ForceM, M, IsSeparableZ, IsSeparableX, IsSeparableY and IsSeparable
--   Pauli, Local, Acts   the independent description: products and commutation of Pauli operators
--                        as sums over qubits, and the action of a Clifford gate by a table
--   the other files      the invariant of a tableau, and lemmas and theorems on the operations
-- A gate's method is a function of its name on the tableau, which returns the tableau or the
-- exception that the code throws. The vectors r, x and z are a list of rows. A random bit that the
-- code draws is an argument. An amplitude is the power of i that it is, up to scale and global
-- phase, or zero. ParFor, which may run rows in several threads, goes through the rows in order:
-- its row functions touch their own row only.
--
-- BigInteger models include/common/big_integer.hpp and src/common/big_integer.cpp, the integers of
-- a fixed number of 64-bit words that basis states are numbered by:
--   Words, Bitwise, Shift    the words, the operators and the `bi_` functions, for any word count
--   Multiply                 products and divisions
--   Value                    the number that the words stand for, the independent description
--   the other files          lemmas and theorems on the operations
-- The tableau's permutations are plain natural numbers below 2^n.
--
-- SwapMap models QubitSwapMap (include/qubitswapmap.hpp). Ranges models the checks isBadBitRange,
-- isBadPermRange and ThrowIfQbIdArrayIsBad, and Integers the functions log2Ocl, intPowOcl and
-- isPowerOfTwoOcl (include/common/qrack_functions.hpp, src/common/functions.cpp). Bits has the shifts,
-- powers and masks of 64-bit words (pow2Ocl, pow2MaskOcl, bitRegMaskOcl), the bits of a number, and the
-- fields of an index: the values of registers, which the theorems speak of in place of masks.
--
-- Parallel models ParallelFor (src/common/parallel_for.cpp):
--   Order                par_for, par_for_inc, par_for_skip and par_for_mask, for any order of the
--                        iterations, which is an argument
--   Threads              the threads of par_for_inc: a shared counter, claims of strides of iterations,
--                        and every interleaving of their steps, as a relation and as a scheduler's run
--   Coverage, Schedule   the invariant of the threads, and what a finished run has done
--   Expand, Skip         the increment function of par_for_skip, and the indices that it visits
-- A step of a thread is a claim, one iteration or the end of a stride; the body of an iteration is taken
-- as one step, since the bodies write places of their own.
--
-- Engine models the arithmetic of QEngineCPU (src/qengine/arithmetic.cpp) and the defaults of QAlu
-- (src/qalu.cpp) on a dense state vector:
--   State                the engine, and what an operation is run with: the order of a loop, the contents
--                        of an allocated vector, the amplitude 0 and the change of sign, and the
--                        operations SetReg, M and X of other files, which are arguments
--   Targets              where an operation's loop sends the amplitude of an index
--   Arithmetic, Alu      ROL, INC, CINC, INCDECC, INCS, INCDECSC, and QAlu's defaults on them
--   Multiply, Modular    MUL, DIV, the functions modulo a number, and their controlled forms
--   Memory, Bcd, FullAdd the indexed loads and sums and Hash, decimal digits, FullAdd and the phase flips
--   Index, Two           the code's masks as fields of an index
--   Scatter, Moves, Pair loops that move amplitudes, each to a place of its own, in any order
--   Registers, Adding, Carry, Product   ROL, INC and DEC, INCDECC, MUL and DIV as maps of registers
--   Flip                 PhaseFlipIfLess
-- The amplitudes are of any type, as the operations only move them or change their sign. The state
-- vector is none where the code's pointer is null. Numbers to add and to multiply by are below 2^64.
-- A qubit's index and a length are unbounded, and the theorems are for fewer than 64 qubits.
--
-- Interface models the defaults of QInterface (include/qinterface.hpp, src/qinterface) that are sequences
-- of gates. A simulator is a record of the calls that it answers itself: X, MCInvert with both factors 1,
-- and M, whose outcome is the call's own. The defaults are functions of that record:
--   Gates                XMask, MACInvert, the CNOT family, Swap and its controlled forms, SetBit
--   Sums, Modular        INC, INCDECC, CINC, DEC, CDEC, and MULModNOut with its inverse and controlled forms
--   Adders, Logic        FullAdd and ADC with their inverse and controlled forms, and the logic gates
--   Shifts               Reverse, ROL, ROR, the shifts, ForceMReg, SetReg and SetPermutation
--   Basis                the law of a simulator of at most 64 qubits: its calls move the amplitude of a
--                        basis state to another
--   Masks, Lists, Ripple, Counting, Toggle   XMask, lists of qubits as numbers, and the rippled carries
--   Adding, Controlled, Agree, Undo, Parts, Product, Multiplying, Adder, AdderBack   the theorems
-- A theorem is on every lawful simulator and its own qubits and basis states; the tests have one whose
-- states are lists of amplitudes. That of Agree compares it with the dense engine. The fuel of
-- XMask is the 64 bits of the mask, and that of Reverse is its last index.
--
-- Circuit models QCircuitGate and some of QCircuit (include/qcircuit.hpp):
--   Matrix               amplitudes of any type, with the code's test of a norm, and 2x2 matrices of them
--   Gate, Passing        a gate; adding, removing and selecting a control; the tests, Combine and CanPass
--   Cone                 Append, IsNonPhaseTarget, DeletePhaseTarget and PastLightCone
--   LightCone            the past light cone as a recursion on the gates
--   Keys, Controls, MatrixAt   the bits of the keys, and the matrix that a gate applies in a basis state
-- A std::set and a std::map are lists in ascending order, and a key is a word of 64 bits. A matrix is a
-- value, as a gate's matrices are its own; a gate that an operation changes is part of its result. The
-- tests of a norm are the opposite of each other, so an amplitude that is no number is left aside.
--
-- Prelude has the shared names: Boolean tests, lists on native numbers, counted loops, sums, and
-- truth tables.
--
-- Numbers: a word of BigInteger and of the engine wraps around at 2^64. The exponent in clifford is an
-- 8-bit word that wraps around, and so is qubitCount << 1U in the tableau: 2n for fewer than 128 qubits
-- and 0 for 128. A qubit index and a number of qubits are unbounded, where the code has 8-bit words; the
-- theorems on a tableau with a row count are for fewer than 128 qubits, but for the one on gaussian. The
-- number of words of a shift of BigInteger is an int, and the number of threads of a loop an unsigned. Loops are structural recursion over the bound of the source's loop, so no fuel is needed, but
-- in bi_log2, log2Ocl and intPowOcl, whose fuel is the number of bits, in bi_div_mod, whose fuel is an
-- argument, and in the run of a loop's threads, which is given three steps for each iteration and one
-- for each thread.
--
-- Not modelled: the phase offset of the tableau and all else in floating point, Compose and Decompose,
-- the product of BigInteger for builds of at most 80 bits, the dispatch from matrices to gates, sparse
-- state vectors and the loops over them, the gates of the dense engine, and the other simulators (paged,
-- decision diagrams, OpenCL and CUDA).
pub mod BigInteger
pub mod Bits
pub mod Circuit
pub mod Engine
pub mod Integers
pub mod Interface
pub mod Parallel
pub mod Prelude
pub mod Ranges
pub mod Stabilizer
pub mod SwapMap
