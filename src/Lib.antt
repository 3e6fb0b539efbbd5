-- ===== src/Lib.antt =====
-- A verification library for onnxcraft: its C bridge, the layer between the Go package and the C API
-- of ONNX Runtime, and the parts of the Go package that own what the bridge hands out.
--
-- The program. runtime.go, session.go and tensor.go are the Go package. They call bridge.c, declared
-- in bridge.h, which opens the shared library of ONNX Runtime, builds session options, adds an
-- execution provider, loads a model with the description of its inputs and outputs, runs it, and
-- gives everything back. bridge.c calls ONNX Runtime through the table of functions OrtApi
-- (internal/ort/onnxruntime_c_api.h), and the C library. What makes it correct is ownership: every
-- handle and every block of memory is released once, on every path, and nothing is used after it.
--
-- The model. Native is C: a World holds the ledger of live resources (handles of each kind, open
-- libraries, heap blocks) and the state S of the libraries. A function of bridge.c is a function
-- from a world to a run, which is done with an answer and a new world, or a fault. It faults where C
-- has undefined behaviour: a handle or block that is released or used while it is not live, a null
-- pointer that is read through or passed as a handle, an index outside an array, an array that is
-- smaller than what is written to it: `local` and the blocks for values, ports, names and dimensions have their sizes.
-- Native/Flow is the
-- code with a `fail` label: its steps go on or jump, with the local variables. Native/Rules,
-- Native/Calls and Native/Flow/Rules are the rules by which ownership is proved; `Ensures P r` says
-- that r is done, without a fault, in a state where P holds.
--
-- ONNX Runtime, the loader and the C library are not in the repository. They are parameters: Ort/Api
-- has one field for each of their functions that bridge.c calls, over any state, with any answers.
-- Ort/Calls wraps each with what the header documents of it: which arguments must be live, and which
-- handles the answer gives to the caller. Ort/Enums has the enumerations. Nothing else is assumed: every call may fail at any time, every count, rank and device may be any value of its type. Only Open of
-- runtime.go needs that no status has the code ORT_OK, and says so.
--
-- Where the parts of bridge.c and bridge.h are:
--   Bridge/Types        oc_runtime, oc_port, oc_session, oc_options, oc_tensor of bridge.h
--   Bridge/Open         oc_open and oc_close
--   Bridge/Options      oc_options_new, oc_config, oc_options_free, oc_run_options, oc_terminate,
--                       oc_run_options_free, oc_error_code, oc_error_message, oc_error_free
--   Bridge/Provider     oc_provider
--   Bridge/Session      oc_session_free
--   Bridge/Load         oc_load; Port is one round of its loop, Body the rest up to the label, and
--                       Answered what ONNX Runtime has answered of a session that is returned
--   Bridge/Run          oc_run, oc_run_into and oc_outputs_free
--   Bridge/Lifecycle    oc_open then oc_close, and oc_load then oc_session_free
--   Bridge/Wide         wide_path, which oc_open and oc_load use on Windows
--   Bridge/Interface    the functions of bridge.h as a record, the laws that the Go package relies on,
--                       and that bridge.c fulfils them
-- Where the parts of the Go package are, over any implementation of that interface:
--   Go/Cgo              the functions of cgo and of Go's library that it calls, parameters
--   Go/Result           a result or an error
--   Go/Tensor           DataType, Element, tensorSize, NewTensor and Data of tensor.go
--   Go/Runtime          runtime.go: Types, Errors (nativeError), Config and Options (the options of a
--                       session), Load (a model and its ports), Refs (Open, Close, release, Load,
--                       LoadBytes, and Close of session.go), Schedule (sequences of calls)
--   Go/Runtime/Owned    what these own, file by file
--   Go/Session          run of session.go: Operand and Describe (its checks, and the descriptors of its
--                       tensors), Context (what it asks of its context and the gate), Outputs (the
--                       copies of the outputs), Run (the whole, and Run and RunInto). Watch is
--                       watchContext: the callback that terminates a run when its context ends, and the
--                       function that joins it, as steps that interleave. Disjoint, Apart and Checked
--                       are about the checks, Watched about what is live through a watcher's steps, and
--                       Ran about what a run leaves behind
--   Go/Program          sequences of loads, runs and closes on one runtime, with the pool of descriptors
-- In Bridge/Open, Owned is what a runtime owns, and Ends and Correct how oc_open ends; in Bridge/Load, Round,
-- Progress, Loop, Metadata and Correct follow the code from one round outward; in Bridge/Run, Create,
-- Answer, Collect and Finish are its stages. Tests applies the theorems to the small ONNX Runtime of
-- Tests/Fixture.
--
-- How C is represented. An out parameter is part of the answer. A function's local variables that
-- own something are the state of its flow. Pointers are numbers, `none` where they may be NULL, and
-- strings that ONNX Runtime or the caller owns are strings. The platform, with dlopen or with
-- LoadLibraryExW, is a parameter, so that both branches of each test of _WIN32 are there. The ints of
-- oc_options are signed numbers. size_t is
-- 64 bits wide: sums and the counts that ONNX Runtime writes are reduced modulo 2 ^ 64, and sizes
-- are those of a 64-bit target. The loops run over counts, so that no fuel is needed.
--
-- How Go is represented. A function returns a result or an error, without the text that wraps it; a
-- deferred call stands where the function ends. A map is the list of its entries in any order. An int
-- is a signed number, and the number of references does not reach 2 ^ 63. The mutex of a runtime makes
-- each of its calls one step, so that what goroutines do is a list of calls. A run is one such step too,
-- though Go lets runs overlap; but the callback of its context interleaves with it: the two numbers
-- before and after say how far the callback has come when the bridge is called and when it returns. A
-- tensor of the caller is its address and size, one that Run returns has its bytes. The context and the
-- select on the gate are parameters, with any answers; the pool answers its buffer or an empty one.
-- Pinning and alignment change no value and are left out.
--
-- The data of an output has as many bytes as ONNX Runtime says, and reading more of them, or any at
-- NULL, is a fault. unsafe.Slice panics for a shape of 2 ^ 63 dimensions or more, one with dimensions at
-- NULL, and one beyond the address space; such a panic is the outcome slice_panic of run, whose deferred
-- calls are made as at an error and from which the caller recovers. The descriptions that load makes read a shape of the bridge, which has
-- its dimensions.
--
-- Not modelled: what ONNX Runtime does inside a call; runs that overlap; Inputs and Outputs, which copy
-- a field; the printing of data types and errors; testdata/failing_runtime.c, a test double; the parts of the headers under internal/ort that bridge.c does not use.
pub mod Common
pub mod Native
pub mod Ort
pub mod Bridge
pub mod Go
mod Tests
