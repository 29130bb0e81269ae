-- ===== src/Lib.antt =====
-- Charlotte, an inference harness that runs an open-weight model in the browser: the reading of a
-- GGUF file's index, the planning of where its weights, its cache and its working buffers lie, and some
-- services beside them.
--
-- The reader turns the resident prefix of a file into an index or an error, or says how much more of
-- the file it needs. The planner takes that index, a description of the model, the device's limits
-- and the load policy, and gives every tensor, every layer's cache and every working buffer a range
-- of a device buffer.
--
-- Base: shared names, lemmas on lists and bits, 64-bit words with their wrap-around.
-- Gguf/Checked: src/core/gguf/checked.h. A Boolean with an out-parameter is an Option.
-- Gguf/Types: src/core/gguf/types.h and the records of src/core/gguf/index.h. A text is the list of
-- its bytes; a float of the metadata is the bit pattern that the file holds.
-- Gguf/Source: src/core/gguf/byte_source.h. The interface is a record; Serves is its contract for a
-- file of which the first bytes are held, and IsByteSource is what the reader uses of it.
-- Gguf/Source/Memory is about MemoryByteSource.
-- Gguf/Sorting: the sort that the reader uses, as an insertion sort by the same comparison. Where
-- std::sort leaves the order of equal elements open, this one keeps it, and the theorems on the
-- sorted list use only that it is a sorted permutation.
-- Gguf/Action, Gguf/Reader, Gguf/Parse: src/core/gguf/reader.cpp. Each member function of Reader is
-- an action on the reader's state: the cursor, the bytes needed, the tensors and the metadata so
-- far. The children prove what each function does to the cursor and to the state.
-- Gguf/Index: the lookups of src/core/gguf/index.cpp, and in Gguf/Index/Typed its typed accessors.
-- Gguf/Arrays: src/core/gguf/arrays.cpp and arrays.h. The largest size_t is a parameter, as it
-- differs between the platforms.
-- Formats: src/core/formats/device_layout.h and format.h, less the repacking and the shaders.
-- Residency/Packer, Residency/Plan, Residency/Model: src/core/residency/plan.cpp and plan.h,
-- src/core/residency/weight_view.h, src/core/model/model_description.h, src/core/policy/policy.h.
-- Residency/Routes: src/core/residency/routes.cpp and routes.h. What the call leaves in its
-- out-parameters is the value of a call that succeeds. Where the source would index past the end of
-- the plan's buffers or of the index, which its callers rule out, the model leaves the plan or refuses.
-- Model: src/core/model/model_description.h. Arch, Arch/Names, Arch/Describe: src/core/arch/architecture.h,
-- describe.h and describe.cpp; Arch/Describe/Architectures: the three architectures under src/core/arch.
-- The result is a value or a failure with its subject, and what the call leaves in its out-parameters is
-- the value of a call that succeeds. A float is its bit pattern.
-- Arch/Faults says what a file has wrong for each kind of failure, from the keys, the tensors and the
-- numbers that an architecture asks for.
-- Capability: src/core/capability/capability.cpp. Preflight: src/core/preflight/preflight.cpp and
-- preflight.h: it asks the architecture for a description and the planner for a plan, checks the formats
-- and the rows as the routes will, and derives the stage that is reached from the blockers.
-- RunGuard: src/core/run_guard.h. Gpu/Dispatch: src/core/gpu/dispatch_math.cpp.
-- Tokenizer/Unicode: src/core/tokenizer/unicode.h and unicode.cpp, less the classes of characters.
-- Tokenizer/Stream: src/core/tokenizer/utf8_stream.cpp.
-- Tokenizer/Bpe/Table: src/core/tokenizer/bpe/merge_table.cpp and merge_table.h, less the reading of the
-- rules from a file. Base/Probe holds the probing of an open-addressed table that find and insert share.
-- Tokenizer/Bpe/Merge: what merging is, after src/core/tokenizer/bpe/merge.h. Tokenizer/Bpe/Short is
-- merge_short of src/core/tokenizer/bpe/merge.cpp. The table is there a function from pairs to rules, as
-- find is for a table in which it ends. Tokenizer/Bpe/Long is merge_long and merge: the chain of
-- symbols, the queue of candidates and the loop that takes the least one. Which of the candidates that
-- compare equal a std::priority_queue gives first is open; the list here gives one, and no theorem on it
-- uses which.
-- Examples: a small file and a small device, on which the theorems are applied.
--
-- Loops are structural: over the count that is left, or over a list. Nine loops are on fuel: the
-- bisection of place_cache, which gets 32 rounds for two 32-bit bounds and is shown to need no more
-- than the width's bits; the pieces of a tensor, which get as many rounds as the tensor has rows; the
-- doubling of a merge table's slots, with 64 rounds, and the probing of it, with as many as it has
-- slots; the rounds of merge_short, one more than its symbols; those of merge_long, one
-- more than three for each symbol, as a merge takes one candidate and adds two at most; the walk along
-- the chain, one more than the symbols; the chunks of an array of numbers, one
-- for each and two more; and the digits of a layer's number, ten for 32 bits.
-- The theorems on their callers show that it is enough.
--
-- Not modelled: the GPU calls, the upload, the tokenizer beyond its UTF-8 code and the merging of a
-- piece, the wording of messages, the bindings and the page.
pub mod Base
pub mod Formats
pub mod Gguf
pub mod Model
pub mod Arch
pub mod Residency
pub mod Capability
pub mod Preflight
mod Examples
pub mod RunGuard
pub mod Gpu
pub mod Tokenizer
