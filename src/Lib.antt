-- ===== src/Lib.antt =====
-- Models of the branch of llama.cpp that serves one model from CUDA and ROCm devices together. The
-- parts of the program that stand here, all under code/source, and how they work together:
--
-- A prompt goes from the command line (common/arg.cpp, common/common.cpp) to a context
-- (src/llama-context.cpp), which builds a graph of tensors. The scheduler
-- (ggml/src/ggml-backend.cpp) gives every tensor a backend, cuts the graph into splits of one
-- backend each and makes copies of the inputs that cross backends; the allocator
-- (ggml/src/ggml-alloc.c) places the tensors of each backend in chunks of memory. The rows of the
-- output come back in the context's buffer.
--
--   Base            lists, Boolean tests and tables on the native numbers; no code of the repository
--   Alloc           ggml-alloc.c, ggml_dyn_tallocr_*: chunks of free blocks kept in order. A block is
--                   {offset, size} with the wrap-around of size_t. Alloc.Blocks, Search, Place,
--                   Carve, Release and Free hold the proofs
--   Sched           ggml-backend.cpp: tensors, backends and the backend of a tensor's location
--   Sched.Assign    passes 1 to 4 of ggml_backend_sched_split_graph
--   Sched.Split     pass 5: the splits, their inputs and the copies
--   Sched.Copies    ggml_backend_sched_advance_copy, _copy_graph_inputs and _replace_tensor_refs
--   Text            common.cpp, string_split, string_join, string_replace_all, string_strip,
--                   string_repeat, string_process_escapes; Text.Override: string_parse_kv_override
--   Glob            common.cpp, glob_match and glob_class_match
--   FileName        common.cpp, fs_validate_filename
--   Cpu             common.cpp, parse_cpu_range and parse_cpu_mask
--   Prompt          common.cpp, llama_batch, common_prompt_batch_decode, common_prompt_checkpoint
--   Args            arg.cpp, the parsers of values and lists, parse_csv_row, break_str_into_lines
--   Outputs         llama-context.cpp, output_reserve, the row order at the end of decode,
--                   output_reorder and output_resolve_row
--   Kv              llama-kv-cache.cpp: the cells of a cache. Kv.Slot is find_slot, Kv.Batch apply_ubatch
--                   and prepare, Kv.State state_write and state_read, Kv.Inputs set_input_k_idxs and
--                   set_input_v_idxs; Kv.Valid has the operations as steps and what they keep
--
-- Pointers to tensors and buffer types are numbers, 0 for NULL; an assertion, an abort or an
-- exception is the result none, and so is an id of -1; what state_read throws, an exception of its
-- reader included, is a part of its result, with the cache as it then is.
-- A string is the list of its bytes.
--
-- Fuel. string_split and string_replace_all have one more round than the string has bytes, which a
-- separator that is not empty never uses up; fs_validate_filename the same, if the UTF-8 parser
-- takes at least a byte; glob_match one more than the pattern's length, since each call shortens the
-- pattern; string_process_escapes as many as the string's length, since each round reads a byte.
-- find_slot has two rounds for each cell and two more, since a round that wraps around is followed
-- by one that tests a cell. All other loops recurse on a list or on their own count.
-- GGML_SCHED_MAX_SPLIT_INPUTS, MAX_FREE_BLOCKS, GGML_VBUFFER_MAX_CHUNKS and LLAMA_MAX_SEQ stand with
-- their values; GGML_MAX_N_THREADS is a parameter.
--
-- Parameters, since the repository does not have their code or they belong to a device: the methods
-- of llama_kv_cells (the record CellOps), the masking by a window, the support tests of the backends,
-- the batch that ubatch_reserve gives, llama_io_read_i and what state_read_data makes
-- of the tensors (the record Reader), the duplication of a tensor, std::stoull, std::stoi, std::stof,
-- std::atol, std::atof, the UTF-8 parser, the tables of devices and buffer types, the allocation of
-- a buffer, and the decode and state calls of a context in Prompt.
--
-- Not modelled: kernels and numerics, the execution of splits, events and profiling, the graph
-- allocator above the chunk allocator, the tensors of the KV cache and their data in a state, model
-- files and the placement of layers, the server, and the table of command line options.
pub mod Base
pub mod Alloc
pub mod Sched
pub mod Text
pub mod Kv
pub mod Prompt
pub mod FileName
pub mod Args
pub mod Outputs
pub mod Glob
pub mod Cpu
