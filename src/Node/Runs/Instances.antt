-- ===== src/Node/Runs/Instances.antt =====
-- trinci-node/src/services/wm/local.rs: what `call` and `callable_call` do with the instance of a module.
use trinci.Base.{ℕ, ◌%◌, ◌^◌, String_eq, Option, none, some, List, String, if◌then◌else◌, length}
use trinci.Base.Result.{Result, err, ok}
use trinci.Node.Identity.{Identity}
use trinci.Node.Database.{load_account}
use trinci.Node.Errors.{WasmError}
use trinci.Node.Local.{sign_extended, wslice_split}
use trinci.Node.Execution.State.{Setting}
use trinci.Node.Host.{HostContext}
use trinci.Node.Host.Guest.{Guest, ◌>>=◌, ◌>>◌, give, fail, or_fault, bytes_at}
use trinci.Node.Runs.{
  AppInput, AppOutput, Export, Failure, Instance, Runtime, contract_fault, exported_memory,
  host_functions_register, lend, machine_fault, memory_data, or_error, or_not_found, rehash,
  slice_of, stored_in, traps_as,
}

module _ ⦃i : Identity⦄ ⦃e : Setting⦄ (t : Runtime e) (c : HostContext) where
  unfoldable pub write_mem : (ℕ → Export e ℕ) → List ℕ → Guest e ℕ
  unfolding ◌>>=◌ sign_extended
  write_mem alloc bytes = do
    offset ← traps_as machine_fault (alloc (length bytes % 2 ^ 32))
    (λ s. stored_in s (t.write (memory_data s.memory) (sign_extended offset) bytes))
    give offset

  unfoldable pub update_data_hash : Guest e Unit
  unfolding load_account
  update_data_hash s =
      if s.host.data_updated
      then rehash (load_account e.indexes (e.forks.view s.host.db) c.owner) s
      else give tt s

  unfoldable pub instance_of : t.compiler.Module → e.wm.State → Guest e (Instance e)
  unfolding ◌>>=◌ host_functions_register
  instance_of code m = do
    funcs ← or_error (host_functions_register (t.imports code))
    instance_ ← traps_as machine_fault (t.instantiate c code funcs)
    lend m
    give instance_

  -- The instance, the address and size of the input, and those of the arguments.
  unfoldable pub prepare :
      String
      → AppInput
      → List ℕ
      → t.compiler.Module
      → e.wm.State
      → Guest e (Instance e × ℕ × ℕ × ℕ × ℕ)
  unfolding ◌>>=◌ instance_of write_mem
  prepare no_memory input args code m = do
    instance_ ← instance_of code m
    alloc ← or_not_found instance_.alloc
    (λ s. exported_memory no_memory s.memory s)
    args_addr ← write_mem alloc args
    input_buf ← or_fault (t.rmp_input input)
    input_addr ← write_mem alloc input_buf
    give (instance_, input_addr, length input_buf % 2 ^ 32, args_addr, length args % 2 ^ 32)

  abbrev pub output_of : Result String AppOutput → Guest e (List ℕ)
  output_of (err text) = fail (WasmError.smart_contract_fault text)
  output_of (ok res) =
      if res.success
      then give res.data_
      else fail (WasmError.smart_contract_fault (t.from_utf8_lossy res.data_))

  -- The text of a trap says which one it is.
  abbrev pub trap_text : String → Option String → String
  trap_text text none = text
  trap_text text (some trap) =
      t.replace (t.replace text "error while executing at" trap) "instruction executed wasm"
        "instruction executed\nwasm"

  abbrev pub trapped : Failure → WasmError
  trapped failure = WasmError.wasm_machine_fault (trap_text failure.text failure.trap)

  -- The result of `run` is read from the memory.
  unfoldable pub result_at : ℕ → Guest e (List ℕ)
  unfolding ◌>>=◌ wslice_split bytes_at
  result_at wslice = do
    let (offset, size) = wslice_split wslice
    buf ← (λ s. slice_of (bytes_at (memory_data s.memory) offset size) s)
    output_of (t.rmp_output buf)

  unfoldable pub run_contract :
      AppInput → List ℕ → t.compiler.Module → e.wm.State → Guest e (List ℕ)
  unfolding ◌>>=◌ prepare update_data_hash result_at
  run_contract input args code m = do
    (instance_, input_addr, input_size, args_addr, args_size) ←
        prepare "wasm `memory` not found" input args code m
    run_func ← or_not_found instance_.run
    wslice ← traps_as trapped (run_func input_addr input_size args_addr args_size)
    update_data_hash
    result_at wslice

  -- The answer of `is_callable`.
  unfoldable pub ask_contract : AppInput → List ℕ → t.compiler.Module → e.wm.State → Guest e ℕ
  unfolding ◌>>=◌ prepare update_data_hash
  ask_contract input args code m = do
    (instance_, input_addr, input_size, args_addr, args_size) ←
        prepare "Expected 'memory' not found" input args code m
    is_callable_func ← or_not_found instance_.is_callable
    answer ← traps_as contract_fault (is_callable_func input_addr input_size args_addr args_size)
    update_data_hash
    give answer
