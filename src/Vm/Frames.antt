-- ===== src/Vm/Frames.antt =====
-- src/vm/internal/executor.cpp: `call`, `callTail` and the case Ret of `execute`, with the memory of
-- the stack of stack.hpp. A pointer into the stack is an index, an instruction pointer an offset.
pub mod Calls
pub mod Returns
mod Tests
use novus.Base.{
  ℕ, ◌+◌, ◌-◌, ◌*◌, ◌/◌, ◌≡◌, Option, none, some, Bool, ◌&&◌, ltb, leb, ◌==◌, if◌then◌else◌,
}
use novus.Vm.Value.{
  Value, raw, ulong_ref, uint_value, get_uint, ExecState, stack_overflow, capacity,
}

abbrev pub Memory : Type 0
Memory = ℕ → Value

-- m_stack, m_stackNext, and `ip` and `sh` of `execute`.
pub record Frames : Type 0 where
  pub memory : Memory
  pub next : ℕ
  pub sh : ℕ
  pub ip : ℕ

-- `returned` from the root frame is the state Success; `undefined` is a failed assertion.
pub data Outcome : Type 0 where
  running : Frames → Outcome
  stopped : ExecState → Outcome
  returned undefined : Outcome

unfoldable pub store : ℕ → Value → Memory → Memory
store at v memory i = if i == at then v else memory i

-- std::memmove
unfoldable pub memmove : ℕ → ℕ → ℕ → Memory → Memory
memmove to from count memory i =
    if leb to i then if ltb i (to + count) then memory (from + (i - to)) else memory i else memory i

-- The stack begins at the address `bottom`.
unfoldable pub raw_ptr_value : ℕ → ℕ → Value
raw_ptr_value bottom i = raw (bottom + 8 * i)

-- The assertion in getRawPtr fails on a reference.
unfoldable pub get_raw_ptr : ℕ → Value → Option ℕ
get_raw_ptr bottom (raw m) = some ((m - bottom) / 8)
get_raw_ptr bottom (ulong_ref val) = none

-- getIp in an executable of `code_size` bytes, with its assertion.
unfoldable pub get_ip : ℕ → ℕ → Option ℕ
get_ip code_size offset = if ltb offset code_size then some offset else none

module _ (code_size bottom : ℕ) where
  unfoldable pub call : ℕ → ℕ → Frames → Outcome
  call arg_count tgt s =
      let arg_start = s.next - arg_count in
      let new_sh = arg_start + 2 in
      if ltb (s.next + 2) capacity
      then elim (get_ip code_size tgt) [
        | none ↦ undefined
        | some ip ↦ running (record {
          memory =
              store (new_sh - 1) (raw_ptr_value bottom s.sh) (
                store (new_sh - 2) (uint_value s.ip) (memmove new_sh arg_start arg_count s.memory));
          next = s.next + 2;
          sh = new_sh;
          ip = ip;
        })
      ]
      else stopped stack_overflow

  -- rewindToNext asserts that it does not go forwards.
  unfoldable pub call_tail : ℕ → ℕ → Frames → Outcome
  call_tail arg_count tgt s =
      if leb (s.sh + arg_count) s.next
      then elim (get_ip code_size tgt) [
        | none ↦ undefined
        | some ip ↦ running (record {
          memory = memmove s.sh (s.next - arg_count) arg_count s.memory;
          next = s.sh + arg_count;
          sh = s.sh;
          ip = ip;
        })
      ]
      else undefined

  -- The case Ret, where `trap` gives false.
  unfoldable pub ret : ℕ → Frames → Outcome
  ret root_sh s =
      if s.sh == root_sh
      then returned
      else if ltb s.next 3
      then undefined
      else if leb (s.sh - 2) (s.next - 1)
      then elim (get_uint (s.memory (s.sh - 2))) [
        | none ↦ undefined
        | some offset ↦ elim (get_ip code_size offset) [
          | none ↦ undefined
          | some ip ↦ elim (get_raw_ptr bottom (s.memory (s.sh - 1))) [
            | none ↦ undefined
            | some sh ↦
                if ltb (s.sh - 2 + 1) capacity
                then running (record {
                  memory = store (s.sh - 2) (s.memory (s.next - 1)) s.memory;
                  next = s.sh - 2 + 1;
                  sh = sh;
                  ip = ip;
                })
                else stopped stack_overflow
          ]
        ]
      ]
      else undefined
