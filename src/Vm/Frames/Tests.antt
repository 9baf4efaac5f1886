-- ===== src/Vm/Frames/Tests.antt =====
-- A call with one argument, of a function that calls another one and ends in a tail call.
use novus.Base.{ℕ, ◌+◌, ◌-◌, ◌<◌, ◌≡◌, refl, arith}
use novus.Vm.Value.{raw, uint_value, get_uint, stack_overflow}
use novus.Vm.Frames.{
  Frames, running, stopped, returned, store, memmove, raw_ptr_value, get_raw_ptr, get_ip, call,
  call_tail, ret,
}
use novus.Vm.Frames.Calls.{Agree, store_other}
use novus.Vm.Frames.Returns.{Balanced, work, tail, nested, next, call-ret}

-- The value 5 at index 3, on top of the frame of the caller, which begins at index 1.
abbrev caller : Frames
caller = record { memory = store 3 (uint_value 5) (λ i. raw 0); next = 4; sh = 1; ip = 20 }

abbrev at_call : Frames
at_call = record {
  memory =
      store 4 (raw_ptr_value 64 1)
        (store 3 (uint_value 20) (memmove 5 3 1 (store 3 (uint_value 5) (λ i. raw 0))));
  next = 6;
  sh = 5;
  ip = 40;
}

-- The function calls another one without arguments.
abbrev at_inner : Frames
at_inner = record {
  memory = store 7 (raw_ptr_value 64 5) (store 6 (uint_value 40) (memmove 8 6 0 at_call.memory));
  next = 8;
  sh = 8;
  ip = 60;
}

-- That has pushed its result.
abbrev inner_end : Frames
inner_end = record { memory = store 8 (uint_value 9) at_inner.memory; next = 9; sh = 8; ip = 61 }

abbrev after_inner : Frames
after_inner = record { memory = store 6 (uint_value 9) inner_end.memory; next = 7; sh = 5; ip = 40 }

-- The tail call of a third function, with that result.
abbrev at_tail : Frames
at_tail = record { memory = memmove 5 6 1 after_inner.memory; next = 6; sh = 5; ip = 80 }

inner_ret : ret 100 64 1 inner_end ≡ running after_inner
unfolding ret get_ip get_raw_ptr raw_ptr_value store memmove uint_value get_uint
inner_ret = refl

body : Balanced 100 64 1 at_call at_tail
unfolding call call_tail get_ip
body =
    next
      (nested {u = inner_end} {v = after_inner} 0 60 (omega arith) (omega arith) refl
        (work refl
          (λ i l. store_other 8 i (uint_value 9) at_inner.memory (λ e. omega (arith, l, e))))
        (omega arith) inner_ret)
      (tail 1 80 refl)

call-ret_example :
    ((i : ℕ) → i < 1 → at_call.memory (5 + i) ≡ caller.memory (3 + i))
    × (v : Frames) × (ret 100 64 1 at_tail ≡ running v)
    × (v.ip ≡ 20)
    × (v.sh ≡ 1)
    × (v.next ≡ 4)
    × (v.memory (v.next - 1) ≡ at_tail.memory 5)
    × Agree 3 v.memory caller.memory
unfolding call get_ip
call-ret_example =
    call-ret 100 64 1 1 40 caller at_call at_tail (omega arith) (omega arith) (omega arith)
      (omega arith) refl body (omega arith)

-- The result of the inner function is the argument, and the result, of the last one.
result : at_tail.memory 5 ≡ uint_value 9
unfolding memmove store
result = refl

call_full : call 100 64 0 40 (record caller { next = 10238 }) ≡ stopped stack_overflow
unfolding call
call_full = refl

ret_root : ret 100 64 1 caller ≡ returned
unfolding ret
ret_root = refl
