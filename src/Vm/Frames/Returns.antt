-- ===== src/Vm/Frames/Returns.antt =====
-- A function returns to its caller, whatever it calls meanwhile.
use novus.Base.{
  ℕ, ◌+◌, ◌-◌, ◌^◌, ◌<◌, ◌≤◌, ◌≡◌, refl, sym, ap, ◌∙◌, arith, some, true, false, ltb, leb, ◌==◌,
}
use mathlib.Core.Path.{subst}
use novus.Vm.Value.{Value, get_uint, get_uint-uint_value, capacity}
use novus.Vm.Frames.{
  Frames, running, undefined, store, memmove, raw_ptr_value, get_raw_ptr, get_ip, call, call_tail,
  ret,
}
use novus.Vm.Frames.Calls.{
  Agree, Called, call-Called, running_inj, if_running, ip_running, store_here, store_other,
  memmove_below,
}

-- The caller's frame with the result of the function on top.
abbrev pub after_ret : ℕ → Frames → Frames → Frames
after_ret arg_count s u = record {
  memory = store (s.next - arg_count) (u.memory (u.next - 1)) u.memory;
  next = s.next - arg_count + 1;
  sh = s.sh;
  ip = s.ip;
}

get_raw_ptr-raw_ptr_value : (bottom i : ℕ) → get_raw_ptr bottom (raw_ptr_value bottom i) ≡ some i
unfolding get_raw_ptr raw_ptr_value
get_raw_ptr-raw_ptr_value bottom i = ap some (omega arith)

get_ip_in : (code_size i : ℕ) → i < code_size → get_ip code_size i ≡ some i
unfolding get_ip
get_ip_in code_size i h = ground arith

module _ (code_size bottom : ℕ) where
  -- What a function does before it returns, from one instruction to another: it works in its own frame,
  -- goes on as another function by a tail call, or calls a function, which does the same and returns.
  pub data Balanced (root : ℕ) : Frames → Frames → Type 0 where
    work : {s t : Frames} → t.sh ≡ s.sh → Agree s.sh t.memory s.memory → Balanced root s t
    tail :
        {s t : Frames}
        → (arg_count tgt : ℕ) → call_tail code_size bottom arg_count tgt s ≡ running t
        → Balanced root s t
    nested :
        {s t u v : Frames}
        → (arg_count tgt : ℕ) → s.sh + arg_count ≤ s.next
        → s.ip < code_size
        → call code_size bottom arg_count tgt s ≡ running t
        → Balanced root t u
        → u.sh < u.next
        → ret code_size bottom root u ≡ running v
        → Balanced root s v
    next : {s t u : Frames} → Balanced root s t → Balanced root t u → Balanced root s u

module _ (code_size bottom : ℕ) (small : code_size ≤ 2 ^ 32) where
  ret-Called :
      (root arg_count tgt : ℕ) (s t u : Frames)
      → Called bottom arg_count tgt s t
      → s.ip < code_size
      → u.sh ≡ t.sh
      → Agree t.sh u.memory t.memory
      → t.sh < u.next
      → root < t.sh
      → ret code_size bottom root u ≡ running (after_ret arg_count s u)
  unfolding ret
  ret-Called root n tgt s t u c i e a l r =
      let at : ℕ = s.next - n in
      let place : t.sh ≡ at + 2 = c.place in
      let free : s.next + 2 < capacity = c.room in
      let sh : u.sh ≡ at + 2 = e ∙ place in
      let here : u.sh - 2 ≡ at = omega (arith, sh) in
      let not_root : (u.sh == root) ≡ false = ground arith in
      let size : ltb u.next 3 ≡ false = ground arith in
      let back : leb (u.sh - 2) (u.next - 1) ≡ true = ground arith in
      let saved_ip : get_uint (u.memory (u.sh - 2)) ≡ some s.ip =
        ap (λ (k : ℕ). get_uint (u.memory k)) here
        ∙ ap get_uint (a at (omega (arith, c.place)) ∙ c.return_ip)
        ∙ get_uint-uint_value s.ip (omega (arith, i, small)) in
      let saved_sh : get_raw_ptr bottom (u.memory (u.sh - 1)) ≡ some s.sh =
        ap (λ (k : ℕ). get_raw_ptr bottom (u.memory k)) (omega (arith, sh))
        ∙ ap (get_raw_ptr bottom) (a (at + 1) (omega (arith, c.place)) ∙ c.return_sh)
        ∙ get_raw_ptr-raw_ptr_value bottom s.sh in
      let room : ltb (u.sh - 2 + 1) capacity ≡ true = ground arith in
      rw (not_root, size, back, saved_ip, get_ip_in code_size s.ip i, saved_sh, room)
        (ap
          (λ (k : ℕ). running (record {
            memory = store k (u.memory (u.next - 1)) u.memory;
            next = k + 1;
            sh = s.sh;
            ip = s.ip;
          }))
          here)

  -- A frame is kept: its home, and the memory below it.
  abbrev Keeps : Frames → Frames → Type 0
  Keeps s t = (t.sh ≡ s.sh) × Agree s.sh t.memory s.memory

  call_tail-Keeps :
      (arg_count tgt : ℕ) (s t : Frames)
      → call_tail code_size bottom arg_count tgt s ≡ running t
      → Keeps s t
  unfolding call_tail
  call_tail-Keeps n tgt s t h =
      let moved : ℕ → Frames = λ ip. record {
        memory = memmove s.sh (s.next - n) n s.memory;
        next = s.sh + n;
        sh = s.sh;
        ip = ip;
      } in
      let (_, h1) = if_running (leb (s.sh + n) s.next) _ undefined t (λ e. absurd cc e) h in
      let (_, e) = ip_running code_size tgt moved t h1 in
      subst (Keeps s) e (refl, λ i l. memmove_below s.sh (s.next - n) n i s.memory l)

  after_ret-Keeps :
      (arg_count tgt : ℕ) (s t u : Frames)
      → Called bottom arg_count tgt s t
      → s.sh + arg_count ≤ s.next
      → Keeps t u
      → Keeps s (after_ret arg_count s u)
  after_ret-Keeps n tgt s t u c l (e, a) =
      let place : t.sh ≡ s.next - n + 2 = c.place in
      (
        refl,
        λ i k.
            store_other (s.next - n) i (u.memory (u.next - 1)) u.memory
              (λ q. omega (arith, q, k, l))
            ∙ a i (omega (arith, place, k, l))
            ∙ c.below i (omega (arith, k, l)),
      )

  Balanced-Keeps :
      (root : ℕ) (s t : Frames) → Balanced code_size bottom root s t → root ≤ s.sh → Keeps s t
  Balanced-Keeps root s t (work e a) r = (e, a)
  Balanced-Keeps root s t (tail n tgt h) r = call_tail-Keeps n tgt s t h
  Balanced-Keeps root _ _ (nested {s} {t} {u} {v} n tgt l i h b m e) r =
      let c = call-Called code_size bottom n tgt s t (omega (arith, l)) h in
      let place : t.sh ≡ s.next - n + 2 = c.place in
      let k = Balanced-Keeps root t u b (omega (arith, place, l, r)) in
      let q =
        ret-Called root n tgt s t u c i k.0 k.1 (omega (arith, m, k.0))
          (omega (arith, place, l, r)) in
      subst (Keeps s) (running_inj (sym q ∙ e)) (after_ret-Keeps n tgt s t u c l k)
  Balanced-Keeps root _ _ (next {s} {t} {u} b c) r =
      let (e, a) = Balanced-Keeps root s t b r in
      let (f, d) = Balanced-Keeps root t u c (omega (arith, e, r)) in
      (f ∙ e, λ i l. d i (omega (arith, e, l)) ∙ a i l)

-- In an executable of at most 2 ^ 32 bytes, when a call of a function with arguments on top of the
-- caller's frame has succeeded, then the function finds its arguments in its frame; and when it comes
-- to its end with a result on top of its frame, after work in that frame, tail calls and calls that
-- have returned, nested in any way, its return gives the result in the place of the arguments to the
-- caller, which goes on behind the call in its own frame, with the memory below the arguments unchanged.
pub call-ret :
    (code_size bottom : ℕ) (root arg_count tgt : ℕ) (s t u : Frames)
    → code_size ≤ 2 ^ 32
    → root ≤ s.sh
    → s.sh + arg_count ≤ s.next
    → s.ip < code_size
    → call code_size bottom arg_count tgt s ≡ running t
    → Balanced code_size bottom root t u
    → u.sh < u.next
    → ((i : ℕ) → i < arg_count → t.memory (t.sh + i) ≡ s.memory (s.next - arg_count + i))
      × (v : Frames) × (ret code_size bottom root u ≡ running v)
      × (v.ip ≡ s.ip)
      × (v.sh ≡ s.sh)
      × (v.next ≡ s.next - arg_count + 1)
      × (v.memory (v.next - 1) ≡ u.memory (u.next - 1))
      × Agree (s.next - arg_count) v.memory s.memory
call-ret code_size bottom root n tgt s t u small r l i h b m =
    let c = call-Called code_size bottom n tgt s t (omega (arith, l)) h in
    let place : t.sh ≡ s.next - n + 2 = c.place in
    let (e, a) = Balanced-Keeps code_size bottom small root t u b (omega (arith, place, l, r)) in
    let q =
      ret-Called code_size bottom small root n tgt s t u c i e a (omega (arith, m, e))
        (omega (arith, place, l, r)) in
    let result : Value = u.memory (u.next - 1) in
    (
      c.args,
      after_ret n s u,
      q,
      refl,
      refl,
      refl,
      ap (store (s.next - n) result u.memory) (omega arith)
          ∙ store_here (s.next - n) result u.memory,
      λ k x.
          store_other (s.next - n) k result u.memory (λ z. omega (arith, z, x))
          ∙ a k (omega (arith, place, x))
          ∙ c.below k x,
    )
