-- ===== src/Gdbstub/Port.antt =====
-- `find_free_port`.
use unikernel_syscall_monito.Base.{
  ℕ, zero, suc, ◌+◌, ◌≤◌, ◌<◌, ◌≡◌, ◌↔◌, refl, sym, ap, ◌∙◌, Bool, true, false, Bool-cases, inl,
  inr, arith, if◌then◌else◌,
}
use mathlib.Core.Bool.{false≢true}
use native.Mathlib.Decide.{dec_le}
use unikernel_syscall_monito.Base.Result.{Result, ok, raise, runtime_error}

-- Whether a bind to a port of 127.0.0.1 succeeds is the operating system's answer.
module _ (can_bind : ℕ → Bool) where
  -- The loop, with the count of ports that are left to try.
  unfoldable pub try_ports : ℕ → ℕ → Result ℕ
  try_ports zero port = raise runtime_error
  try_ports (suc n) port =
      let next = try_ports n (port + 1) in if can_bind port then ok port else next

  unfoldable pub find_free_port : ℕ → Result ℕ
  find_free_port start = try_ports 100 start

  -- The port is in the range and free, and no smaller one in the range is.
  pub record IsFirstFree (start n port : ℕ) : Type 0 where
    pub above : start ≤ port
    pub below : port < start + n
    pub free : can_bind port ≡ true
    pub first : (q : ℕ) → start ≤ q → q < port → can_bind q ≡ false

  later_taken :
      (start : ℕ) (port : ℕ)
      → can_bind start ≡ false
      → ((q : ℕ) → start + 1 ≤ q → q < port → can_bind q ≡ false)
      → (q : ℕ) → start ≤ q
      → q < port
      → can_bind q ≡ false
  later_taken start port taken rest q lo hi = elim (dec_le (start + 1) q) [
    | yes h ↦ rest q h hi
    | no h ↦ let same : start ≡ q = omega arith in rw (← same) taken
  ]

  try_ports-ok : (n start port : ℕ) → try_ports n start ≡ ok port → IsFirstFree start n port
  unfolding try_ports
  try_ports-ok zero start port h = cc
  try_ports-ok (suc n) start port h = elim (Bool-cases (can_bind start)) [
    | inl free ↦
        let same : start ≡ port = ground arith in
        rw (← same) (record {
          above = omega arith;
          below = omega arith;
          free = free;
          first = λ q lo hi. absurd (omega arith);
        })
    | inr taken ↦
        let r = try_ports-ok n (start + 1) port (ground arith) in
        record {
          above = omega (arith, r.above);
          below = omega (arith, r.below);
          free = r.free;
          first = later_taken start port taken r.first;
        }
  ]

  try_ports-raise :
      (n start : ℕ)
      → ((q : ℕ) → start ≤ q → q < start + n → can_bind q ≡ false)
      → try_ports n start ≡ raise runtime_error
  unfolding try_ports
  try_ports-raise zero start h = refl
  try_ports-raise (suc n) start h =
      rw (h start (omega arith) (omega arith))
        (try_ports-raise n (start + 1) (λ q lo hi. h q (omega arith) (omega arith)))

  first_is :
      {n : ℕ} (start port : ℕ) → IsFirstFree start n port → can_bind start ≡ true → start ≡ port
  first_is start port f free = elim (dec_le (start + 1) port) [
    | yes h ↦ absurd (false≢true (sym (f.first start (omega arith) (omega (arith, h))) ∙ free))
    | no h ↦ omega (arith, f.above)
  ]

  not_start :
      {n : ℕ} (start port : ℕ)
      → IsFirstFree start n port
      → can_bind start ≡ false
      → start + 1 ≤ port
  not_start start port f taken = elim (dec_le (start + 1) port) [
    | yes h ↦ h
    | no h ↦
        let same : start ≡ port = omega (arith, f.above) in
        absurd (false≢true (sym taken ∙ ap can_bind same ∙ f.free))
  ]

  try_ports-first : (n start port : ℕ) → IsFirstFree start n port → try_ports n start ≡ ok port
  unfolding try_ports
  try_ports-first zero start port f = absurd (omega (arith, f.above, f.below))
  try_ports-first (suc n) start port f = elim (Bool-cases (can_bind start)) [
    | inl free ↦ (let same : start ≡ port = first_is start port f free in rw (free, same))
    | inr taken ↦ rw taken (
        try_ports-first n (start + 1) port (record {
          above = not_start start port f taken;
          below = omega (arith, f.below);
          free = f.free;
          first = λ q lo hi. f.first q (omega arith) hi;
        }))
  ]

  -- A port is returned exactly if it is the first one of the hundred from `start` that can be
  -- bound.
  pub find_free_port_iff :
      (start port : ℕ) → (find_free_port start ≡ ok port) ↔ IsFirstFree start 100 port
  unfolding find_free_port
  find_free_port_iff start port = (try_ports-ok 100 start port, try_ports-first 100 start port)

  -- If none of the hundred ports from `start` can be bound, a RuntimeError is raised.
  find_free_port-raise :
      (start : ℕ)
      → ((q : ℕ) → start ≤ q → q < start + 100 → can_bind q ≡ false)
      → find_free_port start ≡ raise runtime_error
  unfolding find_free_port
  find_free_port-raise start h = try_ports-raise 100 start h
