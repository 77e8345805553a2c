-- ===== src/Assigner/Ports.antt =====
-- Port allocation of engine/assigner.py.
use infinity_proxy.Prelude.{
  ℕ, zero, suc, ◌+◌, ◌-◌, ◌≤◌, ◌<◌, ◌≡◌, Bool, true, false, Option, none, some, arith, Bool-cases,
  inl, inr,
}
use native.Mathlib.Decide.{ℕ_discrete}
use infinity_proxy.Config.{Settings, tunnel_ports, count_up}
use infinity_proxy.Db.{Store, port_in_use}
use infinity_proxy.Assigner.{usable, first_usable, allocate_port}

-- What allocate_port answers: the least port of the range that no tunnel has and that can be bound,
-- or nothing if there is no such port.
abbrev pub IsLeastUsable : (ℕ → Bool) → Store → ℕ → ℕ → Option ℕ → Type 0
IsLeastUsable bindable s from to none = (p : ℕ) → from ≤ p → p ≤ to → usable bindable s p ≡ false
IsLeastUsable bindable s from to (some port) =
    (from ≤ port)
    × (port ≤ to)
    × (port_in_use port s ≡ false)
    × (bindable port ≡ true)
    × ((p : ℕ) → from ≤ p → p < port → usable bindable s p ≡ false)

module _ (bindable : ℕ → Bool) (s : Store) where
  unusable_from :
      (from : ℕ)
      → usable bindable s from ≡ false
      → (p bound : ℕ) → ((q : ℕ) → suc from ≤ q → q < bound → usable bindable s q ≡ false)
      → from ≤ p
      → p < bound
      → usable bindable s p ≡ false
  unusable_from from no_use p bound rest le lt = elim (ℕ_discrete from p) [
    | yes e ↦ rw (← e) no_use
    | no ne ↦ rest p (omega arith) lt
  ]

  widen :
      (from to : ℕ) (r : Option ℕ)
      → usable bindable s from ≡ false
      → IsLeastUsable bindable s (suc from) to r
      → IsLeastUsable bindable s from to r
  widen from to none no_use least = λ p le up.
      unusable_from from no_use p (suc to) (λ q a b. least q a (omega arith)) le (omega arith)
  widen from to (some port) no_use least = (
    omega arith,
    least.1,
    least.2,
    least.3,
    λ p le lt. unusable_from from no_use p port least.4 le lt,
  )

  first_usable-IsLeast :
      (n from to : ℕ)
      → from + n ≡ suc to
      → IsLeastUsable bindable s from to (first_usable bindable s (count_up n from))
  unfolding first_usable count_up
  first_usable-IsLeast zero from to e = λ p le up. absurd (omega arith)
  first_usable-IsLeast (suc n) from to e = elim (Bool-cases (usable bindable s from)) [
    | inl good ↦
        rw good
          (omega arith, omega arith, ground arith, ground arith, λ p le lt. absurd (omega arith))
    | inr bad ↦ rw bad (widen from to _ bad (first_usable-IsLeast n (suc from) to (omega arith)))
  ]

tunnel_ports-range :
    (c : Settings)
    → c.tunnel_port_start ≤ c.tunnel_port_end
    → tunnel_ports c
      ≡ some (count_up (suc c.tunnel_port_end - c.tunnel_port_start) c.tunnel_port_start)
unfolding tunnel_ports
tunnel_ports-range c h = ground arith

pub allocate_port-IsLeastUsable :
    (c : Settings) (bindable : ℕ → Bool) (s : Store)
    → c.tunnel_port_start ≤ c.tunnel_port_end
    → IsLeastUsable bindable s c.tunnel_port_start c.tunnel_port_end (allocate_port c bindable s)
unfolding allocate_port
allocate_port-IsLeastUsable c bindable s h =
    rw (tunnel_ports-range c h, allocate_port)
      (first_usable-IsLeast bindable s (suc c.tunnel_port_end - c.tunnel_port_start)
        c.tunnel_port_start c.tunnel_port_end (omega arith))
