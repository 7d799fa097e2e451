-- ===== src/Broker/Host/Commands.antt =====
-- Every command that the host broker runs is one of four, and no text of the request is an option.
use cube_advisor_agent.Base.{
  ℕ, ◌≤◌, ◌≡◌, ◌⊎◌, inl, inr, refl, true, false, not, ◌++◌, [], ◌∷◌, arith, Bytes, text,
  bytes_beq_iff, bytes_eq, ◌==◌, length, Bool-cases, Option-cases, itoa, sym, Bool, if◌then◌else◌,
}
use cube_advisor_agent.Broker.{IsOne, Request, Served, refuse, serve, method_get}
use cube_advisor_agent.Toolplane.Sandbox.{Args, lookup_arg}
use cube_advisor_agent.Broker.CephServer.{Run}
use cube_advisor_agent.Broker.Host.{
  is_unit_name, atoi, valid_port, HostCommand, sockets_argv, port_argv, failed_argv, unit_argv,
  Plan, refused, procs, command, plan_sockets, plan_unit, host_plan, run_command, follow, host,
  is_malformed,
}

abbrev pub IsAlnum : ℕ → Type 0
IsAlnum c = ((b'A' ≤ c) × (c ≤ b'Z')) ⊎ ((b'a' ≤ c) × (c ≤ b'z')) ⊎ ((b'0' ≤ c) × (c ≤ b'9'))

-- A unit's name begins with a letter or a digit, so systemctl cannot read it as an option.
pub record IsUnitName (u : Bytes) : Type 0 where
  pub first : ℕ
  pub others : Bytes
  pub split : u ≡ first ∷ others
  pub plain : IsAlnum first
  pub short : length others ≤ 127

-- A port is a number in range, printed as Go prints it.
pub record IsPort (p : Bytes) : Type 0 where
  pub number : ℕ
  pub printed : p ≡ itoa number
  pub low : 1 ≤ number
  pub high : number ≤ 65535

pub data IsFixed : HostCommand → Type 0 where
  sockets : IsFixed (record { name = text "ss"; argv = sockets_argv })
  sockets_of :
      (p : Bytes)
      → IsPort p
      → IsFixed (record { name = text "ss"; argv = sockets_argv ++ port_argv p })
  failed : IsFixed (record { name = text "systemctl"; argv = failed_argv })
  unit :
      (u : Bytes) → IsUnitName u → IsFixed (record { name = text "systemctl"; argv = unit_argv u })

is_unit_name-IsUnitName : (u : Bytes) → is_unit_name u ≡ true → IsUnitName u
unfolding is_unit_name
is_unit_name-IsUnitName [] h = cc
is_unit_name-IsUnitName (c ∷ s) h = record {
  first = c;
  others = s;
  split = refl;
  plain = ground arith;
  short = ground arith;
}

valid_port-IsPort : (p : Bytes) → valid_port p ≡ true → IsPort p
unfolding valid_port
valid_port-IsPort [] h = cc
valid_port-IsPort (c ∷ s) h = elim (Option-cases (atoi 0 (c ∷ s))) [
  | inl bad ↦ cc
  | inr (n, e) ↦ record {
    number = n;
    printed = sym ((bytes_beq_iff (itoa n) (c ∷ s)).0 (ground arith));
    low = ground arith;
    high = ground arith;
  }
]

-- The commands that a plan runs.
abbrev PlanIsFixed : Plan → Type 0
PlanIsFixed (refused code why args) = Unit
PlanIsFixed (procs args) = Unit
PlanIsFixed (command c args) = IsFixed c

plan_sockets-fixed : (r : Request) (p : Bytes) → PlanIsFixed (plan_sockets r p)
unfolding plan_sockets
plan_sockets-fixed r p = elim (Bool-cases (p == [])) [
  | inl e ↦ rw (e, plan_sockets) sockets
  | inr e ↦ elim (Bool-cases (not (valid_port p))) [
    | inl bad ↦ rw (e, bad, plan_sockets) tt
    | inr good ↦ rw (e, good, plan_sockets) (sockets_of p (valid_port-IsPort p (ground arith)))
  ]
]

plan_unit-fixed : (r : Request) (u : Bytes) → PlanIsFixed (plan_unit r u)
unfolding plan_unit
plan_unit-fixed r u = elim (Bool-cases (not (is_unit_name u))) [
  | inl bad ↦ rw (bad, plan_unit) tt
  | inr good ↦ rw (good, plan_unit) (unit u (is_unit_name-IsUnitName u (ground arith)))
]

pick-fixed :
    (b : Bool) (p q : Plan) → PlanIsFixed p → PlanIsFixed q → PlanIsFixed (if b then p else q)
pick-fixed true p q hp hq = hp
pick-fixed false p q hp hq = hq

host_plan-fixed : (r : Request) → PlanIsFixed (host_plan r)
unfolding host_plan
host_plan-fixed r = pick-fixed (not (r.method == method_get)) _ _ tt (
    pick-fixed (is_malformed r.query_error) _ _ tt (
      pick-fixed (r.path == text "/sockets") _ _
        (plan_sockets-fixed r (lookup_arg (text "port") r.values))
        (pick-fixed (r.path == text "/procs") _ _ tt (
          pick-fixed (r.path == text "/failed") _ _ failed (
            pick-fixed (r.path == text "/unit") _ _
              (plan_unit-fixed r (lookup_arg (text "name") r.values)) tt)))))

module _ (run : HostCommand → Run) (list_procs : Bytes) where
  -- The outcome of a plan: no command or the plan's own, and one record.
  abbrev pub Bounded : Served HostCommand → Type 0
  Bounded s =
      ((s.asked ≡ []) ⊎ ((c : HostCommand) × (s.asked ≡ c ∷ []) × IsFixed c)) × (IsOne s.audit)

  run_command-Bounded :
      (r : Request) (args : Args) (c : HostCommand)
      → IsFixed c
      → Bounded (run_command run list_procs r args c)
  unfolding run_command serve
  run_command-Bounded r args c h = elim (Option-cases (run c).error) [
    | inl fine ↦ rw (fine, run_command) (inr (c, refl, h), tt)
    | inr (why, broke) ↦ rw (broke, run_command) (inr (c, refl, h), tt)
  ]

  follow-Bounded : (r : Request) (p : Plan) → PlanIsFixed p → Bounded (follow run list_procs r p)
  unfolding follow refuse serve
  follow-Bounded r (refused code why args) h = (inl refl, tt)
  follow-Bounded r (procs args) h = (inl refl, tt)
  follow-Bounded r (command c args) h = run_command-Bounded r args c h

  -- A request runs no command or one of the four fixed ones, and leaves exactly one audit record.
  pub host-Bounded : (r : Request) → Bounded (host run list_procs r)
  unfolding host
  host-Bounded r = follow-Bounded r (host_plan r) (host_plan-fixed r)
