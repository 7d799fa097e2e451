-- ===== src/Proto/Opens.antt =====
-- ChannelOpen.Validate: the two planes stay apart, and every open names a symbolic target.
use cube_advisor_agent.Base.{
  ◌≡◌, ◌↔◌, ◌⊎◌, inl, inr, refl, true, arith, bytes_beq_iff, ok, err, Result, text,
}
use cube_advisor_agent.Proto.{
  Target, target_ssh, target_web, target_tool, valid_channel, channel_tool, channel_console,
  ChannelOpen, check_plane, validate_open, validate_target, ProtoError,
}
use cube_advisor_agent.Proto.Targets.{IsSymbolic, validate_target-IsSymbolic}

-- The AI plane reaches tools only, the human plane everything but tools, and no third plane opens.
pub record IsLegal (c : ChannelOpen) : Type 0 where
  pub symbolic : IsSymbolic c.target
  pub plane :
      ((c.kind ≡ channel_tool) × (c.target.kind ≡ target_tool))
      ⊎ ((c.kind ≡ channel_console) × ((c.target.kind ≡ target_ssh) ⊎ (c.target.kind ≡ target_web)))
  pub driven : c.agent_driven ≡ true → (c.kind ≡ channel_console) × (c.target.kind ≡ target_ssh)

validate_target-cases :
    (t : Target) → (validate_target t ≡ ok tt) ⊎ ((e : ProtoError) × (validate_target t ≡ err e))
validate_target-cases t = cases (validate_target t)
  where
    cases : (r : Result ProtoError (Unit {0})) → (r ≡ ok tt) ⊎ ((e : ProtoError) × (r ≡ err e))
    cases (ok tt) = inl refl
    cases (err e) = inr (e, refl)

ssh-ne-tool : ¬ (target_ssh ≡ target_tool)
unfolding text
ssh-ne-tool h = cc

web-ne-tool : ¬ (target_web ≡ target_tool)
unfolding text
web-ne-tool h = cc

-- An open request passes exactly if its target is symbolic, a tool channel names a tool and a console
-- channel an ssh or web target, with no third kind, and only an ssh console is driven by the agent.
pub validate_open-IsLegal : (c : ChannelOpen) → (validate_open c ≡ ok tt) ↔ IsLegal c
unfolding validate_open check_plane valid_channel
validate_open-IsLegal c = ground (
  arith,
  validate_target-cases c.target,
  validate_target-IsSymbolic c.target,
  bytes_beq_iff c.target.kind target_tool,
  bytes_beq_iff c.target.kind target_ssh,
  ssh-ne-tool,
  web-ne-tool,
)
