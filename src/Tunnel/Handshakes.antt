-- ===== src/Tunnel/Handshakes.antt =====
-- The two ends of a handshake, each fed with what the other sent.
use cube_advisor_agent.Base.{◌≡◌, ◌≢◌, refl, none, some, arith, ok, err, Bool-cases, ◌⊎◌, inl, inr}
use cube_advisor_agent.Proto.{Hello, negotiate}
use cube_advisor_agent.Proto.Versions.{IsServed, negotiate_accepted_iff, told_why}
use cube_advisor_agent.Tunnel.{dial, accept, refused_by_service, refused_agent}

-- Over a wire that delivers, both ends of a session hold the ack of Negotiate if the agent is served;
-- if it is not, the ack reaches the agent all the same, and both ends report its reason, which is
-- never missing.
pub handshake_agrees :
    (h : Hello)
    → ((accept (ok h) negotiate none).0 ≡ some (negotiate h))
      × ((IsServed h
            × ((accept (ok h) negotiate none).1 ≡ ok (negotiate h))
            × (dial none (ok (negotiate h)) ≡ ok (negotiate h)))
          ⊎ ((¬ IsServed h)
              × ((accept (ok h) negotiate none).1
                  ≡ err (refused_agent h.cluster_id (negotiate h).reason))
              × (dial none (ok (negotiate h)) ≡ err (refused_by_service (negotiate h).reason))
              × ((negotiate h).reason ≢ none)))
unfolding accept dial
handshake_agrees h = (
  refl,
  elim (Bool-cases (negotiate h).accepted) [
    | inl e ↦ inl ((negotiate_accepted_iff h).0 e, ground arith, ground arith)
    | inr e ↦
        inr (ground (arith, negotiate_accepted_iff h), ground arith, ground arith, told_why h e)
  ],
)
