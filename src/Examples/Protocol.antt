-- ===== src/Examples/Protocol.antt =====
-- pkg/tunnelproto on concrete frames.
use cube_advisor_agent.Base.{
  refl, contains, bytes_beq, has_prefix, ◌≡◌, ◌↔◌, true, false, [], text, ok, pos,
}
use cube_advisor_agent.Proto.{
  Target, target_ssh, ChannelOpen, channel_console, Hello, validate_target, validate_open,
  negotiate, bad_rune, is_name_rune, is_dotted_numeric, digits_and_dots, valid_target_kind,
}
use cube_advisor_agent.Proto.Targets.{IsSymbolic, validate_target-IsSymbolic}
use cube_advisor_agent.Proto.Opens.{IsLegal, validate_open-IsLegal}
use cube_advisor_agent.Proto.Versions.{IsServed, negotiate_accepted_iff}

abbrev shell_of_node : Target
shell_of_node = record { kind = target_ssh; name = text "node-3" }

abbrev shell_request : ChannelOpen
shell_request = record {
  id = 7;
  kind = channel_console;
  target = shell_of_node;
  approved = false;
  agent_driven = true;
}

abbrev newest_hello : Hello
newest_hello = record {
  cluster_id = text "c-1";
  fingerprint = text "ab:cd";
  agent_version = text "v1.2.0";
  protocol_version = pos 1;
  served_level = text "observe";
  served_consent = text "always";
  brokers = [];
}

validate_target_example : (validate_target shell_of_node ≡ ok tt) ↔ IsSymbolic shell_of_node
validate_target_example = validate_target-IsSymbolic shell_of_node

-- A name of digits alone passes, which inet_aton reads as the address 127.0.0.1.
digits_pass : validate_target (record { kind = target_ssh; name = text "2130706433" }) ≡ ok tt
unfolding validate_target bad_rune is_name_rune is_dotted_numeric digits_and_dots valid_target_kind
    contains text bytes_beq has_prefix
digits_pass = refl

validate_open_example : (validate_open shell_request ≡ ok tt) ↔ IsLegal shell_request
validate_open_example = validate_open-IsLegal shell_request

negotiate_accepted_example : ((negotiate newest_hello).accepted ≡ true) ↔ IsServed newest_hello
negotiate_accepted_example = negotiate_accepted_iff newest_hello
