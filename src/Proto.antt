-- ===== src/Proto.antt =====
-- pkg/tunnelproto/tunnelproto.go: the frames of the tunnel and their validation.
-- An error is a constructor for the check that failed, with the value that its text shows.
pub mod Targets
pub mod Opens
pub mod Versions
use cube_advisor_agent.Base.{
  ℕ, suc, ◌+◌, ◌-◌, ◌*◌, ◌^◌, Bool, true, false, not, ◌&&◌, ◌||◌, Option, none, some, List, [], ◌∷◌,
  Bytes, text, bytes_eq, bytes_beq, nat_eq, ◌==◌, ltb, leb, between, if◌then◌else◌, length,
  contains, Result, ok, err, ◌>>=◌, ◌>>◌, fail_if, ℤ, pos, negsuc,
}

abbrev pub version : ℕ
version = 1

abbrev pub min_supported_version : ℕ
min_supported_version = 1

-- A uint8.
abbrev pub ChannelKind : Type 0
ChannelKind = ℕ

abbrev pub channel_ctl : ChannelKind
channel_ctl = 0

abbrev pub channel_tool : ChannelKind
channel_tool = 1

abbrev pub channel_console : ChannelKind
channel_console = 2

unfoldable pub valid_channel : ChannelKind → Bool
valid_channel k = leb k channel_console

pub record Hello : Type 0 where
  pub cluster_id : Bytes
  pub fingerprint : Bytes
  pub agent_version : Bytes
  pub protocol_version : ℤ
  pub served_level : Bytes
  pub served_consent : Bytes
  pub brokers : List Bytes

pub data Refusal : Type 0 where
  no_cluster_id no_fingerprint : Refusal
  too_old : ℤ → ℕ → Bytes → Refusal
  too_new : ℤ → ℕ → Refusal

-- `reason` is none where the frame's text is empty.
pub record HelloAck : Type 0 where
  pub accepted : Bool
  pub protocol_version : ℤ
  pub reason : Option Refusal
  pub console_origins : List (Bytes × Bytes)
  pub current_release : Bytes

abbrev refuse_hello : Refusal → HelloAck
refuse_hello why = record {
  accepted = false;
  protocol_version = pos 0;
  reason = some why;
  console_origins = [];
  current_release = [];
}

-- a < n and n < a, for an int and a constant
abbrev pub int_ltb : ℤ → ℕ → Bool
int_ltb (pos a) n = ltb a n
int_ltb (negsuc a) n = true

abbrev pub ltb_int : ℕ → ℤ → Bool
ltb_int n (pos a) = ltb n a
ltb_int n (negsuc a) = false

unfoldable pub negotiate : Hello → HelloAck
negotiate h =
    if h.cluster_id == []
    then refuse_hello no_cluster_id
    else if h.fingerprint == []
    then refuse_hello no_fingerprint
    else if int_ltb h.protocol_version min_supported_version
    then refuse_hello (too_old h.protocol_version min_supported_version h.cluster_id)
    else if ltb_int version h.protocol_version
    then refuse_hello (too_new h.protocol_version version)
    else record {
      accepted = true;
      protocol_version =
          if ltb_int version h.protocol_version then pos version else h.protocol_version;
      reason = none;
      console_origins = [];
      current_release = [];
    }

-- A string type; these are the kinds that this build knows.
abbrev pub TargetKind : Type 0
TargetKind = Bytes

abbrev pub target_ssh : TargetKind
target_ssh = text "ssh"

abbrev pub target_web : TargetKind
target_web = text "web"

abbrev pub target_tool : TargetKind
target_tool = text "tool"

unfoldable pub valid_target_kind : TargetKind → Bool
valid_target_kind k = k == target_ssh || (k == target_web || k == target_tool)

pub record Target : Type 0 where
  pub kind : TargetKind
  pub name : Bytes

abbrev pub max_target_name_len : ℕ
max_target_name_len = 64

pub data ProtoError : Type 0 where
  unknown_target_kind : TargetKind → ProtoError
  empty_name : TargetKind → ProtoError
  name_too_long : ℕ → ℕ → ProtoError
  bad_character : Target → ℕ → ProtoError
  address_literal : Target → ProtoError
  unknown_channel_kind : ChannelKind → ProtoError
  ctl_by_request : ProtoError
  tool_may_not_target : TargetKind → ProtoError
  console_may_not_target_tool : ProtoError
  agent_driven_elsewhere : ChannelKind → TargetKind → ProtoError

-- On bytes: a byte from 128 on belongs to a rune from 128 on, or to no rune, and neither passes.
unfoldable pub is_name_rune : ℕ → Bool
is_name_rune r =
    between b'a' b'z' r
    || (between b'A' b'Z' r || (between b'0' b'9' r || (r == b'-' || (r == b'_' || r == b'.'))))

-- The loop of `isDottedNumeric`.
unfoldable pub digits_and_dots : Bytes → Bool
digits_and_dots [] = true
digits_and_dots (r ∷ s) =
    if (ltb r b'0' || ltb b'9' r) && not (r == b'.') then false else digits_and_dots s

unfoldable pub is_dotted_numeric : Bytes → Bool
unfolding digits_and_dots
is_dotted_numeric s = digits_and_dots s && contains (text ".") s

-- The loop over the name: the first byte that is not allowed.
unfoldable pub bad_rune : Bytes → Option ℕ
unfolding is_name_rune
bad_rune [] = none
bad_rune (r ∷ s) = if not (is_name_rune r) then some r else bad_rune s

unfoldable pub validate_target : Target → Result ProtoError (Unit {0})
unfolding bad_rune
validate_target t =
    if not (valid_target_kind t.kind)
    then err (unknown_target_kind t.kind)
    else if t.name == []
    then err (empty_name t.kind)
    else if ltb max_target_name_len (length t.name)
    then err (name_too_long (length t.name) max_target_name_len)
    else elim (bad_rune t.name) [
      | some r ↦ err (bad_character t r)
      | none ↦ if is_dotted_numeric t.name then err (address_literal t) else ok tt
    ]

pub record ChannelOpen : Type 0 where
  pub id : ℕ
  pub kind : ChannelKind
  pub target : Target
  pub approved : Bool
  pub agent_driven : Bool

-- The switch on the channel's kind: the two planes.
unfoldable pub check_plane : ChannelOpen → Result ProtoError (Unit {0})
check_plane c =
    if c.kind == channel_tool
    then fail_if (not (c.target.kind == target_tool)) (tool_may_not_target c.target.kind)
    else if c.kind == channel_console
    then fail_if (c.target.kind == target_tool) console_may_not_target_tool
    else ok tt

unfoldable pub validate_open : ChannelOpen → Result ProtoError (Unit {0})
validate_open c = do
  fail_if (not (valid_channel c.kind)) (unknown_channel_kind c.kind)
  fail_if (c.kind == channel_ctl) ctl_by_request
  validate_target c.target
  check_plane c
  fail_if (c.agent_driven && (not (c.kind == channel_console) || not (c.target.kind == target_ssh)))
      (agent_driven_elsewhere c.kind c.target.kind)
