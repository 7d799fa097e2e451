-- ===== src/Broker/CephServer.antt =====
-- internal/broker/broker.go: the Ceph broker, and its cache of Ceph's command table.
-- An empty table and a nil one are the same: ParseCephDescriptions returns nil for no command.
pub mod Cache
pub mod Serving
use cube_advisor_agent.Base.{
  ℕ, ◌-◌, ◌*◌, Bool, true, false, not, ◌&&◌, ◌||◌, ◌++◌, [], ◌∷◌, List, Option, none, some, Bytes,
  text, bytes_eq, ◌==◌, if◌then◌else◌, Result, ok, err, length, join, ltb,
}
use cube_advisor_agent.Toolplane.Sandbox.{Args}
use cube_advisor_agent.Toolplane.Tools.{second}
use cube_advisor_agent.Broker.{Request, Served, Entry, Answer, refuse, serve, cap_output}
use cube_advisor_agent.Broker.Ceph.{CephCommand, CephError, check_ceph_args}

abbrev pub hour : ℕ
hour = 3600 * second

-- The table and when it was read.
pub record TableCache : Type 0 where
  pub table : List CephCommand
  pub read_at : ℕ

-- What a run of a command leaves: both outputs, and an error's text.
pub record Run : Type 0 where
  pub out : Bytes
  pub err_out : Bytes
  pub error : Option Bytes

-- CephTable, CephRun and the clock; the texts of refusals are not modelled.
pub record CephNode : Type 0 where
  pub read_table : Result Bytes (List CephCommand)
  pub run : List Bytes → Run
  pub now : ℕ
  pub refusal : CephError → Bytes

abbrev is_nil : List CephCommand → Bool
is_nil [] = true
is_nil (c ∷ cs) = false

unfoldable pub ceph_table : CephNode → TableCache → TableCache × Result Bytes (List CephCommand)
ceph_table node c =
    if not (is_nil c.table) && ltb (node.now - c.read_at) hour
    then (c, ok c.table)
    else elim node.read_table [
      | err why ↦ (c, err why)
      | ok t ↦ (record { table = t; read_at = node.now }, ok t)
    ]

abbrev tool : Bytes
tool = text "broker:ceph"

abbrev ceph_args : List Bytes → Args
ceph_args words = (text "args", join (text " ") words) ∷ []

answer_with :
    CephNode → Request → List Bytes → Result Bytes (List CephCommand) → Served (List Bytes)
answer_with node r words (err why) =
    refuse r tool (ceph_args words) [] 502 (text "reading Ceph's command table: " ++ why)
answer_with node r words (ok table) = elim (check_ceph_args table words) [
  | err e ↦ refuse r tool (ceph_args words) [] 403 (node.refusal e)
  | ok _ ↦
      let ran = node.run words in
      let asked = words ∷ [] in
      elim ran.error [
        | none ↦
            let out = cap_output ran.out in
            serve r tool (ceph_args words) asked [] 200 out (length out)
        | some why ↦
            let out = cap_output ran.out ++ ran.err_out in
            serve r tool (ceph_args words) asked why 502 out (length out)
      ]
]

-- The handler; the calls of its backend are the argument lists that ran.
unfoldable pub ceph : CephNode → TableCache → Request → TableCache × Served (List Bytes)
unfolding answer_with ceph_table
ceph node c r =
    if not (r.method == text "POST")
    then (c, refuse r tool [] [] 400 (text "POST {\"args\":[...]}"))
    else elim r.decoded [
      | none ↦ (c, refuse r tool [] [] 400 (text "POST {\"args\":[...]}"))
      | some words ↦ let (c', table) = ceph_table node c in (c', answer_with node r words table)
    ]
