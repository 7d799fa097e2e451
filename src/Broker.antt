-- ===== src/Broker.antt =====
-- internal/broker/broker.go: what the four read brokers share. A request is what net/http and net/url
-- make of it; a served request is the audit records, the answer and what was asked of the backend.
pub mod Prom
pub mod Ceph
pub mod CephServer
pub mod Host
pub mod OpenStack
use cube_advisor_agent.Base.{
  ℕ, suc, ◌*◌, ◌^◌, Bool, true, false, not, ◌++◌, [], ◌∷◌, List, Option, none, some, Bytes, text,
  bytes_eq, ◌==◌, if◌then◌else◌, ltb, length, take, itoa,
}
use cube_advisor_agent.Toolplane.Sandbox.{Args, with_call, lookup_arg}

abbrev pub max_response : ℕ
max_response = 16 * 2 ^ 20

abbrev pub method_get : Bytes
method_get = text "GET"

-- `values` is r.URL.Query(), `query_error` the error of url.ParseQuery, `call` the call header.
pub record Request : Type 0 where
  pub method : Bytes
  pub path : Bytes
  pub raw_query : Bytes
  pub values : Args
  pub query_error : Option Bytes
  pub call : Bytes
  pub decoded : Option (List Bytes)

pub record Entry : Type 0 where
  pub tool : Bytes
  pub args : Args
  pub allowed : Bool
  pub reason : Bytes
  pub bytes : ℕ

-- Exactly one audit record.
abbrev pub IsOne : List Entry → Type 0
IsOne [] = ⊥
IsOne (e ∷ []) = Unit
IsOne (e ∷ f ∷ l) = ⊥

pub record Answer : Type 0 where
  pub code : ℕ
  pub body : Bytes

-- What a handler does: `asked` lists the backend's calls, of the broker's own type.
pub record Served (B : Type 0) : Type 0 where
  pub audit : List Entry
  pub answer : Answer
  pub asked : List B

-- Server.record, with an auditor.
unfoldable pub entry : Request → Bytes → Args → Bool → Bytes → ℕ → Entry
entry r tool args allowed reason n = record {
  tool = tool;
  args = if r.call == [] then args else with_call args r.call;
  allowed = allowed;
  reason = reason;
  bytes = n;
}

module _ {B : Type 0} where
  -- The local `refuse` of a handler, after the calls that it has made.
  unfoldable pub refuse : Request → Bytes → Args → List B → ℕ → Bytes → Served B
  unfolding entry
  refuse r tool args asked code why = record {
    audit = entry r tool args false why 0 ∷ [];
    answer = record { code = code; body = why };
    asked = asked;
  }

  unfoldable pub serve : Request → Bytes → Args → List B → Bytes → ℕ → Bytes → ℕ → Served B
  unfolding entry
  serve r tool args asked reason code body n = record {
    audit = entry r tool args true reason n ∷ [];
    answer = record { code = code; body = body };
    asked = asked;
  }

cut_text : Bytes → Bytes
cut_text end = text "answer cut at " ++ (itoa max_response ++ end)

unfoldable pub cut_reason : Bool → Bytes
unfolding cut_text
cut_reason truncated = if truncated then cut_text (text " bytes") else []

unfoldable pub cut_notice : Bytes
unfolding cut_text
cut_notice = (b'\n' ∷ text "[broker: ") ++ cut_text (text " bytes]" ++ b'\n' ∷ [])

-- readCapped: the body up to the limit, and whether there was more.
unfoldable pub read_capped : Bytes → Bytes × Bool
read_capped b = if ltb max_response (length b) then (take max_response b, true) else (b, false)

-- The cap of the brokers that run a command: the notice takes the place of the rest.
unfoldable pub cap_output : Bytes → Bytes
cap_output out = if ltb max_response (length out) then take max_response out ++ cut_notice else out

unfoldable pub notice_if : Bool → Bytes
notice_if truncated = if truncated then cut_notice else []
