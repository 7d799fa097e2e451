-- ===== src/Tunnel/ToolArgs.antt =====
-- WriteToolArgs against ReadToolArgs.
use cube_advisor_agent.Base.{
  Option, Option-cases, suc, ◌+◌, ◌≤◌, ◌≡◌, ◌≢◌, inl, inr, refl, sym, ap, ◌∙◌, false, ◌++◌, [],
  arith, Bytes, bytes_beq_iff, bytes_eq, ◌==◌, ok, length, ltb, trim_space, Bool-cases,
}
use cube_advisor_agent.Toolplane.Sandbox.{Args}
use cube_advisor_agent.Tunnel.{
  NetError, Json, newline, max_tool_args_bytes, read_line, write_tool_args, read_tool_args,
  args_of_line, args_of_read,
}
use cube_advisor_agent.Tunnel.Lines.{IsLineText, read_line-frame}

-- What encoding/json does with one object of strings: its text is a line that is not blank, and is
-- read back.
pub record AreEncoded (j : Json) (args : Args) : Type 0 where
  pub one_line : IsLineText (j.marshal_args args)
  pub visible : trim_space (j.marshal_args args ++ newline) ≢ []
  pub read_back : j.unmarshal_args (j.marshal_args args ++ newline) ≡ ok args

module _ (j : Json) (write : Bytes → Option NetError) (args : Args) where
  written :
      (wire : Bytes)
      → write_tool_args j write args ≡ ok wire
      → (j.marshal_args args ++ newline ≡ wire)
        × (suc (length (j.marshal_args args)) ≤ max_tool_args_bytes)
  unfolding write_tool_args
  written wire h = elim (Bool-cases (ltb max_tool_args_bytes (length (j.marshal_args args) + 1))) [
    | inl e ↦ absurd (ground arith)
    | inr e ↦ elim (Option-cases (write (j.marshal_args args ++ newline))) [
      | inl fine ↦ ground arith
      | inr (why, failed) ↦ absurd (ground arith)
    ]
  ]

  args_of_line-ok : AreEncoded j args → args_of_line j (j.marshal_args args ++ newline) ≡ ok args
  unfolding args_of_line
  args_of_line-ok coded =
      let shown : (trim_space (j.marshal_args args ++ newline) == []) ≡ false =
        ground
          (arith, bytes_beq_iff (trim_space (j.marshal_args args ++ newline)) [], coded.visible) in
      rw (shown, coded.read_back) refl

  -- A frame that WriteToolArgs writes is read as the arguments that it was written from, whatever
  -- follows it on the stream.
  pub write_tool_args-read_tool_args :
      (wire payload : Bytes) (ending : NetError)
      → AreEncoded j args
      → write_tool_args j write args ≡ ok wire
      → read_tool_args j (record { content = wire ++ payload; ending = ending }) ≡ ok args
  unfolding read_tool_args args_of_read
  write_tool_args-read_tool_args wire payload ending coded h =
      let (e, short) = written wire h in
      ap (λ (t : Bytes). args_of_read j ending (read_line max_tool_args_bytes (t ++ payload)))
        (sym e)
      ∙ ap (args_of_read j ending)
          (read_line-frame max_tool_args_bytes (j.marshal_args args) payload coded.one_line short)
      ∙ args_of_line-ok coded
