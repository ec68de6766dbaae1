-- ===== src/Nat.antt =====
-- NAT rules: lib/natTypes.ts, natParse.ts, natRuleForm.ts and natStaticForm.ts.
pub mod Types
pub mod Parse
pub mod RuleForm
pub mod StaticForm
