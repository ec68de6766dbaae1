-- ===== src/Firewall.antt =====
-- The firewall: its typed configuration, the parsers, the rule form and the reordering of rules.
pub mod Types
pub mod Parse
pub mod RuleForm
pub mod Reorder
