-- ===== src/Nft.antt =====
-- internal/nft: from a compiled policy to nftables rules, and into the kernel. Plan has the plan's data,
-- `Build` and `LogPrefix`, Rendered its text; Kernel says what a rule set means to the kernel, Hits when
-- the atoms of one rule match, Refines how the plan compares with `Evaluate`, Sets which sets it defines.
-- Exprs has the expressions of a rule and Apply the batch of messages that loads a plan.
pub mod Plan
pub mod Kernel
pub mod Hits
pub mod Refines
pub mod Sets
pub mod Exprs
pub mod Apply
pub mod Rendered
mod Tests
