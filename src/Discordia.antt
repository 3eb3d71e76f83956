-- ===== src/Discordia.antt =====
-- The crew's process: Discordia/src.
pub mod Messenger
pub mod Parser
pub mod Console
pub mod Crew
pub mod Queues
pub mod Planner
pub mod System
pub mod Samples
pub mod CrewExamples
pub mod PlannerExamples
pub mod SystemExamples
pub mod ParserExamples
pub mod Examples
