-- ===== src/Ram.antt =====
-- The memory process: Mi-RAM-HQ/src.
pub mod Segments
pub mod Tables
pub mod Physical
pub mod Segmentation
pub mod Allocation
pub mod Crew
pub mod Dump
pub mod Examples
pub mod CrewExamples
