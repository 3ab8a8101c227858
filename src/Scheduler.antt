-- ===== src/Scheduler.antt =====
-- holonbridge/scheduler: the tasks, the gates a firing passes, and its record.
--
-- Stamps are qualified ISO texts with whole seconds, read as their day (the first ten characters) and
-- the text. Intervals are whole seconds. The actions of a task are an argument, since a firing reads
-- from them only the outcome and the units used. None of them fires another task.
pub mod Model
pub mod Gates
pub mod Firing
