-- ===== src/Exercises.antt =====
-- Solutions in online_judge/leetcode/editor/cn under cpp: Sum is addTwoNumbers, StrToInt strToInt and
-- Majority majorityElement, and Range searchRange.
pub mod Sum
pub mod StrToInt
pub mod Majority
pub mod Range
mod Tests
