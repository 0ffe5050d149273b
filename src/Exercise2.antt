-- ===== src/Exercise2.antt =====
-- network-programming-2013/exercise2
pub mod Arguments
pub mod Children
pub mod PipeDoubler
