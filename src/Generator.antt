-- ===== src/Generator.antt =====
-- core/generator.h and the generators of the directory core/, and the class hierarchy as data.
pub mod Counter
pub mod Uniform
pub mod Discrete
pub mod Zipfian
pub mod Scrambled
