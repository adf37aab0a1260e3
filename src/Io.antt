-- ===== src/Io.antt =====
-- include/aether/io/mmap_file.hpp and src/io/mmap_file.cpp: the memory-mapped file, on POSIX.
pub mod Os
pub mod Mmap
