-- ===== src/Tests.antt =====
-- Each theorem of the results at an input that meets its conditions.
mod Screen
mod Streams
mod Text
mod Banks
mod Files
mod Trees
mod Partitions
mod Paths
mod Created
mod Mmu
mod Config
mod Directories
mod Volumes
mod First
