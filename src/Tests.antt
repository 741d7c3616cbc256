-- ===== src/Tests.antt =====
-- Concrete runs of the modelled code, and each theorem applied to a concrete input.
mod Classes
mod Slots
mod Arena
mod Histories
mod Slabs
mod Regions
mod LargeRuns
mod SmallRuns
mod Stacks
mod Pools
mod NumaPools
mod SlabPools
mod Configs
