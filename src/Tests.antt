-- ===== src/Tests.antt =====
-- Runs of the modelled code on concrete inputs: the properties applied to data of each component.
mod Builders
mod Codecs
mod Functions
mod Lines
mod Layouts
mod Lookups
mod Patterns
mod Readers
mod Verified
